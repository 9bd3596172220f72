-- ===== src/Contact.antt =====
-- core/pkg/contact/contact.go: the contact book, with trust on first use.
pub mod Tofu
pub mod Listed
pub mod Uri
use stunner.Base.{ℕ, Bool, true, false, Option, none, some, List, [], ◌∷◌, map, if◌then◌else◌}
use stunner.Base.Bytes.{Bytes, bytes_le}
use stunner.Base.Eq.{bytes_eq, bytes_eq_instance}
use stunner.Base.Dict.{Dict, lookup, insert, remove}
use stunner.Base.Result.{key_changed, unknown_handle}
use stunner.Base.Method.{Method, done, failed}
use stunner.Identity.{fingerprint}
use stunner.Crypto.Primitives.{Primitives}

pub record Contact : Type 0 where
  pub handle : Bytes
  pub identity_key : Bytes
  pub fingerprint : Bytes
  pub added_at : ℕ
  pub verified : Bool

-- The map of `Memory`.
abbrev pub Book : Type 0
Book = Dict Bytes Contact

-- `New`; `now` is the time that it reads.
unfoldable pub new_contact : Primitives → ℕ → Bytes → Bytes → Contact
new_contact p now handle key = record {
  handle = handle;
  identity_key = key;
  fingerprint = fingerprint p key;
  added_at = now;
  verified = false;
}

unfoldable pub seen_key : Primitives → ℕ → Bytes → Bytes → Method Book Contact
seen_key p now handle key b = elim (lookup handle b) [
  | some c ↦ if bytes_eq c.identity_key key then done c b else failed key_changed b
  | none ↦ done (new_contact p now handle key) (insert handle (new_contact p now handle key) b)
]

unfoldable pub mark_verified : Bytes → Method Book (Unit {0})
mark_verified handle b = elim (lookup handle b) [
  | none ↦ failed unknown_handle b
  | some c ↦ done tt (insert handle (record c { verified = true }) b)
]

unfoldable pub remove_contact : Bytes → Method Book (Unit {0})
remove_contact handle b = done tt (remove handle b)

-- sort.Slice by handle.
unfoldable pub insert_by_handle : Contact → List Contact → List Contact
insert_by_handle c [] = c ∷ []
insert_by_handle c (d ∷ ds) =
    let rest = insert_by_handle c ds in if bytes_le c.handle d.handle then c ∷ d ∷ ds else d ∷ rest

unfoldable pub sort_by_handle : List Contact → List Contact
sort_by_handle [] = []
sort_by_handle (c ∷ cs) = insert_by_handle c (sort_by_handle cs)

unfoldable pub list_contacts : Book → List Contact
list_contacts b = sort_by_handle (map (λ e. e.1) b)

-- ===== src/Contact/Listed.antt =====
-- What `List` returns.
use mathlib.Core.List.{Perm}
use mathlib.Core.List.Perm
use stunner.Base.{◌≡◌, true, List, [], ◌∷◌, map, inl, inr, Bool-cases}
use stunner.Base.Bytes.{bytes_le, bytes_le_total}
use stunner.Contact.{Contact, Book, insert_by_handle, sort_by_handle, list_contacts}

-- Each contact's handle is at most the next one's.
abbrev pub IsSorted : List Contact → Type 0
IsSorted [] = Unit {0}
IsSorted (c ∷ []) = Unit {0}
IsSorted (c ∷ d ∷ ds) = (bytes_le c.handle d.handle ≡ true) × IsSorted (d ∷ ds)

insert_above :
    (d c : Contact) (ds : List Contact)
    → bytes_le d.handle c.handle ≡ true
    → IsSorted (d ∷ ds)
    → IsSorted (d ∷ insert_by_handle c ds)
unfolding insert_by_handle
insert_above d c [] le h = (le, tt)
insert_above d c (e ∷ es) le h = elim (Bool-cases (bytes_le c.handle e.handle)) [
  | inl before ↦ rw before (le, (before, h.1))
  | inr behind ↦ rw behind (h.0, insert_above e c es (bytes_le_total c.handle e.handle behind) h.1)
]

insert_by_handle-IsSorted :
    (c : Contact) (ds : List Contact) → IsSorted ds → IsSorted (insert_by_handle c ds)
unfolding insert_by_handle
insert_by_handle-IsSorted c [] h = tt
insert_by_handle-IsSorted c (d ∷ ds) h = elim (Bool-cases (bytes_le c.handle d.handle)) [
  | inl before ↦ rw before (before, h)
  | inr behind ↦ rw behind (insert_above d c ds (bytes_le_total c.handle d.handle behind) h)
]

insert_by_handle-Perm : (c : Contact) (ds : List Contact) → Perm (c ∷ ds) (insert_by_handle c ds)
unfolding insert_by_handle
insert_by_handle-Perm c [] = Perm.refl (c ∷ [])
insert_by_handle-Perm c (d ∷ ds) = elim (Bool-cases (bytes_le c.handle d.handle)) [
  | inl le ↦ rw le (Perm.refl (c ∷ d ∷ ds))
  | inr gt ↦ rw gt (Perm.trans (Perm.swap d c ds) (Perm.cons d (insert_by_handle-Perm c ds)))
]

sort_by_handle-IsSorted : (cs : List Contact) → IsSorted (sort_by_handle cs)
unfolding sort_by_handle
sort_by_handle-IsSorted [] = tt
sort_by_handle-IsSorted (c ∷ cs) =
    insert_by_handle-IsSorted c (sort_by_handle cs) (sort_by_handle-IsSorted cs)

sort_by_handle-Perm : (cs : List Contact) → Perm cs (sort_by_handle cs)
unfolding sort_by_handle
sort_by_handle-Perm [] = Perm.refl []
sort_by_handle-Perm (c ∷ cs) =
    Perm.trans (Perm.cons c (sort_by_handle-Perm cs)) (insert_by_handle-Perm c (sort_by_handle cs))

-- List returns every contact of the book, each as often as it is there, sorted by handle.
pub list_contacts-IsSorted :
    (b : Book) → IsSorted (list_contacts b) × Perm (map (λ e. e.1) b) (list_contacts b)
unfolding list_contacts
list_contacts-IsSorted b =
    (sort_by_handle-IsSorted (map (λ e. e.1) b), sort_by_handle-Perm (map (λ e. e.1) b))

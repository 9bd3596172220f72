-- ===== src/Contact/Tofu.antt =====
-- Trust on first use: over any sequence of calls, a handle keeps the key that it was first seen
-- with, unless the contact is removed.
use stunner.Base.{
  ℕ, ◌≡◌, ◌≢◌, ◌⊎◌, refl, sym, ap, ◌∙◌, Bool, true, false, none, some, List, [], ◌∷◌, arith, inl,
  inr, Bool-cases, Option-cases, if◌then◌else◌,
}
use stunner.Base.Bytes.{Bytes, All}
use stunner.Base.Eq.{bytes_eq, bytes_eq_iff, bytes_eq_instance}
use stunner.Base.Dict.{lookup, insert, lookup-insert, lookup-insert_self, lookup-remove}
use stunner.Base.Result.{key_changed, unknown_handle}
use stunner.Base.Method.{done, failed, state_of}
use stunner.Crypto.Primitives.{Primitives}
use stunner.Contact.{Contact, Book, new_contact, seen_key, mark_verified, remove_contact}

-- The calls that change the book.
pub data Call : Type 0 where
  seen : (now : ℕ) (handle key : Bytes) → Call
  verify removal : (handle : Bytes) → Call

unfoldable pub call : Primitives → Call → Book → Book
call p (seen now handle key) b = state_of (seen_key p now handle key b)
call p (verify handle) b = state_of (mark_verified handle b)
call p (removal handle) b = state_of (remove_contact handle b)

unfoldable pub calls : Primitives → List Call → Book → Book
calls p [] b = b
calls p (c ∷ cs) b = calls p cs (call p c b)

-- The call does not remove `handle`.
abbrev pub Keeps : Bytes → Call → Type 0
Keeps handle (removal h) = h ≢ handle
Keeps handle _ = Unit {0}

-- `d` is what `c` has become: the key is the same, and a verification lasts.
abbrev pub Same : Contact → Contact → Type 0
Same c d = (d.identity_key ≡ c.identity_key) × (c.verified ≡ true → d.verified ≡ true)

module _ (p : Primitives) (now : ℕ) (h key : Bytes) (b : Book) where
  seen_key_new :
      lookup h b ≡ none
      → seen_key p now h key b
        ≡ done (new_contact p now h key) (insert h (new_contact p now h key) b)
  unfolding seen_key
  seen_key_new e = rw (e, seen_key)

  seen_key_old :
      (d : Contact)
      → lookup h b ≡ some d
      → seen_key p now h key b
        ≡ (if bytes_eq d.identity_key key then done d b else failed key_changed b)
  unfolding seen_key
  seen_key_old d e = rw (e, seen_key)

  seen_key_same :
      (d : Contact)
      → lookup h b ≡ some d
      → bytes_eq d.identity_key key ≡ true
      → seen_key p now h key b ≡ done d b
  seen_key_same d e t = rw (seen_key_old d e, t)

  seen_key_other :
      (d : Contact)
      → lookup h b ≡ some d
      → bytes_eq d.identity_key key ≡ false
      → seen_key p now h key b ≡ failed key_changed b
  seen_key_other d e t = rw (seen_key_old d e, t)

mark_verified_old :
    (h : Bytes) (b : Book) (d : Contact)
    → lookup h b ≡ some d
    → mark_verified h b ≡ done tt (insert h (record d { verified = true }) b)
unfolding mark_verified
mark_verified_old h b d e = rw (e, mark_verified)

mark_verified_new :
    (h : Bytes) (b : Book) → lookup h b ≡ none → mark_verified h b ≡ failed unknown_handle b
unfolding mark_verified
mark_verified_new h b e = rw (e, mark_verified)

never_both : {b b' : Book} {c : Contact} → failed key_changed b ≡ done c b' → ⊥
never_both h = cc

bool_clash : {t : Bool} → t ≡ false → t ≡ true → ⊥
bool_clash h k = cc

call-Same :
    (p : Primitives) (handle : Bytes) (c : Contact) (k : Call) (b : Book)
    → Keeps handle k
    → lookup handle b ≡ some c
    → (d : Contact) × (lookup handle (call p k b) ≡ some d) × Same c d
unfolding call remove_contact
call-Same p handle c (seen now h key) b keeps e = (
  c,
  elim (Option-cases (lookup h b)) [
    | inl new ↦
        rw (seen_key_new p now h key b new, lookup-insert h handle (new_contact p now h key) b)
          (ground (arith, bytes_eq_iff h handle))
    | inr (d, old) ↦ rw (seen_key_old p now h key b d old) (ground arith)
  ],
  (refl, λ v. v),
)
call-Same p handle c (verify h) b keeps e = elim (Option-cases (lookup h b)) [
  | inl new ↦ (c, rw (mark_verified_new h b new) e, (refl, λ v. v))
  | inr (d, old) ↦ elim (Bool-cases (bytes_eq h handle)) [
    | inl same ↦ (
      record d { verified = true },
      rw (
        mark_verified_old h b d old,
        lookup-insert h handle (record d { verified = true }) b,
        same,
      ),
      ground (arith, bytes_eq_iff h handle),
    )
    | inr other ↦ (
      c,
      rw
          (
            mark_verified_old h b d old,
            lookup-insert h handle (record d { verified = true }) b,
            other,
          )
          e,
      (refl, λ v. v),
    )
  ]
]
call-Same p handle c (removal h) b keeps e =
    (c, rw (lookup-remove h handle b) (ground (arith, bytes_eq_iff h handle)), (refl, λ v. v))

-- Whatever calls are made, as long as none removes the contact, a contact in the book keeps its
-- key, and stays verified once it is.
pub lookup-calls :
    (p : Primitives) (handle : Bytes) (c : Contact) (cs : List Call) (b : Book)
    → All (Keeps handle) cs
    → lookup handle b ≡ some c
    → (d : Contact) × (lookup handle (calls p cs b) ≡ some d) × Same c d
unfolding calls
lookup-calls p handle c [] b keeps e = (c, e, (refl, λ v. v))
lookup-calls p handle c (k ∷ cs) b keeps e =
    let (d, e', (key, kept)) = call-Same p handle c k b keeps.0 e in
    let (d', e'', (key', kept')) = lookup-calls p handle d cs (call p k b) keeps.1 e' in
    (d', e'', (key' ∙ key, λ v. kept' (kept v)))

lookup-seen_key :
    (p : Primitives) (now : ℕ) (handle key : Bytes) (b b' : Book) (c : Contact)
    → seen_key p now handle key b ≡ done c b'
    → (d : Contact) × (lookup handle b' ≡ some d) × (d.identity_key ≡ key)
lookup-seen_key p now handle key b b' c e = elim (Option-cases (lookup handle b)) [
  | inl new ↦ (
    new_contact p now handle key,
    ap (λ o. lookup handle (state_of o)) (sym e ∙ seen_key_new p now handle key b new)
        ∙ lookup-insert_self handle (new_contact p now handle key) b,
    unfold new_contact in refl,
  )
  | inr (d, old) ↦ elim (Bool-cases (bytes_eq d.identity_key key)) [
    | inl agree ↦ (
      d,
      ap (λ o. lookup handle (state_of o)) (sym e ∙ seen_key_same p now handle key b d old agree)
          ∙ old,
      (bytes_eq_iff d.identity_key key).0 agree,
    )
    | inr differ ↦ absurd (never_both (sym (seen_key_other p now handle key b d old differ) ∙ e))
  ]
]

-- A handle that was seen with one key and is not removed since is refused with any other key, the
-- book unchanged, and accepted with the same key.
pub seen_key-calls :
    (p : Primitives) (now later : ℕ) (handle key other : Bytes) (cs : List Call) (b b' : Book)
    (c : Contact)
    → All (Keeps handle) cs
    → seen_key p now handle key b ≡ done c b'
    → let s = calls p cs b' in
      ((key ≢ other) × (seen_key p later handle other s ≡ failed key_changed s))
      ⊎ ((key ≡ other)
          × ((d : Contact) × (seen_key p later handle other s ≡ done d s) × (d.identity_key ≡ key)))
seen_key-calls p now later handle key other cs b b' c keeps e =
    let (d, known, same) = lookup-seen_key p now handle key b b' c e in
    let (d', known', (same', _)) = lookup-calls p handle d cs b' keeps known in
    elim (Bool-cases (bytes_eq d'.identity_key other)) [
      | inl agree ↦ inr (
        sym (same' ∙ same) ∙ (bytes_eq_iff d'.identity_key other).0 agree,
        (d', seen_key_same p later handle other (calls p cs b') d' known' agree, same' ∙ same),
      )
      | inr differ ↦ inl (
        λ h. bool_clash differ ((bytes_eq_iff d'.identity_key other).1 (same' ∙ same ∙ h)),
        seen_key_other p later handle other (calls p cs b') d' known' differ,
      )
    ]

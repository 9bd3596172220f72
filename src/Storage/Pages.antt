-- ===== src/Storage/Pages.antt =====
-- Pages of messages.
use stunner.Base.{
  ℕ, zero, suc, ◌+◌, ◌<◌, ◌≡◌, refl, sym, ap, ◌∙◌, List, [], ◌∷◌, ◌++◌, map, arith, ltb, length,
  take, drop, if◌then◌else◌, drop-drop, drop_all, take_all, Bool-cases, inl, inr,
}
use stunner.Base.Bytes.{Bytes}
use stunner.Storage.{StoredMessage, Store, messages_of, page, messages}

-- An offset behind the end is the end.
drop_clamped :
    (offset : ℕ) (stored : List StoredMessage)
    → drop (if ltb (length stored) offset then length stored else offset) stored
      ≡ drop offset stored
drop_clamped offset stored = elim (Bool-cases (ltb (length stored) offset)) [
  | inl far ↦
      rw far (
        drop_all (length stored) stored (omega arith) ∙ sym (drop_all offset stored (ground arith)))
  | inr near ↦ rw near refl
]

-- Out of range or not, a page is a slice.
page_lem :
    (limit offset : ℕ) (stored : List StoredMessage)
    → 0 < limit
    → page limit offset stored ≡ take limit (drop offset stored)
unfolding page
page_lem limit offset stored pos =
    rw (drop_clamped offset stored) (ground (arith, take_all limit (drop offset stored)))

take-nil : (n : ℕ) → take {A = StoredMessage} n [] ≡ []
take-nil zero = refl
take-nil (suc n) = refl

take-take :
    (m n k : ℕ) (xs : List StoredMessage) → m + n ≡ k → take m xs ++ take n (drop m xs) ≡ take k xs
take-take zero n k xs h = let e : n ≡ k = omega arith in ap (λ j. take j xs) e
take-take (suc m) n k [] h = take-nil n ∙ sym (take-nil k)
take-take (suc m) n zero (x ∷ xs) h = absurd (omega arith)
take-take (suc m) n (suc k) (x ∷ xs) h = ap (λ l. x ∷ l) (take-take m n k xs (omega arith))

map-append :
    (xs ys : List StoredMessage)
    → map (λ m. m.envelope) (xs ++ ys) ≡ map (λ m. m.envelope) xs ++ map (λ m. m.envelope) ys
map-append [] ys = refl
map-append (x ∷ xs) ys = ap (λ l. x.envelope ∷ l) (map-append xs ys)

-- Two pages of messages one after the other, of any sizes but 0, are one page, also over the end
-- of the conversation.
pub messages-messages :
    (conv_id : Bytes) (m n offset : ℕ) (s : Store)
    → 0 < m
    → 0 < n
    → messages conv_id m offset s ++ messages conv_id n (offset + m) s
      ≡ messages conv_id (m + n) offset s
unfolding messages
messages-messages conv_id m n offset s pos pos' =
    let stored = messages_of conv_id s.document in
    rw
      (
        page_lem m offset stored pos,
        page_lem n (offset + m) stored pos',
        page_lem (m + n) offset stored (omega arith),
      )
      (sym (map-append (take m (drop offset stored)) (take n (drop (offset + m) stored)))
        ∙ ap (map (λ x. x.envelope)) (
            ap (λ l. take m (drop offset stored) ++ take n l)
              (sym (drop-drop m offset (offset + m) stored refl))
            ∙ take-take m n (m + n) (drop offset stored) refl))

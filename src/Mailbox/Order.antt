-- ===== src/Mailbox/Order.antt =====
-- What a recipient fetches.
use stunner.Base.{
  ◌≡◌, refl, sym, ap, false, List, [], ◌∷◌, ◌++◌, arith, inl, inr, Bool-cases, ◌≢◌, if◌then◌else◌,
}
use mathlib.Core.List.{append_assoc}
use stunner.Base.Bytes.{Bytes}
use stunner.Base.Eq.{bytes_eq, bytes_eq_iff, bytes_eq_refl, bytes_eq_instance}
use stunner.Base.Dict.{insert, remove, lookup-insert, lookup-remove}
use stunner.Base.Method.{done, state_of}
use stunner.Mailbox.{Boxes, box, put, fetch, pending}

-- Messages put one after the other, each for its recipient.
unfoldable pub put_all : List (Bytes × Bytes) → Boxes → Boxes
put_all [] m = m
put_all (s ∷ sent) m = put_all sent (state_of (put s.0 s.1 m))

-- Those of them that are for `fp`, in order.
unfoldable pub sent_to : Bytes → List (Bytes × Bytes) → List Bytes
sent_to fp [] = []
sent_to fp (s ∷ sent) = let rest = sent_to fp sent in if bytes_eq s.0 fp then s.1 ∷ rest else rest

append_nil : (xs : List Bytes) → xs ++ [] ≡ xs
append_nil [] = refl
append_nil (x ∷ xs) = ap (λ l. x ∷ l) (append_nil xs)

pub box-insert :
    (fp other : Bytes) (msgs : List Bytes) (m : Boxes)
    → box fp (insert other msgs m) ≡ (if bytes_eq other fp then msgs else box fp m)
unfolding box
box-insert fp other msgs m = rw (box, lookup-insert other fp msgs m) (ground arith)

-- Messages for others do not matter, and what is for `fp` comes after what it had.
pub box-put_all :
    (fp : Bytes) (sent : List (Bytes × Bytes)) (m : Boxes)
    → box fp (put_all sent m) ≡ box fp m ++ sent_to fp sent
unfolding put_all sent_to put
box-put_all fp [] m = sym (append_nil (box fp m))
box-put_all fp ((other, c) ∷ sent) m = elim (Bool-cases (bytes_eq other fp)) [
  | inl mine ↦
      let same = (bytes_eq_iff other fp).0 mine in
      rw
        (
          box-put_all fp sent (insert other (box other m ++ c ∷ []) m),
          box-insert fp other (box other m ++ c ∷ []) m,
          mine,
          (bytes_eq_iff other fp).0 mine,
        )
        (append_assoc (box fp m) (c ∷ []) (sent_to fp sent))
  | inr theirs ↦ rw (
    box-put_all fp sent (insert other (box other m ++ c ∷ []) m),
    box-insert fp other (box other m ++ c ∷ []) m,
    theirs,
  )
]

pub box-remove :
    (fp other : Bytes) (m : Boxes)
    → box fp (remove other m) ≡ (if bytes_eq other fp then [] else box fp m)
unfolding box
box-remove fp other m = rw (box, lookup-remove other fp m) (ground arith)

bytes_differ : (a b : Bytes) → b ≢ a → bytes_eq a b ≡ false
bytes_differ a b ne = ground (arith, bytes_eq_iff a b)

-- A recipient fetches what it had and every message put for it since, in the order in which they
-- were put, and nothing that was put for others; its box is then empty, and any other recipient
-- still has all of its messages.
pub fetch-put_all :
    (fp other : Bytes) (sent : List (Bytes × Bytes)) (m : Boxes)
    → other ≢ fp
    → (m' : Boxes) × (fetch fp (put_all sent m) ≡ done (box fp m ++ sent_to fp sent) m')
      × (pending fp m' ≡ 0)
      × (box other m' ≡ box other m ++ sent_to other sent)
unfolding fetch
fetch-put_all fp other sent m ne = (
  remove fp (put_all sent m),
  rw (box-put_all fp sent m),
  unfold pending in rw (box-remove fp fp (put_all sent m), bytes_eq_refl fp),
  rw (box-remove other fp (put_all sent m), bytes_differ fp other ne) (box-put_all other sent m),
)

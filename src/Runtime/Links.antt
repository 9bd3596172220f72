-- ===== src/Runtime/Links.antt =====
-- The links that the engine holds, over all its handlers.
use stunner.Base.{
  ℕ, ◌≡◌, ◌≢◌, ◌==◌, ==_iff, refl, sym, ap, subst, ◌∙◌, Bool, true, false, Option, none, some, List,
  [], ◌∷◌, arith, if◌then◌else◌, Option-cases, Bool-cases, inl, inr,
}
use stunner.Base.Bytes.{Bytes}
use stunner.Base.Eq.{bytes_eq, bytes_eq_iff, bytes_eq_instance}
use stunner.Base.Dict.{lookup, insert, remove, lookup-insert, lookup-remove}
use stunner.Runtime.{Link, Engine, push, close_link, close_old, drop_link, adopt}

-- Close was called on the link `id`.
unfoldable pub is_shut : ℕ → List ℕ → Bool
is_shut id [] = false
is_shut id (j ∷ js) = let rest = is_shut id js in if id == j then true else rest

is_shut_other : (i j : ℕ) (js : List ℕ) → i ≢ j → is_shut i js ≡ false → is_shut i (j ∷ js) ≡ false
unfolding is_shut
is_shut_other i j js ne h = ground (arith, ==_iff i j)

module _ (l : Link) (r : Engine) where
  drop_absent : lookup l.peer_fp r.links ≡ none → drop_link l.peer_fp l r ≡ close_link l r
  unfolding drop_link
  drop_absent e = ground (arith, e)

  drop_mine :
      (held : Link)
      → lookup l.peer_fp r.links ≡ some held
      → (held.id == l.id) ≡ true
      → drop_link l.peer_fp l r ≡ close_link l (record r { links = remove l.peer_fp r.links })
  unfolding drop_link
  drop_mine held e t = ground (arith, e, t)

  drop_other :
      (held : Link)
      → lookup l.peer_fp r.links ≡ some held
      → (held.id == l.id) ≡ false
      → drop_link l.peer_fp l r ≡ close_link l r
  unfolding drop_link
  drop_other held e t = ground (arith, e, t)

close_old_links : (o : Option Link) (l : Link) (r : Engine) → (close_old o l r).links ≡ r.links
unfolding close_old close_link
close_old_links none l r = refl
close_old_links (some old) l r = ground arith

clash : {k : Link} {o : Option Link} → o ≡ none → o ≡ some k → ⊥
clash e f = cc

different : {i j : ℕ} → (i == j) ≡ false → i ≡ j → ⊥
different {i} {j} e f = ground (arith, ==_iff i j)

pick_true : (l : Link) (o : Option Link) {b : Bool} → b ≡ true → (if b then some l else o) ≡ some l
pick_true l o e = rw e

pick_false : (l : Link) (o : Option Link) {b : Bool} → b ≡ false → (if b then some l else o) ≡ o
pick_false l o e = rw e

differ_false : {a b : Bytes} → bytes_eq a b ≡ false → a ≡ b → ⊥
differ_false {a} {b} e f = ground (arith, e, bytes_eq_iff a b, f)

some_link : {k l : Link} → some k ≡ some l → k ≡ l
some_link e = cc

-- `peer_of` tells whose link an id is: a link is made for one peer and keeps it.
module _ (peer_of : ℕ → Bytes) where
  -- Every link that the engine holds stands under the fingerprint of its peer and is open.
  unfoldable pub IsSound : Engine → Type 0
  IsSound r =
      (fp : Bytes) (l : Link)
      → lookup fp r.links ≡ some l
      → (l.peer_fp ≡ fp) × (peer_of l.id ≡ fp) × (is_shut l.id r.shut ≡ false)

  -- What the handlers change besides the links does not matter.
  pub IsSound-same : (r s : Engine) → s.links ≡ r.links → s.shut ≡ r.shut → IsSound r → IsSound s
  unfolding IsSound
  IsSound-same r s e f h = rw (e, f) h

  module _ (l : Link) (r : Engine) (known : peer_of l.id ≡ l.peer_fp) (h : IsSound r) where
    -- Whatever has the id of `l` is under its peer.
    apart : (fp : Bytes) (k : Link) → lookup fp r.links ≡ some k → fp ≢ l.peer_fp → k.id ≢ l.id
    unfolding IsSound
    apart fp k e ne same = ne (sym (h fp k e).1 ∙ ap peer_of same ∙ known)

    -- The links without the one of that peer, when `l` is closed.
    removed_shut : IsSound (close_link l (record r { links = remove l.peer_fp r.links }))
    unfolding IsSound close_link
    removed_shut fp k e =
        let ne : fp ≢ l.peer_fp =
          ground (arith, e, lookup-remove l.peer_fp fp r.links, bytes_eq_iff l.peer_fp fp) in
        let e' : lookup fp r.links ≡ some k =
          ground (arith, e, lookup-remove l.peer_fp fp r.links) in
        let (a, b, c) = h fp k e' in (a, b, is_shut_other k.id l.id r.shut (apart fp k e' ne) c)

    -- All the links, when `l` is closed and another link of that peer, or none, is held.
    others_shut :
        ((k : Link) → lookup l.peer_fp r.links ≡ some k → k.id ≢ l.id) → IsSound (close_link l r)
    unfolding IsSound close_link
    others_shut other fp k e =
        let (a, b, c) = h fp k e in
        (
          a,
          b,
          is_shut_other k.id l.id r.shut
              (λ same.
                other k (subst (λ x. lookup x r.links ≡ some k) (sym b ∙ ap peer_of same ∙ known) e)
                  same)
              c,
        )

    pub drop_link-IsSound : IsSound (drop_link l.peer_fp l r)
    drop_link-IsSound = elim (Option-cases (lookup l.peer_fp r.links)) [
      | inl absent ↦
          subst IsSound (sym (drop_absent l r absent)) (others_shut λ k e. absurd (clash absent e))
      | inr (held, e) ↦ elim (Bool-cases (held.id == l.id)) [
        | inl mine ↦ subst IsSound (sym (drop_mine l r held e mine)) removed_shut
        | inr other ↦ subst IsSound (sym (drop_other l r held e other)) (
            others_shut
              λ k e' same. different other (ap (λ x. x.id) (some_link (sym e ∙ e')) ∙ same))
      ]
    ]

    shut_close_old :
        (o : Option Link) (i : ℕ)
        → is_shut i r.shut ≡ false
        → ((old : Link) → o ≡ some old → old.id ≢ l.id → i ≢ old.id)
        → is_shut i (close_old o l r).shut ≡ false
    unfolding close_old close_link
    shut_close_old none i open_i other = open_i
    shut_close_old (some old) i open_i other = elim (Bool-cases (old.id == l.id)) [
      | inl same ↦ rw same open_i
      | inr differ ↦
          rw differ (is_shut_other i old.id r.shut (other old refl (different differ)) open_i)
    ]

    -- `l` comes under its peer, and nothing that is then held has been closed.
    inserted :
        (s : Engine)
        → s.links ≡ insert l.peer_fp l r.links
        → is_shut l.id s.shut ≡ false
        → ((fp : Bytes) (k : Link)
            → lookup fp r.links ≡ some k
            → fp ≢ l.peer_fp
            → is_shut k.id s.shut ≡ false)
        → IsSound s
    unfolding IsSound
    inserted s e mine others fp k held =
        let at : (if bytes_eq l.peer_fp fp then some l else lookup fp r.links) ≡ some k =
          sym (lookup-insert l.peer_fp fp l r.links) ∙ subst (λ m. lookup fp m ≡ some k) e held in
        elim (Bool-cases (bytes_eq l.peer_fp fp)) [
          | inl here ↦
              let same : l ≡ k = some_link (sym (pick_true _ _ here) ∙ at) in
              let path : l.peer_fp ≡ fp = (bytes_eq_iff l.peer_fp fp).0 here in
              subst (λ x. (x.peer_fp ≡ fp) × (peer_of x.id ≡ fp) × (is_shut x.id s.shut ≡ false))
                same (path, known ∙ path, mine)
          | inr there ↦
              let e' : lookup fp r.links ≡ some k = sym (pick_false _ _ there) ∙ at in
              let (a, b, c) = h fp k e' in (a, b, others fp k e' (λ q. differ_false there (sym q)))
        ]

    -- A link that replaces another, which is closed, or comes new.
    pub adopt-IsSound : (now : ℕ) → is_shut l.id r.shut ≡ false → IsSound (adopt now l r)
    unfolding adopt push IsSound
    adopt-IsSound now fresh =
        inserted (adopt now l r)
          (ap (insert l.peer_fp l) (close_old_links (lookup l.peer_fp r.links) l r))
          (shut_close_old (lookup l.peer_fp r.links) l.id fresh (λ old e ne. λ q. ne (sym q)))
          (λ fp k e ne.
            let (a, b, c) = h fp k e in
            shut_close_old (lookup l.peer_fp r.links) k.id c
              (λ old e' other same. ne (sym b ∙ ap peer_of same ∙ (h l.peer_fp old e').1)))

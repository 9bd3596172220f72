-- ===== src/FileTransfer/Order.antt =====
-- Chunks may arrive in any order: sorting them by distinct indices forgets it.
use mathlib.Core.List.{Perm, Permᴰ}
use mathlib.Core.Logic.{∥∥₁_elim}
use stunner.Base.{ℕ, suc, ◌<◌, ◌≤◌, ◌≡◌, ◌≢◌, refl, sym, ap, ap₂, subst, ◌∙◌, List, [], ◌∷◌, arith}
use stunner.Base.Bytes.{All}
use stunner.FileTransfer.{Chunk, insert_chunk, sort_chunks}

abbrev pub DistinctIndices : List Chunk → Type 0
DistinctIndices [] = Unit {0}
DistinctIndices (c ∷ cs) = All (λ d. c.index ≢ d.index) cs × DistinctIndices cs

insert_chunk_comm :
    (c d : Chunk) (cs : List Chunk)
    → c.index ≢ d.index
    → insert_chunk c (insert_chunk d cs) ≡ insert_chunk d (insert_chunk c cs)
unfolding insert_chunk
insert_chunk_comm c d [] ne = ground arith
insert_chunk_comm c d (x ∷ cs) ne = ground (arith, insert_chunk_comm c d cs)

-- The indices rise along the list, from `i` on.
abbrev pub RisesFrom : ℕ → List Chunk → Type 0
RisesFrom i [] = Unit {0}
RisesFrom i (c ∷ cs) = (i ≤ c.index) × RisesFrom (suc c.index) cs

insert_chunk_front :
    (c : Chunk) (cs : List Chunk) → RisesFrom (suc c.index) cs → insert_chunk c cs ≡ c ∷ cs
unfolding insert_chunk
insert_chunk_front c [] r = refl
insert_chunk_front c (d ∷ cs) r = ground arith

pub sort_chunks-RisesFrom : (i : ℕ) (cs : List Chunk) → RisesFrom i cs → sort_chunks cs ≡ cs
unfolding sort_chunks
sort_chunks-RisesFrom i [] r = refl
sort_chunks-RisesFrom i (c ∷ cs) r =
    ap (insert_chunk c) (sort_chunks-RisesFrom (suc c.index) cs r.1) ∙ insert_chunk_front c cs r.1

module _ {ℓ κ} {A : Type ℓ} (P : A → Type κ) where
  All-Permᴰ : {xs ys : List A} → Permᴰ xs ys → All P xs → All P ys
  All-Permᴰ Permᴰ.nil h = h
  All-Permᴰ (Permᴰ.cons e d) h = (subst P e h.0, All-Permᴰ d h.1)
  All-Permᴰ (Permᴰ.swap e₁ e₂) h = (subst P e₂ h.1.0, (subst P e₁ h.0, h.1.1))
  All-Permᴰ (Permᴰ.trans d₁ d₂) h = All-Permᴰ d₂ (All-Permᴰ d₁ h)

-- The chunks in which `c` may be swapped for an equal one.
distinct_swap :
    (a b a' b' : Chunk) (cs : List Chunk)
    → a ≡ b'
    → b ≡ a'
    → DistinctIndices (a ∷ b ∷ cs)
    → DistinctIndices (a' ∷ b' ∷ cs)
distinct_swap a b a' b' cs e f ((ne, na), (nb, d)) = (
  (
    subst (λ x. x.index ≢ b'.index) f (subst (λ x. b.index ≢ x.index) e (λ h. ne (sym h))),
    subst (λ x. All (λ c. x.index ≢ c.index) cs) f nb,
  ),
  (subst (λ x. All (λ c. x.index ≢ c.index) cs) e na, d),
)

sort_chunks-Permᴰ :
    {xs ys : List Chunk}
    → Permᴰ xs ys
    → DistinctIndices xs
    → DistinctIndices ys × (sort_chunks xs ≡ sort_chunks ys)
unfolding sort_chunks
sort_chunks-Permᴰ Permᴰ.nil h = (h, refl)
sort_chunks-Permᴰ (Permᴰ.cons {b = b} {l₂ = l₂} e d) (n, h) =
    let (h', s) = sort_chunks-Permᴰ d h in
    ((subst (λ x. All (λ c. x.index ≢ c.index) l₂) e (All-Permᴰ _ d n), h'), ap₂ insert_chunk e s)
sort_chunks-Permᴰ (Permᴰ.swap {a = a} {b = b} {a' = a'} {b' = b'} {l = l} e f) h = (
  distinct_swap a b a' b' l e f h,
  insert_chunk_comm a b (sort_chunks l) h.0.0
      ∙ ap₂ (λ x y. insert_chunk x (insert_chunk y (sort_chunks l))) f e,
)
sort_chunks-Permᴰ (Permᴰ.trans d₁ d₂) h =
    let (h', s) = sort_chunks-Permᴰ d₁ h in let (h'', s') = sort_chunks-Permᴰ d₂ h' in (h'', s ∙ s')

RisesFrom-All :
    (i : ℕ) (j : ℕ) (cs : List Chunk) → j < i → RisesFrom i cs → All (λ c. j ≢ c.index) cs
RisesFrom-All i j [] h r = tt
RisesFrom-All i j (c ∷ cs) h r =
    (omega (arith, r.0), RisesFrom-All (suc c.index) j cs (omega (arith, r.0)) r.1)

RisesFrom-DistinctIndices : (i : ℕ) (cs : List Chunk) → RisesFrom i cs → DistinctIndices cs
RisesFrom-DistinctIndices i [] r = tt
RisesFrom-DistinctIndices i (c ∷ cs) r = (
  RisesFrom-All (suc c.index) c.index cs (omega arith) r.1,
  RisesFrom-DistinctIndices (suc c.index) cs r.1,
)

chunks_set : IsSet (List Chunk)
chunks_set = hlevel

-- Whatever order rising chunks arrive in, sorting puts them back.
pub sort_chunks-perm :
    (cs shuffled : List Chunk) → RisesFrom 0 cs → Perm cs shuffled → sort_chunks shuffled ≡ cs
sort_chunks-perm cs shuffled r d = ∥∥₁_elim d (chunks_set _ _) λ e.
    sym (sort_chunks-Permᴰ e (RisesFrom-DistinctIndices 0 cs r)).1 ∙ sort_chunks-RisesFrom 0 cs r

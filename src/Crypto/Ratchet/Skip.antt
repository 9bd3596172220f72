-- ===== src/Crypto/Ratchet/Skip.antt =====
-- `skip`: its limit, what it stores and what it leaves alone.
use stunner.Base.{
  ℕ, zero, suc, ◌+◌, ◌-◌, ◌^◌, ◌<◌, ◌≤◌, ◌≡◌, ◌≢◌, refl, ◌∙◌, ◌⊎◌, inl, inr, none, some, arith, ltb,
  Option-cases, Bool-cases, length,
}
use stunner.Base.Bytes.{Bytes, All, IsByte}
use stunner.Base.Eq.{bytes_eq_iff, bytes_eq_instance}
use stunner.Base.Dict.{lookup, lookup-insert, length-insert}
use stunner.Base.Result.{too_many_skipped}
use stunner.Base.Method.{done, failed, state_of}
use stunner.Crypto.Primitives.{Primitives}
use stunner.Crypto.Ratchet.Keys.{skipped_key_injective}
use stunner.Crypto.Ratchet.{Ratchet, slice, skipped_key, skip_one, skip_loop, skip, chain_step}

-- `s` differs from `r` only in the receiving chain and in the map of skipped keys.
pub record Frame (r s : Ratchet) : Type 0 where
  pub dhs : s.dhs ≡ r.dhs
  pub dhr : s.dhr ≡ r.dhr
  pub rk : s.rk ≡ r.rk
  pub cks : s.cks ≡ r.cks
  pub ns : s.ns ≡ r.ns
  pub pn : s.pn ≡ r.pn
  pub ad : s.ad ≡ r.ad

pub Frame-refl : (r : Ratchet) → Frame r r
Frame-refl r = record {
  dhs = refl;
  dhr = refl;
  rk = refl;
  cks = refl;
  ns = refl;
  pn = refl;
  ad = refl;
}

module _ (p : Primitives) where
  skip_loop-Frame : (k : ℕ) (r : Ratchet) → Frame r (skip_loop p k r)
  unfolding skip_loop skip_one
  skip_loop-Frame zero r = Frame-refl r
  skip_loop-Frame (suc k) r =
      let f = skip_loop-Frame k (skip_one p r) in
      record { dhs = f.dhs; dhr = f.dhr; rk = f.rk; cks = f.cks; ns = f.ns; pn = f.pn; ad = f.ad }

  length-skip_loop : (k : ℕ) (r : Ratchet) → length (skip_loop p k r).skipped ≤ length r.skipped + k
  unfolding skip_loop skip_one
  length-skip_loop zero r = omega arith
  length-skip_loop (suc k) r = omega (
    arith,
    length-skip_loop k (skip_one p r),
    length-insert (skipped_key (slice r.dhr) r.nr) (chain_step p r.ckr).0 r.skipped,
  )

  nr-skip_loop : (k : ℕ) (r : Ratchet) → (skip_loop p k r).nr ≡ r.nr + k
  unfolding skip_loop skip_one
  nr-skip_loop zero r = omega arith
  nr-skip_loop (suc k) r = omega (arith, nr-skip_loop k (skip_one p r))

  pub skip-Frame : (until : ℕ) (r : Ratchet) → Frame r (state_of (skip p until r))
  unfolding skip
  skip-Frame until r = ground (arith, skip_loop-Frame (until - r.nr) r, Frame-refl r)

  -- With a receiving chain whose counter is 1000 short of 2^32, `skip` fails exactly if the
  -- counter asked for lies more than `maxSkip` ahead, and then changes nothing; otherwise it
  -- stores at most `maxSkip` keys and the chain stands at the counter asked for, or beyond it
  -- where it was already.
  pub skip_bounded :
      (until : ℕ) (r : Ratchet)
      → r.ckr ≢ none
      → r.nr + 1000 < 2 ^ 32
      → ((r.nr + 1000 < until) × (skip p until r ≡ failed too_many_skipped r))
        ⊎ ((s : Ratchet) × (skip p until r ≡ done tt s)
            × (until ≤ r.nr + 1000)
            × (until ≤ s.nr)
            × (s.nr ≤ r.nr + 1000)
            × (length s.skipped ≤ length r.skipped + 1000))
  unfolding skip
  skip_bounded until r h room = elim (Option-cases r.ckr) [
    | inl nil ↦ absurd (h nil)
    | inr (ck, e) ↦ elim (Bool-cases (ltb (r.nr + 1000) until)) [
      | inl far ↦ inl (ground arith, rw (e, skip) (ground arith))
      | inr near ↦
          let n = nr-skip_loop (until - r.nr) r in
          inr (
            skip_loop p (until - r.nr) r,
            rw (e, skip) (ground arith),
            ground arith,
            omega arith,
            ground arith,
            ground (arith, length-skip_loop (until - r.nr) r),
          )
    ]
  ]

  -- Keys stored under another ratchet key are not touched.
  lookup-skip_loop :
      (k : ℕ) (r : Ratchet) (dh old : Bytes) (i : ℕ)
      → All IsByte dh
      → All IsByte old
      → r.dhr ≡ some old
      → old ≢ dh
      → i < 2 ^ 32
      → r.nr + k < 2 ^ 32
      → lookup (skipped_key dh i) (skip_loop p k r).skipped ≡ lookup (skipped_key dh i) r.skipped
  unfolding skip_loop skip_one
  lookup-skip_loop zero r dh old i bd bo e ne hi room = refl
  lookup-skip_loop (suc k) r dh old i bd bo e ne hi room =
      lookup-skip_loop k (skip_one p r) dh old i bd bo e ne hi (omega arith)
      ∙ rw (lookup-insert, e)
          (ground (
            arith,
            bytes_eq_iff (skipped_key old r.nr) (skipped_key dh i),
            skipped_key_injective old dh r.nr i bo bd (omega arith) hi,
          ))

  -- The chain before is closed within the limit, and nothing is stored for the new ratchet key.
  pub skip_old_chain :
      (until : ℕ) (r : Ratchet) (dh old : Bytes)
      → All IsByte dh
      → All IsByte old
      → r.dhr ≡ some old
      → old ≢ dh
      → until ≤ r.nr + 1000
      → r.nr + 1000 < 2 ^ 32
      → ((i : ℕ) → i < 2 ^ 32 → lookup (skipped_key dh i) r.skipped ≡ none)
      → (s : Ratchet) × (skip p until r ≡ done tt s)
        × Frame r s
        × ((i : ℕ) → i < 2 ^ 32 → lookup (skipped_key dh i) s.skipped ≡ none)
  unfolding skip skip_loop
  skip_old_chain until r dh old bd bo e ne near room new = elim (Option-cases r.ckr) [
    | inl nil ↦ (r, ground arith, Frame-refl r, new)
    | inr (ck, k) ↦ (
      skip_loop p (until - r.nr) r,
      rw (k, skip) (ground arith),
      skip_loop-Frame (until - r.nr) r,
      λ i hi. lookup-skip_loop (until - r.nr) r dh old i bd bo e ne hi (omega arith) ∙ new i hi,
    )
  ]

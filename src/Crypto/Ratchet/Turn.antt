-- ===== src/Crypto/Ratchet/Turn.antt =====
-- The Diffie-Hellman step: the first message of a new chain turns the receiver's ratchet over, and
-- the receiver is then the one that is ahead.
use stunner.Base.{
  ℕ, ◌+◌, ◌^◌, ◌<◌, ◌≤◌, ◌≡◌, ◌≢◌, refl, sym, ap, subst, ◌∙◌, true, false, none, some, arith,
  length, ◌⊎◌, inl, inr,
}
use stunner.Base.Bytes.{Bytes, All, IsByte}
use stunner.Base.Eq.{bytes_eq_iff, bytes_eq_instance}
use stunner.Base.Dict.{lookup}
use stunner.Base.Result.{ok}
use stunner.Base.Method.{done, state_of, >>=-done}
use stunner.Crypto.Primitives.{Primitives, Codec}
use stunner.Crypto.Ratchet.Chain.{Chain, Sends, chain_key, header_at, ciphertext_at, message_at}
use stunner.Crypto.Ratchet.Delivery.{
  Receives, mark, skip-Receives, open_next-Receives, decrypt_unskipped,
}
use stunner.Crypto.Ratchet.Skip.{Frame, Frame-refl, skip-Frame, skip_old_chain}
use stunner.Crypto.Ratchet.{
  Ratchet, WireMessage, skipped_key, is_new_dh, kdf_root, dh, turn_over, set_receiving, set_sending,
  dh_ratchet, skip, follow_ratchet, decrypt, open_next, advance_receiving,
}

-- `r` has never seen the ratchet key `dh`, and the chain that it received on before, if any, is
-- within the limit of the length `pn` that the sender gave it.
abbrev pub IsNewTo : Bytes → ℕ → Ratchet → Type 0
IsNewTo dh pn r =
    ((r.dhr ≡ none) × (r.ckr ≡ none)
      ⊎ ((old : Bytes) × All IsByte old
          × (r.dhr ≡ some old)
          × (old ≢ dh)
          × (pn ≤ r.nr + 1000)
          × (r.nr + 1000 < 2 ^ 32)))
    × ((i : ℕ) → i < 2 ^ 32 → lookup (skipped_key dh i) r.skipped ≡ none)

module _ (p : Primitives) where
  -- `a` sends on the chain `ch` that it derived from `b`'s ratchet key and root key.
  pub record Ahead (ch : Chain) (a b : Ratchet) : Type 0 where
    pub length_a : length a.dhs ≡ 32
    pub length_b : length b.dhs ≡ 32
    pub key : p.public a.dhs ≡ ch.dh
    pub remote : a.dhr ≡ some (p.public b.dhs)
    pub out : Bytes
    pub shared : p.ecdh a.dhs (p.public b.dhs) ≡ some out
    pub root : a.rk ≡ (kdf_root p b.rk out).0
    pub start : ch.start ≡ (kdf_root p b.rk out).1
    pub data_a : a.ad ≡ ch.ad
    pub data_b : b.ad ≡ ch.ad

  pub dh_lem :
      (r : Ratchet) (remote out : Bytes)
      → length remote ≡ 32
      → p.ecdh r.dhs remote ≡ some out
      → dh p r remote ≡ ok out
  unfolding dh
  dh_lem r remote out n e = rw (n, e)

  -- The state after `dhRatchet`.
  turned : Bytes → Bytes → Bytes → Bytes → Ratchet → Ratchet
  turned k remote out out' r =
      set_sending p out' (record (set_receiving p out (turn_over p (some remote) r)) { dhs = k })

  dh_ratchet_lem :
      (k remote out out' : Bytes) (r : Ratchet)
      → length remote ≡ 32
      → p.ecdh r.dhs remote ≡ some out
      → p.ecdh k remote ≡ some out'
      → dh_ratchet p (ok k) (some remote) r ≡ done tt (turned k remote out out' r)
  unfolding dh_ratchet turned turn_over set_receiving dh
  dh_ratchet_lem k remote out out' r n e e' = ground arith

  -- The chain on which a ratchet that has just turned sends.
  unfoldable pub chain_of : Ratchet → Bytes → Chain
  chain_of r start = record { dh = p.public r.dhs; pn = r.pn; ad = r.ad; start = start }

module _ (p : Primitives) (c : Codec WireMessage) (ch : Chain) where
  -- The chain before is closed.
  close_old :
      (b : Ratchet)
      → All IsByte ch.dh
      → IsNewTo ch.dh ch.pn b
      → (is_new_dh b.dhr ch.dh ≡ true)
        × ((s : Ratchet) × (skip p ch.pn b ≡ done tt s)
            × Frame b s
            × ((i : ℕ) → i < 2 ^ 32 → lookup (skipped_key ch.dh i) s.skipped ≡ none))
  unfolding is_new_dh skip
  close_old b bytes (inl (e, k), new) = (ground arith, (b, ground arith, Frame-refl b, new))
  close_old b bytes (inr (old, bo, e, ne, near, room), new) = (
    rw e (ground (arith, bytes_eq_iff ch.dh old)),
    skip_old_chain p ch.pn b ch.dh old bytes bo e ne near room new,
  )

  follow_ratchet_turns :
      (k out' : Bytes) (i : ℕ) (a b : Ratchet)
      → All IsByte ch.dh
      → Ahead p ch a b
      → IsNewTo ch.dh ch.pn b
      → p.ecdh k ch.dh ≡ some out'
      → (s : Ratchet) × (follow_ratchet p c (ok k) (header_at p ch i) b ≡ done tt s)
        × Receives p ch (λ _. false) s
        × (s.nr ≡ 0)
        × (s.dhs ≡ k)
        × (s.rk ≡ (kdf_root p a.rk out').0)
        × (s.cks ≡ some (kdf_root p a.rk out').1)
        × (s.ns ≡ 0)
        × (s.ad ≡ ch.ad)
  unfolding follow_ratchet header_at
  follow_ratchet_turns k out' i a b bytes v new e' =
      let (isnew, (s, closed, f, none_stored)) = close_old b bytes new in
      let step = dh_ratchet_lem p k ch.dh v.out out' s dh_length (rw f.dhs shared) e' in
      (
        turned p k ch.dh v.out out' s,
        rw isnew (>>=-done (skip p ch.pn) (λ _. dh_ratchet p (ok k) (some ch.dh)) closed ∙ step),
        unfold turned turn_over set_receiving set_sending in
            record {
              key = unfold chain_key in ap some (rw f.rk (sym v.start));
              remote = refl;
              data_bound = f.ad ∙ v.data_b;
              pending = λ j hj _. rw (none_stored j hj) (ground arith);
            },
        unfold turned turn_over set_receiving set_sending in refl,
        unfold turned turn_over set_receiving set_sending in refl,
        unfold turned turn_over set_receiving set_sending in rw (f.rk, v.root),
        unfold turned turn_over set_receiving set_sending in rw (f.rk, v.root),
        unfold turned turn_over set_receiving set_sending in refl,
        unfold turned turn_over set_receiving set_sending in (f.ad ∙ v.data_b),
      )
    where
      dh_length : length ch.dh ≡ 32
      dh_length = rw (← v.key) (p.length-public a.dhs)

      shared : p.ecdh b.dhs ch.dh ≡ some v.out
      shared = rw (← v.key) (sym (p.ecdh_comm a.dhs b.dhs v.length_a v.length_b) ∙ v.shared)

-- The receiver after the step: what it needs to be the one that is ahead.
record Turned (p : Primitives) (k out' : Bytes) (a s : Ratchet) : Type 0 where
  dhs : s.dhs ≡ k
  dhr : s.dhr ≡ some (p.public a.dhs)
  rk : s.rk ≡ (kdf_root p a.rk out').0
  cks : s.cks ≡ some (kdf_root p a.rk out').1
  ns : s.ns ≡ 0
  ad : s.ad ≡ a.ad

module _ (p : Primitives) (k out' : Bytes) (a s : Ratchet) where
  Turned-Ahead :
      Turned p k out' a s
      → length k ≡ 32
      → length a.dhs ≡ 32
      → p.ecdh k (p.public a.dhs) ≡ some out'
      → Ahead p (chain_of p s (kdf_root p a.rk out').1) s a
  unfolding chain_of
  Turned-Ahead t n n' e = record {
    length_a = rw t.dhs n;
    length_b = n';
    key = refl;
    remote = t.dhr;
    out = out';
    shared = rw t.dhs e;
    root = t.rk;
    start = refl;
    data_a = refl;
    data_b = sym t.ad;
  }

  Turned-Sends : Turned p k out' a s → Sends p (chain_of p s (kdf_root p a.rk out').1) 0 s
  unfolding chain_of chain_key
  Turned-Sends t = record {
    key = t.cks;
    count = t.ns;
    public = refl;
    previous = refl;
    data_bound = refl;
  }

-- A Diffie-Hellman step. `a` has derived a sending chain from `b`'s current ratchet key and root
-- key, with the same associated data, and the ratchet private keys of both have 32 bytes; `b` has
-- not seen the chain's ratchet key yet and has no skipped key stored under it, its chain before is
-- closed within the limit, and the agreement of `b`'s fresh key of 32 bytes with that ratchet key
-- succeeds. Then any of the first 1001 messages of the chain, whichever arrives first, is decrypted
-- by `b`; `b` is from then on ready for every other message of that chain, sends on a fresh chain of
-- its own, is in turn the one that is ahead of `a`, and expects the counter after that message.
pub decrypt_turns :
    (p : Primitives) (c : Codec WireMessage) (ch : Chain) (k out' : Bytes) (i : ℕ) (m : Bytes)
    (a b : Ratchet)
    → All IsByte ch.dh
    → length k ≡ 32
    → p.ecdh k ch.dh ≡ some out'
    → i ≤ 1000
    → Ahead p ch a b
    → IsNewTo ch.dh ch.pn b
    → (b' : Ratchet) × (decrypt p c (ok k) (message_at p c ch i m) b ≡ done m b')
      × Receives p ch (mark i (λ _. false)) b'
      × Ahead p (chain_of p b' (kdf_root p a.rk out').1) b' a
      × Sends p (chain_of p b' (kdf_root p a.rk out').1) 0 b'
      × (b'.nr ≡ i + 1)
unfolding message_at header_at
decrypt_turns p c ch k out' i m a b bytes n e' le v new =
    let (s, turn, recv, nr, dhs, rk, cks, ns, ad) =
      follow_ratchet_turns p c ch k out' i a b bytes v new e' in
    let (t, skips, w, at) = skip-Receives p ch bytes i s (omega arith) (omega arith) recv in
    let f = subst (Frame s) (ap state_of skips) (skip-Frame p i s) in
    let (o, x, count) = open_next-Receives p c ch bytes (λ _. false) m t (omega arith) w in
    let here : t.nr ≡ i = omega arith in
    let turned_t : Turned p k out' a (advance_receiving p c t) =
      unfold advance_receiving in
      record {
        dhs = f.dhs ∙ dhs;
        dhr = w.remote ∙ ap some (sym v.key);
        rk = f.rk ∙ rk;
        cks = f.cks ∙ cks;
        ns = f.ns ∙ ns;
        ad = w.data_bound ∙ sym v.data_a;
      } in
    (
      advance_receiving p c t,
      decrypt_unskipped p c (ok k) (header_at p ch i) (ciphertext_at p ch i m) b
            (new.1 i (omega arith)) turn skips
          ∙ subst
              (λ j.
                open_next p c (header_at p ch j) (ciphertext_at p ch j m) t
                ≡ done m (advance_receiving p c t))
              here o,
      subst (λ j. Receives p ch (mark j (λ _. false)) (advance_receiving p c t)) here x,
      Turned-Ahead p k out' a _ turned_t n v.length_a (rw v.key e'),
      Turned-Sends p k out' a _ turned_t,
      omega arith,
    )

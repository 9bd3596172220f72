-- ===== src/Runtime/Linked.antt =====
-- What a whole turn of deliver, listenLoop or runDiagnose leaves of the links that are held.
use stunner.Base.{
  ℕ, zero, suc, ◌≡◌, refl, sym, ap, subst, ◌∙◌, Bool, true, false, Option, none, some, [],
  if◌then◌else◌, ◌⊎◌, inl, inr,
}
use stunner.Base.Bytes.{Bytes}
use stunner.Base.Eq.{bytes_eq_instance}
use stunner.Base.Dict.{lookup}
use stunner.Runtime.{Link, Engine, push, get_link, drop_link, adopt}
use stunner.Runtime.Deliver.{
  Outgoing, Prepared, prepared, unprepared, connect_attempts, Request, Attempt, Connected, link_up,
  link_fault, Turn, Dialed, stopped, gave_up, dialed, attempted, dial, after_send, after_check,
  transmit, after_dial, with_link, with_peer, deliver,
}
use stunner.Runtime.Turns.{
  after_listen, listen_round, push_diag, after_connect, find_peer, run_diagnose,
}
use stunner.Runtime.Links.{is_shut, IsSound, IsSound-same, drop_link-IsSound, adopt-IsSound}

same_dialed : {k l : Link} → dialed k ≡ dialed l → k ≡ l
same_dialed e = cc

not_stopped : {l : Link} → stopped ≡ dialed l → ⊥
not_stopped e = cc

not_given_up : {b : Bytes} {l : Link} → gave_up b ≡ dialed l → ⊥
not_given_up e = cc

unstopped :
    (b : Bool) (d : Dialed) (l : Link) → (if b then stopped else d) ≡ dialed l → d ≡ dialed l
unstopped true d l e = absurd (not_stopped e)
unstopped false d l e = e

attempted_dialed :
    (c : Connected) (b : Bool) (rest : Bytes → Dialed) (l : Link)
    → attempted c b rest ≡ dialed l
    → (c ≡ link_up l) ⊎ ((e : Bytes) × (rest e ≡ dialed l))
unfolding attempted
attempted_dialed (link_up k) b rest l e = inl (ap link_up (same_dialed e))
attempted_dialed (link_fault t) true rest l e = absurd (not_stopped e)
attempted_dialed (link_fault t) false rest l e = inr (t, e)

-- The link that the attempts end with is one that Connect returned.
dial_dialed :
    (left i : ℕ) (last : Bytes) (f : ℕ → Attempt) (l : Link)
    → dial left i last f ≡ dialed l
    → (j : ℕ) × ((f j).result ≡ link_up l)
unfolding dial
dial_dialed zero i last f l e = absurd (not_given_up e)
dial_dialed (suc left) i last f l e =
    let again : Bytes → Dialed = λ x. dial left (suc i) x f in
    elim (attempted_dialed (f i).result (f i).closed_after again l
      (unstopped (f i).closed_before (attempted (f i).result (f i).closed_after again) l e)) [
        | inl found ↦ (i, found)
        | inr (x, later) ↦ dial_dialed left (suc i) x f l later
      ]

module _ (peer_of : ℕ → Bytes) where
  -- A link of the peer at `fp`.
  abbrev Fits : Bytes → Link → Type 0
  Fits fp l = (l.peer_fp ≡ fp) × (peer_of l.id ≡ l.peer_fp)

  drop-IsSound :
      (fp : Bytes) (l : Link) (r : Engine)
      → Fits fp l
      → IsSound peer_of r
      → IsSound peer_of (drop_link fp l r)
  drop-IsSound fp l r (e, known) h =
      subst (λ x. IsSound peer_of (drop_link x l r)) e (drop_link-IsSound peer_of l r known h)

  module _ (now : ℕ) (req : Request) (t : Turn) (fp : Bytes) where
    after_send-IsSound :
        (l : Link) (o : Option Bytes) (r : Engine)
        → Fits fp l
        → IsSound peer_of r
        → IsSound peer_of (after_send now req fp l o r)
    unfolding after_send push
    after_send-IsSound l none r fits h = IsSound-same peer_of r _ refl refl h
    after_send-IsSound l (some e) r fits h =
        IsSound-same peer_of (drop_link fp l r) _ refl refl (drop-IsSound fp l r fits h)

    after_check-IsSound :
        (f : Link → Outgoing → Option Bytes) (l : Link) (o : Prepared) (r : Engine)
        → Fits fp l
        → IsSound peer_of r
        → IsSound peer_of (after_check now req f fp l o r)
    unfolding after_check push
    after_check-IsSound f l (prepared x) r fits h = after_send-IsSound l (f l x) r fits h
    after_check-IsSound f l (unprepared e) r fits h = IsSound-same peer_of r _ refl refl h

    transmit-IsSound :
        (l : Link) (r : Engine)
        → Fits fp l
        → IsSound peer_of r
        → IsSound peer_of (transmit now req t fp l r)
    unfolding transmit
    transmit-IsSound l r fits h = after_check-IsSound t.send_fault l _ r fits h

    module _ (r : Engine) (h : IsSound peer_of r) where
      after_dial-IsSound :
          (d : Dialed)
          → ((l : Link) → d ≡ dialed l → Fits fp l × (is_shut l.id r.shut ≡ false))
          → IsSound peer_of (after_dial now req t fp d r)
      unfolding after_dial push
      after_dial-IsSound stopped new = h
      after_dial-IsSound (gave_up e) new = IsSound-same peer_of r _ refl refl h
      after_dial-IsSound (dialed l) new =
          let (fits, fresh) = new l refl in
          transmit-IsSound l (adopt now l r) fits (adopt-IsSound peer_of l r fits.1 h now fresh)

      with_link-IsSound :
          (o : Option Link)
          → lookup fp r.links ≡ o
          → ((l : Link) (j : ℕ)
              → (t.attempts j).result ≡ link_up l
              → Fits fp l × (is_shut l.id r.shut ≡ false))
          → IsSound peer_of (with_link now req t fp o r)
      unfolding with_link IsSound
      with_link-IsSound (some l) held new =
          let (a, b, c) = h fp l held in transmit-IsSound l r (a, b ∙ sym a) h
      with_link-IsSound none held new =
          after_dial-IsSound (dial connect_attempts 0 [] t.attempts) λ l e.
            let (j, found) = dial_dialed connect_attempts 0 [] t.attempts l e in new l j found

  -- A link that Connect or Listen returns is open, and belongs to the peer that it names.
  abbrev pub IsNew : Link → Engine → Type 0
  IsNew l r = (peer_of l.id ≡ l.peer_fp) × (is_shut l.id r.shut ≡ false)

  module _ (now : ℕ) (req : Request) (t : Turn) (r : Engine) (h : IsSound peer_of r)
      (new : (fp : Bytes) (l : Link) (j : ℕ)
        → t.parsed ≡ some fp
        → (t.attempts j).result ≡ link_up l
        → (l.peer_fp ≡ fp) × IsNew l r) where
    with_peer-IsSound :
        (o : Option Bytes) → t.parsed ≡ o → IsSound peer_of (with_peer now req t o r)
    unfolding with_peer push get_link
    with_peer-IsSound none e = IsSound-same peer_of r _ refl refl h
    with_peer-IsSound (some fp) e =
        with_link-IsSound now req t fp r h (lookup fp r.links) refl
          λ l j f. let (a, (b, c)) = new fp l j e f in ((a, b), c)

    pub deliver-IsSound : IsSound peer_of (deliver now req t r)
    unfolding deliver
    deliver-IsSound = with_peer-IsSound t.parsed refl

  module _ (c : Connected) (r : Engine) (h : IsSound peer_of r)
      (new : (l : Link) → c ≡ link_up l → IsNew l r) where
    adopted : (l : Link) (now : ℕ) → c ≡ link_up l → IsSound peer_of (adopt now l r)
    adopted l now e = let (known, fresh) = new l e in adopt-IsSound peer_of l r known h now fresh

  pub listen_round-IsSound :
      (now : ℕ) (before closed : Bool) (c : Connected) (r : Engine)
      → IsSound peer_of r
      → ((l : Link) → c ≡ link_up l → IsNew l r)
      → IsSound peer_of (listen_round now before closed c r).1
  unfolding listen_round after_listen push
  listen_round-IsSound now true closed c r h new = h
  listen_round-IsSound now false closed (link_up l) r h new = adopted (link_up l) r h new l now refl
  listen_round-IsSound now false true (link_fault e) r h new = h
  listen_round-IsSound now false false (link_fault e) r h new = IsSound-same peer_of r _ refl refl h

  find_peer-IsSound :
      (now : ℕ) (uri fp : Bytes) (found : Bool) (c : Connected) (o : Option Link) (r : Engine)
      → IsSound peer_of r
      → ((l : Link) → c ≡ link_up l → IsNew l r)
      → IsSound peer_of (find_peer now uri fp found c o r)
  unfolding find_peer after_connect push_diag push
  find_peer-IsSound now u fp found c (some l) r h new = IsSound-same peer_of r _ refl refl h
  find_peer-IsSound now u fp false c none r h new = IsSound-same peer_of r _ refl refl h
  find_peer-IsSound now u fp true (link_fault e) none r h new = IsSound-same peer_of r _ refl refl h
  find_peer-IsSound now u fp true (link_up l) none r h new =
      IsSound-same peer_of (adopt now l r) _ refl refl (adopted (link_up l) r h new l now refl)

  pub run_diagnose-IsSound :
      (now : ℕ) (uri : Bytes) (fp : Option Bytes) (found : Bool) (c : Connected) (r : Engine)
      → IsSound peer_of r
      → ((l : Link) → c ≡ link_up l → IsNew l r)
      → IsSound peer_of (run_diagnose now uri fp found c r)
  unfolding run_diagnose push_diag push
  run_diagnose-IsSound now u none found c r h new = IsSound-same peer_of r _ refl refl h
  run_diagnose-IsSound now u (some fp) found c r h new =
      find_peer-IsSound now u fp found c (get_link fp r) r h new

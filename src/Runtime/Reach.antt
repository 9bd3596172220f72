-- ===== src/Runtime/Reach.antt =====
-- Everything that happens to the engine, as steps, and what holds in every state it can reach.
use stunner.Base.{
  ℕ, ◌≡◌, refl, sym, subst, Bool, true, false, Option, none, some, [], Bool-cases, inl, inr, arith,
}
use stunner.Base.Bytes.{Bytes}
use stunner.Base.Eq.{bytes_eq_instance}
use stunner.Base.Dict.{lookup}
use stunner.Runtime.{
  Event, Link, Engine, push, poll, set_last_inbound, send_receipt, drop_link, adopt, Incoming,
  broken, text_message, file_message, typing_message, receipt_message, other_message, saved_at,
  save_fault, recv_file, recv_round, mark_read, stop,
}
use stunner.Runtime.Links.{is_shut, IsSound, IsSound-same, drop_link-IsSound, adopt-IsSound}
use stunner.Runtime.Deliver.{Request, Turn, Connected, link_up, deliver}
use stunner.Runtime.Turns.{listen_round, run_diagnose}
use stunner.Runtime.Linked.{IsNew, deliver-IsSound, listen_round-IsSound, run_diagnose-IsSound}

no_link : {l : Link} → none ≡ some l → ⊥
no_link e = cc

module _ (peer_of : ℕ → Bytes) where
  -- One step: a whole turn of `deliver`, `listenLoop` or `runDiagnose`, where Connect returns a link
  -- to the peer that it is asked for; the parts of such a turn, between which others may run; what a
  -- reader does with what its link received; and the calls of the app.
  pub data Step : Engine → Engine → Type 0 where
    adopts :
        (now : ℕ) (l : Link) (r : Engine)
        → peer_of l.id ≡ l.peer_fp
        → is_shut l.id r.shut ≡ false
        → Step r (adopt now l r)
    reads :
        (now : ℕ) (l : Link) (i : Incoming) (r : Engine)
        → peer_of l.id ≡ l.peer_fp
        → Step r (recv_round now l i r).1
    drops : (l : Link) (r : Engine) → peer_of l.id ≡ l.peer_fp → Step r (drop_link l.peer_fp l r)
    delivers :
        (now : ℕ) (req : Request) (t : Turn) (r : Engine)
        → ((fp : Bytes) (l : Link) (j : ℕ)
            → t.parsed ≡ some fp
            → (t.attempts j).result ≡ link_up l
            → (l.peer_fp ≡ fp) × IsNew peer_of l r)
        → Step r (deliver now req t r)
    listens :
        (now : ℕ) (before closed : Bool) (c : Connected) (r : Engine)
        → ((l : Link) → c ≡ link_up l → IsNew peer_of l r)
        → Step r (listen_round now before closed c r).1
    diagnoses :
        (now : ℕ) (uri : Bytes) (fp : Option Bytes) (found : Bool) (c : Connected) (r : Engine)
        → ((l : Link) → c ≡ link_up l → IsNew peer_of l r)
        → Step r (run_diagnose now uri fp found c r)
    reports : (now : ℕ) (e : Event) (r : Engine) → Step r (push now e r)
    polls : (r : Engine) → Step r (poll r).1
    marks : (fp : Option Bytes) (r : Engine) → Step r (mark_read fp r)
    stops : (r : Engine) → Step r (stop r)

  pub data Reach (r : Engine) : Engine → Type 0 where
    here : Reach r r
    next : {s t : Engine} → Reach r s → Step s t → Reach r t

  recv_round-IsSound :
      (now : ℕ) (l : Link) (i : Incoming) (r : Engine)
      → peer_of l.id ≡ l.peer_fp
      → IsSound peer_of r
      → IsSound peer_of (recv_round now l i r).1
  unfolding recv_round recv_file push send_receipt set_last_inbound
  recv_round-IsSound now l broken r known h =
      IsSound-same peer_of (drop_link l.peer_fp l r) _ refl refl
        (drop_link-IsSound peer_of l r known h)
  recv_round-IsSound now l (text_message m t) r known h = IsSound-same peer_of r _ refl refl h
  recv_round-IsSound now l (file_message m n t (some e) b s) r known h =
      IsSound-same peer_of r _ refl refl h
  recv_round-IsSound now l (file_message m n t none (some e) s) r known h =
      IsSound-same peer_of r _ refl refl h
  recv_round-IsSound now l (file_message m n t none none (saved_at p)) r known h =
      IsSound-same peer_of r _ refl refl h
  recv_round-IsSound now l (file_message m n t none none (save_fault e)) r known h =
      IsSound-same peer_of r _ refl refl h
  recv_round-IsSound now l typing_message r known h = IsSound-same peer_of r _ refl refl h
  recv_round-IsSound now l (receipt_message none) r known h = h
  recv_round-IsSound now l (receipt_message (some (ref, state))) r known h =
      IsSound-same peer_of r _ refl refl h
  recv_round-IsSound now l other_message r known h = h

  empty-IsSound : (r : Engine) → r.links ≡ [] → IsSound peer_of r
  unfolding IsSound lookup
  empty-IsSound r none_held fp l e =
      absurd (no_link (subst (λ m. lookup fp m ≡ some l) none_held e))

  mark_read-same :
      (fp : Option Bytes) (r : Engine)
      → ((mark_read fp r).links ≡ r.links) × ((mark_read fp r).shut ≡ r.shut)
  unfolding mark_read send_receipt
  mark_read-same none r = (refl, refl)
  mark_read-same (some fp) r = (ground arith, ground arith)

  stop_again : (r : Engine) → r.closed ≡ true → stop r ≡ r
  unfolding stop
  stop_again r e = rw e

  stop_empties : (r : Engine) → r.closed ≡ false → (stop r).links ≡ []
  unfolding stop
  stop_empties r e = ground (arith, e)

  stop-IsSound : (r : Engine) → IsSound peer_of r → IsSound peer_of (stop r)
  stop-IsSound r h = elim (Bool-cases r.closed) [
    | inl again ↦ subst (IsSound peer_of) (sym (stop_again r again)) h
    | inr first ↦ empty-IsSound (stop r) (stop_empties r first)
  ]

  Step-IsSound : {r s : Engine} → Step r s → IsSound peer_of r → IsSound peer_of s
  unfolding push poll
  Step-IsSound (adopts now l r known fresh) h = adopt-IsSound peer_of l r known h now fresh
  Step-IsSound (reads now l i r known) h = recv_round-IsSound now l i r known h
  Step-IsSound (drops l r known) h = drop_link-IsSound peer_of l r known h
  Step-IsSound (delivers now req t r new) h = deliver-IsSound peer_of now req t r h new
  Step-IsSound (listens now b closed c r new) h =
      listen_round-IsSound peer_of now b closed c r h new
  Step-IsSound (diagnoses now u fp found c r new) h =
      run_diagnose-IsSound peer_of now u fp found c r h new
  Step-IsSound (reports now e r) h = IsSound-same peer_of r _ refl refl h
  Step-IsSound (polls r) h = IsSound-same peer_of r _ refl refl h
  Step-IsSound (marks fp r) h = let (e, f) = mark_read-same fp r in IsSound-same peer_of r _ e f h
  Step-IsSound (stops r) h = stop-IsSound r h

  -- In every state that the engine reaches by its handlers, where every link belongs to one peer, a
  -- link that is adopted is open, and the links that `deliver` gets are of the peer in its contact
  -- URI, each link that the engine holds is open and stands under the fingerprint of its peer,
  -- provided that this holds in the first state.
  pub Reach-IsSound : {r s : Engine} → Reach r s → IsSound peer_of r → IsSound peer_of s
  Reach-IsSound here h = h
  Reach-IsSound (next path step) h = Step-IsSound step (Reach-IsSound path h)

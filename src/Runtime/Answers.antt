-- ===== src/Runtime/Answers.antt =====
-- Each request of the outbox is answered once.
use stunner.Base.{
  ℕ, zero, suc, ◌≡◌, ◌≢◌, refl, ap, ◌∙◌, Bool, true, false, Option, none, some, List, [], ◌∷◌, ◌++◌,
  arith, if◌then◌else◌,
}
use stunner.Base.Bytes.{Bytes, codes}
use stunner.Base.Eq.{bytes_eq_instance}
use stunner.Base.Dict.{lookup}
use stunner.Runtime.{
  Kind, sent, send_failed, Event, event, Link, Engine, push, get_link, close_link, close_old,
  drop_link, adopt,
}
use stunner.Runtime.Deliver.{
  Outgoing, Prepared, prepared, unprepared, connect_attempts, Request, Attempt, link_up, link_fault,
  Turn, Dialed, stopped, gave_up, dialed, Connected, attempted, dial, answer, after_send,
  after_check, transmit, after_dial, with_link, with_peer, deliver,
}

-- The kinds with which `deliver` answers a request.
unfoldable pub is_answer : Kind → Bool
is_answer sent = true
is_answer send_failed = true
is_answer _ = false

unfoldable pub answers : List Event → List Event
answers [] = []
answers (e ∷ es) = let rest = answers es in if is_answer e.kind then e ∷ rest else rest

answers-append :
    (es : List Event) (e : Event)
    → answers (es ++ e ∷ []) ≡ answers es ++ (if is_answer e.kind then e ∷ [] else [])
unfolding answers
answers-append [] e = refl
answers-append (d ∷ es) e = ground (arith, answers-append es e)

append_nil : (xs : List Event) → xs ++ [] ≡ xs
append_nil [] = refl
append_nil (x ∷ xs) = ap (λ l. x ∷ l) (append_nil xs)

events-close_old : (o : Option Link) (l : Link) (r : Engine) → (close_old o l r).events ≡ r.events
unfolding close_old close_link
events-close_old none l r = refl
events-close_old (some old) l r = ground arith

events-drop_link : (fp : Bytes) (l : Link) (r : Engine) → (drop_link fp l r).events ≡ r.events
unfolding drop_link close_link
events-drop_link fp l r = ground arith

answers-adopt :
    (now : ℕ) (l : Link) (r : Engine) → answers (adopt now l r).events ≡ answers r.events
unfolding adopt push event is_answer
answers-adopt now l r =
    answers-append (close_old (lookup l.peer_fp r.links) l r).events _
    ∙ append_nil (answers (close_old (lookup l.peer_fp r.links) l r).events)
    ∙ ap answers (events-close_old (lookup l.peer_fp r.links) l r)

-- The events of `s` are those of `r` and others, of which one is an answer to `req`.
abbrev pub Answered : Request → Engine → Engine → Type 0
Answered req r s =
    (e : Event) × (answers s.events ≡ answers r.events ++ e ∷ []) × (e.msg_id ≡ req.msg_id)

module _ (now : ℕ) (req : Request) (r : Engine) where
  push-Answered :
      (k : Kind) (fp detail : Bytes) (s : Engine)
      → is_answer k ≡ true
      → answers s.events ≡ answers r.events
      → Answered req r (push now (answer k fp req detail) s)
  unfolding push answer event
  push-Answered k fp detail s h same = (
    record (answer k fp req detail) { time = now },
    answers-append s.events _ ∙ rw (h, same),
    refl,
  )

  after_send-Answered :
      (fp : Bytes) (l : Link) (o : Option Bytes) (s : Engine)
      → answers s.events ≡ answers r.events
      → Answered req r (after_send now req fp l o s)
  unfolding after_send is_answer
  after_send-Answered fp l none s same = push-Answered sent fp [] s refl same
  after_send-Answered fp l (some e) s same =
      push-Answered send_failed fp e (drop_link fp l s) refl
        (ap answers (events-drop_link fp l s) ∙ same)

  after_check-Answered :
      (send_fault : Link → Outgoing → Option Bytes) (fp : Bytes) (l : Link) (o : Prepared)
      (s : Engine)
      → answers s.events ≡ answers r.events
      → Answered req r (after_check now req send_fault fp l o s)
  unfolding after_check is_answer
  after_check-Answered send_fault fp l (prepared x) s same =
      after_send-Answered fp l (send_fault l x) s same
  after_check-Answered send_fault fp l (unprepared e) s same =
      push-Answered send_failed fp e s refl same

  transmit-Answered :
      (t : Turn) (fp : Bytes) (l : Link) (s : Engine)
      → answers s.events ≡ answers r.events
      → Answered req r (transmit now req t fp l s)
  unfolding transmit
  transmit-Answered t fp l s same = after_check-Answered t.send_fault fp l _ s same

  after_dial-Answered :
      (t : Turn) (fp : Bytes) (d : Dialed)
      → d ≢ stopped
      → Answered req r (after_dial now req t fp d r)
  unfolding after_dial is_answer
  after_dial-Answered t fp stopped ne = absurd (ne refl)
  after_dial-Answered t fp (gave_up e) ne = push-Answered send_failed fp e r refl refl
  after_dial-Answered t fp (dialed l) ne =
      transmit-Answered t fp l (adopt now l r) (answers-adopt now l r)

attempted_ends :
    (c : Connected) (b : Bool) (rest : Bytes → Dialed)
    → b ≡ false
    → ((e : Bytes) → rest e ≢ stopped)
    → attempted c b rest ≢ stopped
unfolding attempted
attempted_ends (link_up l) b rest h ends = λ x. cc
attempted_ends (link_fault e) b rest h ends = rw h (ends e)

-- Without a Stop the attempts end with a link or an error.
dial_ends :
    (left i : ℕ) (last : Bytes) (f : ℕ → Attempt)
    → ((j : ℕ) → (f j).closed_before ≡ false)
    → ((j : ℕ) → (f j).closed_after ≡ false)
    → dial left i last f ≢ stopped
unfolding dial
dial_ends zero i last f before after = ground arith
dial_ends (suc left) i last f before after = rw (before i) (
    attempted_ends (f i).result (f i).closed_after (λ e. dial left (suc i) e f) (after i)
      (λ e. dial_ends left (suc i) e f before after))

module _ (now : ℕ) (req : Request) (t : Turn) (r : Engine)
    (before : (j : ℕ) → (t.attempts j).closed_before ≡ false)
    (after : (j : ℕ) → (t.attempts j).closed_after ≡ false) where
  with_link-Answered : (fp : Bytes) (o : Option Link) → Answered req r (with_link now req t fp o r)
  unfolding with_link
  with_link-Answered fp (some l) = transmit-Answered now req r t fp l r refl
  with_link-Answered fp none =
      after_dial-Answered now req r t fp _ (dial_ends connect_attempts 0 [] t.attempts before after)

  with_peer-Answered : (o : Option Bytes) → Answered req r (with_peer now req t o r)
  unfolding with_peer is_answer
  with_peer-Answered none =
      push-Answered now req r send_failed [] (codes "invalid contact URI") r refl refl
  with_peer-Answered (some fp) = with_link-Answered fp (get_link fp r)

  -- While the engine is not stopped, `deliver` answers its request exactly once, by an event "sent"
  -- or "sendFailed" that carries the request's message id, whatever fails on the way.
  pub deliver-Answered : Answered req r (deliver now req t r)
  unfolding deliver
  deliver-Answered = with_peer-Answered t.parsed

-- ===== src/Runtime/Queue.antt =====
-- The requests that wait in the outbox, and what sendWorker makes of them.
use stunner.Base.{
  ℕ, suc, ◌≡◌, refl, sym, ap, ◌∙◌, subst, false, Option, none, some, List, [], ◌∷◌, ◌++◌, map,
  length, arith,
}
use stunner.Base.Bytes.{Bytes}
use stunner.Base.Eq.{bytes_eq_instance}
use stunner.Base.Dict.{lookup}
use stunner.Runtime.{Event, Link, Engine, push, get_link, close_link, close_old, drop_link, adopt}
use stunner.Runtime.Deliver.{
  Outgoing, Prepared, prepared, unprepared, connect_attempts, Request, Turn, Dialed, stopped,
  gave_up, dialed, dial, after_send, after_check, transmit, after_dial, with_link, with_peer,
  deliver,
}
use stunner.Runtime.Answers.{answers, Answered, deliver-Answered}
use stunner.Runtime.Turns.{Shift, served, serve, take_request, send_worker}

closed-close_old : (o : Option Link) (l : Link) (r : Engine) → (close_old o l r).closed ≡ r.closed
unfolding close_old close_link
closed-close_old none l r = refl
closed-close_old (some old) l r = ground arith

closed-adopt : (now : ℕ) (l : Link) (r : Engine) → (adopt now l r).closed ≡ r.closed
unfolding adopt push
closed-adopt now l r = closed-close_old (lookup l.peer_fp r.links) l r

closed-drop_link : (fp : Bytes) (l : Link) (r : Engine) → (drop_link fp l r).closed ≡ r.closed
unfolding drop_link close_link
closed-drop_link fp l r = ground arith

module _ (now : ℕ) (req : Request) (t : Turn) where
  closed-after_send :
      (fp : Bytes) (l : Link) (o : Option Bytes) (r : Engine)
      → (after_send now req fp l o r).closed ≡ r.closed
  unfolding after_send push
  closed-after_send fp l none r = refl
  closed-after_send fp l (some e) r = closed-drop_link fp l r

  closed-after_check :
      (send_fault : Link → Outgoing → Option Bytes) (fp : Bytes) (l : Link) (o : Prepared)
      (r : Engine)
      → (after_check now req send_fault fp l o r).closed ≡ r.closed
  unfolding after_check push
  closed-after_check f fp l (prepared x) r = closed-after_send fp l (f l x) r
  closed-after_check f fp l (unprepared e) r = refl

  closed-transmit :
      (fp : Bytes) (l : Link) (r : Engine) → (transmit now req t fp l r).closed ≡ r.closed
  unfolding transmit
  closed-transmit fp l r = closed-after_check t.send_fault fp l _ r

  closed-after_dial :
      (fp : Bytes) (d : Dialed) (r : Engine) → (after_dial now req t fp d r).closed ≡ r.closed
  unfolding after_dial push
  closed-after_dial fp stopped r = refl
  closed-after_dial fp (gave_up e) r = refl
  closed-after_dial fp (dialed l) r = closed-transmit fp l (adopt now l r) ∙ closed-adopt now l r

  closed-with_link :
      (fp : Bytes) (o : Option Link) (r : Engine) → (with_link now req t fp o r).closed ≡ r.closed
  unfolding with_link
  closed-with_link fp (some l) r = closed-transmit fp l r
  closed-with_link fp none r = closed-after_dial fp (dial connect_attempts 0 [] t.attempts) r

  closed-with_peer : (o : Option Bytes) (r : Engine) → (with_peer now req t o r).closed ≡ r.closed
  unfolding with_peer push
  closed-with_peer none r = refl
  closed-with_peer (some fp) r = closed-with_link fp (get_link fp r) r

  closed-deliver : (r : Engine) → (deliver now req t r).closed ≡ r.closed
  unfolding deliver
  closed-deliver r = closed-with_peer t.parsed r

serve_open :
    (s : Shift) (req : Request) (outbox : List Request) (r : Engine)
    → r.closed ≡ false
    → serve s (req ∷ outbox) r ≡ served outbox (deliver s.now req s.turn r)
unfolding serve take_request
serve_open s req outbox r e = rw e

send_worker_next :
    (left i : ℕ) (f : ℕ → Shift) (outbox next : List Request) (r s : Engine)
    → serve (f i) outbox r ≡ served next s
    → send_worker (suc left) i f outbox r ≡ send_worker left (suc i) f next s
unfolding send_worker
send_worker_next left i f outbox next r s e = rw (send_worker, e) refl

append_assoc : (xs : List Event) (y : Event) (ys : List Event) → (xs ++ y ∷ []) ++ ys ≡ xs ++ y ∷ ys
append_assoc [] y ys = refl
append_assoc (x ∷ xs) y ys = ap (λ l. x ∷ l) (append_assoc xs y ys)

append_none : (xs : List Event) → xs ≡ xs ++ []
append_none [] = refl
append_none (x ∷ xs) = ap (λ l. x ∷ l) (append_none xs)

-- The outbox is empty, and the new answers carry the ids of its requests, in order.
abbrev pub AllAnswered : List Request → Engine → List Request × Engine → Type 0
AllAnswered outbox r s =
    (es : List Event) × (s.0 ≡ [])
    × (s.1.closed ≡ false)
    × (answers s.1.events ≡ answers r.events ++ es)
    × (map (λ e. e.msg_id) es ≡ map (λ q. q.msg_id) outbox)

module _ (f : ℕ → Shift) (before : (i j : ℕ) → ((f i).turn.attempts j).closed_before ≡ false)
    (after : (i j : ℕ) → ((f i).turn.attempts j).closed_after ≡ false) where
  answer_first :
      (i : ℕ) (req : Request) (outbox : List Request) (r t : Engine) (s : List Request × Engine)
      → Answered req r t
      → AllAnswered outbox t s
      → AllAnswered (req ∷ outbox) r s
  answer_first i req outbox r t s (e, a, m) (es, n, c, b, ms) =
      (e ∷ es, n, c, b ∙ ap (λ xs. xs ++ es) a ∙ append_assoc (answers r.events) e es, rw (m, ms))

  worker_from :
      (outbox : List Request) (i : ℕ) (r : Engine)
      → r.closed ≡ false
      → AllAnswered outbox r (send_worker (length outbox) i f outbox r)
  unfolding send_worker
  worker_from [] i r open_yet = ([], refl, open_yet, append_none (answers r.events), refl)
  worker_from (req ∷ outbox) i r open_yet =
      let t : Engine = deliver (f i).now req (f i).turn r in
      subst (AllAnswered (req ∷ outbox) r)
        (sym (
          send_worker_next (length outbox) i f (req ∷ outbox) outbox r t
            (serve_open (f i) req outbox r open_yet)))
        (answer_first i req outbox r t (send_worker (length outbox) (suc i) f outbox t)
          (deliver-Answered (f i).now req (f i).turn r (before i) (after i))
          (worker_from outbox (suc i) t (closed-deliver (f i).now req (f i).turn r ∙ open_yet)))

  -- In an engine that is not stopped, the worker that runs one round for each request of the outbox
  -- empties it, and answers every request once, in the order of the outbox, by an event with its
  -- message id, whatever fails on the way.
  pub answers-send_worker :
      (outbox : List Request) (r : Engine)
      → r.closed ≡ false
      → AllAnswered outbox r (send_worker (length outbox) 0 f outbox r)
  answers-send_worker outbox r open_yet = worker_from outbox 0 r open_yet

-- ===== src/Examples/Engines.antt =====
-- The engine at concrete states.
use stunner.Base.{ℕ, zero, suc, ◌≡◌, ◌≢◌, refl, sym, false, some, [], ◌∷◌, ◌++◌, arith}
use stunner.Base.Bytes.{Bytes, codes}
use stunner.Base.Eq.{bytes_eq_instance}
use stunner.Base.Dict.{lookup}
use stunner.Runtime.{Event, presence, Link, Engine, get_link, adopt, broken, recv_round}
use stunner.Runtime.Deliver.{
  Request, Attempt, link_up, link_fault, fetched, not_fetched, Turn, deliver,
}
use stunner.Runtime.Answers.{Answered, deliver-Answered}
use stunner.Runtime.Links.{IsSound, is_shut}
use stunner.Runtime.Linked.{IsNew}
use stunner.Runtime.Turns.{Shift, send_worker}
use stunner.Runtime.Queue.{AllAnswered, answers-send_worker}
use stunner.Runtime.Reach.{delivers, reads, Reach, here, next, Reach-IsSound}
use stunner.Runtime.Replaced.{recv_round-adopt}

abbrev idle : Engine
idle = record {
  links = [];
  last_in = [];
  events = [];
  closed = false;
  shut = [];
  receipts = [];
  readers = [];
}

abbrev link : ℕ → Link
link n = record { id = n; peer_fp = codes "PEER"; peer_uri = codes "uri" }

differ : (link 1).id ≢ (link 2).id
differ = ground arith

recv_round-adopt_example :
    (s : Engine) × (e : Event) × (recv_round 8
        (link 1)
        broken
        (adopt 7 (link 2) (adopt 6 (link 1) idle))
      ≡ (false, s))
    × (get_link (codes "PEER") s ≡ some (link 2))
    × (s.events ≡ (adopt 7 (link 2) (adopt 6 (link 1) idle)).events ++ e ∷ [])
    × (e.kind ≡ presence)
    × (e.peer_fp ≡ codes "PEER")
    × (e.online ≡ false)
recv_round-adopt_example =
    recv_round-adopt 7 8 (link 1) (link 2) (adopt 6 (link 1) idle) refl differ

abbrev request : Request
request = record {
  peer_uri = codes "uri";
  text = codes "hello";
  msg_id = codes "m1";
  file_path = [];
}

-- The first attempt fails, every later one connects, and sending then fails.
abbrev attempt : ℕ → Attempt
attempt n = record {
  closed_before = false;
  result = elim n [ zero ↦ link_fault (codes "no route") | suc k ↦ link_up (link 3) ];
  closed_after = false;
}

abbrev turn : Turn
turn = record {
  parsed = some (codes "PEER");
  attempts = attempt;
  read_file = λ path. not_fetched (codes "no file");
  new_text_id = λ fp text. fetched (codes "drawn");
  base_name = λ path. path;
  type_of_name = λ name. [];
  send_fault = λ l x. some (codes "gone");
}

deliver-Answered_example : Answered request idle (deliver 5 request turn idle)
deliver-Answered_example = deliver-Answered 5 request turn idle (λ j. refl) (λ j. refl)

-- Every id is a link to the same peer.
abbrev peer_of : ℕ → Bytes
peer_of n = codes "PEER"

nothing_held : (fp : Bytes) {l : Link} → lookup fp idle.links ≡ some l → ⊥
unfolding lookup
nothing_held fp e = cc

open_yet : is_shut 1 [] ≡ false
unfolding is_shut
open_yet = refl

idle-IsSound : IsSound peer_of idle
unfolding IsSound
idle-IsSound fp l e = absurd (nothing_held fp e)

-- Every attempt that connects gives link 3, of the peer in the request.
connected_fp :
    {fp : Bytes} {l : Link}
    → some (codes "PEER") ≡ some fp
    → link_up (link 3) ≡ link_up l
    → l.peer_fp ≡ fp
connected_fp e f = cc

faulty : {t : Bytes} {l : Link} → link_fault t ≡ link_up l → ⊥
faulty e = cc

connected-IsNew :
    (fp : Bytes) (l : Link) (j : ℕ)
    → some (codes "PEER") ≡ some fp
    → (attempt j).result ≡ link_up l
    → (l.peer_fp ≡ fp) × IsNew peer_of l idle
unfolding is_shut
connected-IsNew fp l zero e f = absurd (faulty f)
connected-IsNew fp l (suc j) e f = (connected_fp e f, (sym (connected_fp refl f), refl))

abbrev history : Reach peer_of idle (recv_round 7 (link 3) broken (deliver 5 request turn idle)).1
history =
    next (next here (delivers 5 request turn idle connected-IsNew))
      (reads 7 (link 3) broken (deliver 5 request turn idle) refl)

Reach-IsSound_example :
    IsSound peer_of (recv_round 7 (link 3) broken (deliver 5 request turn idle)).1
Reach-IsSound_example = Reach-IsSound peer_of history idle-IsSound

abbrev shift : ℕ → Shift
shift i = record { chosen = false; now = i; turn = turn }

answers-send_worker_example :
    AllAnswered (request ∷ request ∷ []) idle (send_worker 2 0 shift (request ∷ request ∷ []) idle)
answers-send_worker_example =
    answers-send_worker shift (λ i j. refl) (λ i j. refl) (request ∷ request ∷ []) idle refl

-- ===== src/Runtime/Turns.antt =====
-- The goroutines of core/pkg/runtime/runtime.go that start links and serve the outbox: Send,
-- SendFile, sendWorker, listenLoop and runDiagnose.
use stunner.Base.{
  ℕ, zero, suc, Bool, true, false, not, ◌&&◌, ◌||◌, Option, none, some, List, [], ◌∷◌, ◌++◌, ltb,
  length, if◌then◌else◌,
}
use stunner.Base.Bytes.{Bytes, codes}
use stunner.Runtime.{failure, diagnostic, event, Link, Engine, push, get_link, adopt}
use stunner.Runtime.Deliver.{Request, Connected, link_up, link_fault, Turn, deliver}

-- The capacity of the outbox.
abbrev pub outbox_size : ℕ
outbox_size = 64

-- `Send` and `SendFile`, with the request that each makes; `none` if the call waits. `chosen` is
-- true if the select takes the closed channel where the outbox has room too.
unfoldable pub enqueue : Bool → Request → List Request → Engine → Option (List Request)
enqueue chosen req outbox r =
    if r.closed && (chosen || not (ltb (length outbox) outbox_size))
    then some outbox
    else if ltb (length outbox) outbox_size
    then some (outbox ++ req ∷ [])
    else none

unfoldable pub send : Bool → Bytes → Bytes → Bytes → List Request → Engine → Option (List Request)
send chosen peer_uri text msg_id =
    enqueue chosen (record { peer_uri = peer_uri; text = text; msg_id = msg_id; file_path = [] })

unfoldable pub send_path :
    Bool → Bytes → Bytes → Bytes → List Request → Engine → Option (List Request)
send_path chosen peer_uri path msg_id =
    enqueue chosen (record { peer_uri = peer_uri; text = []; msg_id = msg_id; file_path = path })

-- What the select and `deliver` read in one round of `sendWorker`.
pub record Shift : Type 0 where
  pub chosen : Bool
  pub now : ℕ
  pub turn : Turn

pub data Served : Type 0 where
  waits ends : Served
  served : List Request → Engine → Served

unfoldable pub take_request : ℕ → Turn → List Request → Engine → Served
take_request now t [] r = waits
take_request now t (req ∷ outbox) r = served outbox (deliver now req t r)

unfoldable pub is_empty : List Request → Bool
is_empty [] = true
is_empty (req ∷ outbox) = false

-- One round of `sendWorker`.
unfoldable pub serve : Shift → List Request → Engine → Served
serve s outbox r =
    if r.closed && (s.chosen || is_empty outbox) then ends else take_request s.now s.turn outbox r

-- The rounds of `sendWorker`, as many as are left, from the one at `i`; it stops where it would wait.
unfoldable pub send_worker : ℕ → ℕ → (ℕ → Shift) → List Request → Engine → List Request × Engine
send_worker zero i f outbox r = (outbox, r)
send_worker (suc left) i f outbox r = elim (serve (f i) outbox r) [
  | waits ↦ (outbox, r)
  | ends ↦ (outbox, r)
  | served outbox' r' ↦ send_worker left (suc i) f outbox' r'
]

-- `listenLoop` behind Listen; `closed` is what isClosed says if that failed. `true` if the loop goes
-- on, unless the engine closes while it waits.
unfoldable pub after_listen : ℕ → Bool → Connected → Engine → Bool × Engine
after_listen now closed (link_up l) r = (true, adopt now l r)
after_listen now closed (link_fault e) r =
    if closed
    then (false, r)
    else (true, push now (record (event failure) { detail = codes "listen: " ++ e }) r)

-- One round of `listenLoop`; `before` is what isClosed says in front of Listen.
unfoldable pub listen_round : ℕ → Bool → Bool → Connected → Engine → Bool × Engine
listen_round now before closed c r = if before then (false, r) else after_listen now closed c r

unfoldable pub push_diag : ℕ → Bytes → Bytes → Bool → Bytes → Engine → Engine
push_diag now uri fp reached detail r =
    push now
      (record (event diagnostic) {
        peer_uri = uri;
        peer_fp = fp;
        online = reached;
        detail = detail;
      })
      r

-- The UTF-8 bytes of a dash.
abbrev pub dash : Bytes
dash = 0xe2 ∷ 0x80 ∷ 0x94 ∷ []

abbrev pub bad_contact : Bytes
bad_contact =
    codes "Invalid contact ID " ++ dash ++ codes " re-add the contact from their shared code."

abbrev pub live_link : Bytes
live_link = codes "Connected " ++ dash ++ codes " a live end-to-end-encrypted link is open."

abbrev pub not_found_yet : Bytes
not_found_yet =
    codes "Not found on the network yet. The peer may be offline, "
    ++ codes "may have just come online (discovery records take ~30s to propagate), or their "
    ++ codes "network blocks peer discovery. Make sure both devices are online and try again."

abbrev pub no_connection : Bytes → Bytes
no_connection e =
    codes "Found the peer but couldn't establish a direct connection: "
    ++ e
    ++ codes ". This is usually a strict NAT/firewall. Add a TURN server in "
    ++ codes "Network settings (and have the peer do the same) to relay the connection."

abbrev pub new_connection : Bytes
new_connection = codes "Connected " ++ dash ++ codes " direct encrypted link established."

-- `runDiagnose` behind Find, and behind getLink.
unfoldable pub after_connect : ℕ → Bytes → Bytes → Connected → Engine → Engine
after_connect now uri fp (link_fault e) r = push_diag now uri fp false (no_connection e) r
after_connect now uri fp (link_up l) r = push_diag now uri fp true new_connection (adopt now l r)

unfoldable pub find_peer : ℕ → Bytes → Bytes → Bool → Connected → Option Link → Engine → Engine
find_peer now uri fp found c (some l) r = push_diag now uri fp true live_link r
find_peer now uri fp found c none r =
    if found then after_connect now uri fp c r else push_diag now uri fp false not_found_yet r

-- `runDiagnose`, from the fingerprint in the contact URI, whether Find finds the peer, and what
-- Connect returns.
unfoldable pub run_diagnose : ℕ → Bytes → Option Bytes → Bool → Connected → Engine → Engine
run_diagnose now uri none found c r = push_diag now uri [] false bad_contact r
run_diagnose now uri (some fp) found c r = find_peer now uri fp found c (get_link fp r) r

-- ===== src/Runtime/Replaced.antt =====
-- What the engine tells the app when a second link to a peer replaces the first.
use stunner.Base.{ℕ, ◌≡◌, ◌≢◌, ==_iff, refl, sym, ap, false, some, [], ◌∷◌, ◌++◌, arith}
use stunner.Base.Bytes.{Bytes}
use stunner.Base.Eq.{bytes_eq_instance}
use stunner.Base.Dict.{lookup, lookup-insert_self}
use stunner.Runtime.{
  Event, event, presence, Link, Engine, push, get_link, close_link, close_old, drop_link, adopt,
  broken, recv_round, from_link,
}

get_link-adopt : (now : ℕ) (l : Link) (r : Engine) → get_link l.peer_fp (adopt now l r) ≡ some l
unfolding get_link adopt push
get_link-adopt now l r =
    lookup-insert_self l.peer_fp l (close_old (lookup l.peer_fp r.links) l r).links

drop_link_other :
    (fp : Bytes) (l held : Link) (r : Engine)
    → lookup fp r.links ≡ some held
    → held.id ≢ l.id
    → drop_link fp l r ≡ close_link l r
unfolding drop_link
drop_link_other fp l held r e ne = ground (arith, e, ==_iff held.id l.id)

-- When a second link to a peer has replaced the first, and a round of the first one's reader then
-- fails, the engine still holds the second link, and yet the last event says that the peer is
-- offline.
pub recv_round-adopt :
    (now later : ℕ) (old new : Link) (r : Engine)
    → old.peer_fp ≡ new.peer_fp
    → old.id ≢ new.id
    → (s : Engine) × (e : Event) × (recv_round later old broken (adopt now new r) ≡ (false, s))
      × (get_link new.peer_fp s ≡ some new)
      × (s.events ≡ (adopt now new r).events ++ e ∷ [])
      × (e.kind ≡ presence)
      × (e.peer_fp ≡ new.peer_fp)
      × (e.online ≡ false)
unfolding recv_round push from_link event
recv_round-adopt now later old new r same differ =
    let held : lookup old.peer_fp (adopt now new r).links ≡ some new =
      unfold get_link in rw same (get_link-adopt now new r) in
    let kept = drop_link_other old.peer_fp old new (adopt now new r) held (λ h. differ (sym h)) in
    (
      push later (from_link presence old) (close_link old (adopt now new r)),
      record (from_link presence old) { time = later },
      ap (λ t. (false, push later (from_link presence old) t)) kept,
      unfold get_link close_link in get_link-adopt now new r,
      unfold close_link in refl,
      refl,
      same,
      refl,
    )

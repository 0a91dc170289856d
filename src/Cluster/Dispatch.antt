-- ===== src/Cluster/Dispatch.antt =====
-- crates/pulsate-cluster/src/gossip/mod.rs: `start_probe`, `next_deadline`, `handle` and the body of
-- the loop of `run`.
use pulsate.Prelude.{
  ℕ, ◌+◌, ◌*◌, ◌%◌, ◌^◌, not, Option, none, some, is_some, List, [], ◌∷◌, ◌++◌, length, get_elem?,
  Str, str_lt, Map, get, insert, remove, nat_eq, min, ◌==◌, ltb, leb, if◌then◌else◌, ◌=?◌,
}
use pulsate.Net.{SocketAddr, socket_addr_eq}
use pulsate.Cluster.Wire.{Kind, ping, ack, ping_req, Frame, protocol_version}
use pulsate.Cluster.Peers.{Peer, is_dead, reconcile, mark_alive}
use pulsate.Cluster.Runtime.{
  direct, Relay, Runtime, Outbox, next_seq, send, gossip_round, round_if, reap, advance_probe,
}

-- `sort_by` on the nodes' names, by insertion.
unfoldable pub place : Str × SocketAddr → List (Str × SocketAddr) → List (Str × SocketAddr)
place c [] = c ∷ []
place c (d ∷ cs) = if str_lt d.0 c.0 then d ∷ place c cs else c ∷ d ∷ cs

-- The candidates for a probe, sorted.
unfoldable pub candidates : Map Str Peer → List (Str × SocketAddr)
candidates [] = []
candidates ((node, p) ∷ peers) =
    let rest = candidates peers in if is_dead p.state then rest else place (node, p.addr) rest

abbrev pub probe_at : ℕ → Str × SocketAddr → Runtime → Runtime × Outbox
probe_at now (node, addr) r =
    let r' = next_seq r in
    (
      record r' {
        probe = some (record {
          seq = r'.seq;
          target = node;
          target_addr = addr;
          phase = direct;
          deadline = now + r.config.probe_timeout;
        });
      },
      send r' addr r'.seq ping,
    )

unfoldable pub start_probe : ℕ → Runtime → Runtime × Outbox
start_probe now r =
    let cs = candidates r.shared.peers in
    if is_some r.probe then (r, []) else elim (get_elem? cs (r.round_robin % length cs)) [
      | none ↦ (r, [])
      | some c ↦ probe_at now c (record r { round_robin = (r.round_robin + 1) % 2 ^ 64 })
    ]

-- The loops of `next_deadline`.
abbrev pub first_expiry : ℕ → Map ℕ Relay → ℕ
first_expiry d [] = d
first_expiry d ((seq, relay) ∷ relays) = first_expiry (min d relay.expire) relays

abbrev pub earlier : ℕ → Option ℕ → ℕ
earlier d none = d
earlier d (some w) = min d w

abbrev pub first_suspicion : ℕ → Map Str Peer → ℕ
first_suspicion d [] = d
first_suspicion d ((node, p) ∷ peers) = first_suspicion (earlier d p.suspect_deadline) peers

unfoldable pub next_deadline : ℕ → Runtime → ℕ
next_deadline next_tick r =
    let probed : ℕ = elim r.probe [ none ↦ next_tick | some p ↦ min next_tick p.deadline ] in
    first_suspicion (first_expiry probed r.relays) r.shared.peers

-- The first half of `handle_ack`: the node's own probe.
abbrev pub complete_probe : Frame → Runtime → Runtime
complete_probe frame r = elim r.probe [
  | none ↦ r
  | some p ↦
      if p.seq == frame.seq
      then record r { probe = none; shared = mark_alive p.target r.shared }
      else r
]

unfoldable pub handle_ack : Frame → Runtime → Runtime × Outbox
handle_ack frame r =
    let r' = complete_probe frame r in
    elim (get frame.seq r'.relays) [
      | none ↦ (r', [])
      | some relay ↦
          let r'' = record r' { relays = remove frame.seq r'.relays } in
          (r'', if relay.target =? frame.from_addr then send r'' relay.origin frame.seq ack else [])
    ]

-- The `match` on the kind of a frame.
unfoldable pub answer : ℕ → Frame → Kind → Runtime → Runtime × Outbox
answer now frame ping r = (r, send r frame.from_addr frame.seq ack)
answer now frame (ping_req target) r =
    let relay : Relay = record {
      origin = frame.from_addr;
      target = target;
      expire = now + r.config.probe_timeout * 2;
    } in
    let r' = record r { relays = insert frame.seq relay r.relays } in
    (r', send r' target frame.seq ping)
answer now frame ack r = handle_ack frame r

unfoldable pub handle : ℕ → Frame → Runtime → Runtime × Outbox
handle now frame r =
    if not (frame.version == protocol_version)
    then (r, [])
    else let (s, refuted) = reconcile r.config.suspicion_timeout now frame r.shared in
      let (told, first) = round_if refuted (record r { shared = s }) in
      let (r', rest) = answer now frame frame.kind told in (r', first ++ rest)

abbrev pub live_relays : ℕ → Map ℕ Relay → Map ℕ Relay
live_relays now [] = []
live_relays now ((seq, relay) ∷ relays) =
    if ltb now relay.expire then (seq, relay) ∷ live_relays now relays else live_relays now relays

-- The part of a round at a tick.
abbrev pub on_tick : ℕ → Runtime → Runtime × Outbox
on_tick now r =
    let (gossiped, a) = gossip_round r in let (r', b) = start_probe now gossiped in (r', a ++ b)

-- A round of the loop of `run` up to the wait: the runtime, the next tick and what is sent.
unfoldable pub loop_round : ℕ → ℕ → Runtime → Runtime × ℕ × Outbox
loop_round now next_tick r =
    let (r₁, a) = reap now r in
    let (r₂, b) = advance_probe now r₁ in
    let (r₃, c) = if leb next_tick now then on_tick now r₂ else (r₂, []) in
    let tick = if leb next_tick now then now + r.config.probe_interval else next_tick in
    (record r₃ { relays = live_relays now r₃.relays }, tick, a ++ (b ++ c))

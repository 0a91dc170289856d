-- ===== src/Cluster/Driving.antt =====
-- The runtime of a gossip node: what its rounds and answers leave of the node's state.
use pulsate.Prelude.{
  ℕ, ◌≡◌, inl, inr, refl, sym, ◌∙◌, subst, Bool, true, false, List, [], ◌∷◌, Str, get, nat_eq, ltb,
  leb, ◌==◌, arith, Bool-cases, Option-cases,
}
use pulsate.Net.{SocketAddr, socket_addr_eq}
use pulsate.Cluster.Wire.{Kind, ping, ack, ping_req, Frame, protocol_version}
use pulsate.Cluster.Peers.{start, reconcile, reap_suspects}
use pulsate.Cluster.Coherence.{
  IsCoherent, reconcile-IsCoherent, mark_suspect-IsCoherent, mark_alive-IsCoherent,
}
use pulsate.Cluster.Reaping.{reap_suspects-IsCoherent}
use pulsate.Cluster.History.{start-IsCoherent}
use pulsate.Cluster.Runtime.{
  Config, ProbePhase, direct, indirect, Probe, Runtime, boot, ping_all, gossip_round, pick_indirect,
  round_if, reap, time_out, advance_probe,
}
use pulsate.Cluster.Dispatch.{
  start_probe, complete_probe, handle_ack, answer, handle, on_tick, loop_round,
}

ping_all-shared : (dests : List SocketAddr) (r : Runtime) → (ping_all dests r).0.shared ≡ r.shared
unfolding ping_all
ping_all-shared [] r = refl
ping_all-shared (a ∷ dests) r = ping_all-shared dests _

gossip_round-shared : (r : Runtime) → (gossip_round r).0.shared ≡ r.shared
unfolding gossip_round
gossip_round-shared r = ping_all-shared _ _

round_if-shared : (b : Bool) (r : Runtime) → (round_if b r).0.shared ≡ r.shared
round_if-shared true r = gossip_round-shared r
round_if-shared false r = refl

-- The node's state is coherent.
abbrev pub IsSafe : Runtime → Type 0
IsSafe r = IsCoherent r.shared

same-IsSafe : (r q : Runtime) → q.shared ≡ r.shared → IsSafe r → IsSafe q
same-IsSafe r q e c = subst IsCoherent (sym e) c

reap-IsSafe : (now : ℕ) (r : Runtime) → IsSafe r → IsSafe (reap now r).0
unfolding reap
reap-IsSafe now r c =
    subst IsCoherent (sym (round_if-shared (reap_suspects now r.shared).1 _))
      (reap_suspects-IsCoherent now r.shared c)

time_out-IsSafe :
    (now : ℕ) (p : Probe) (phase : ProbePhase) (r : Runtime)
    → IsSafe r
    → IsSafe (time_out now p phase r).0
unfolding time_out pick_indirect
time_out-IsSafe now p direct r c = c
time_out-IsSafe now p indirect r c =
    subst IsCoherent (sym (gossip_round-shared _))
      (mark_suspect-IsCoherent r.config.suspicion_timeout now p.target r.shared c)

advance_probe-IsSafe : (now : ℕ) (r : Runtime) → IsSafe r → IsSafe (advance_probe now r).0
unfolding advance_probe
advance_probe-IsSafe now r c = elim (Option-cases r.probe) [
  | inl e ↦ rw (e, advance_probe) c
  | inr (p, e) ↦ elim (Bool-cases (ltb now p.deadline)) [
    | inl early ↦ rw (e, advance_probe, early) c
    | inr late ↦ rw (e, advance_probe, late) (time_out-IsSafe now p p.phase r c)
  ]
]

start_probe-shared : (now : ℕ) (r : Runtime) → (start_probe now r).0.shared ≡ r.shared
unfolding start_probe
start_probe-shared now r = ground arith

complete_probe-IsSafe : (frame : Frame) (r : Runtime) → IsSafe r → IsSafe (complete_probe frame r)
complete_probe-IsSafe frame r c = elim (Option-cases r.probe) [
  | inl e ↦ rw e c
  | inr (p, e) ↦ elim (Bool-cases (p.seq == frame.seq)) [
    | inl own ↦ rw (e, own) (mark_alive-IsCoherent p.target r.shared c)
    | inr other ↦ rw (e, other) c
  ]
]

handle_ack-shared :
    (frame : Frame) (r : Runtime) → (handle_ack frame r).0.shared ≡ (complete_probe frame r).shared
unfolding handle_ack
handle_ack-shared frame r = elim (Option-cases (get frame.seq (complete_probe frame r).relays)) [
  | inl e ↦ rw (handle_ack, e) refl
  | inr (relay, e) ↦ rw (handle_ack, e) refl
]

handle_ack-IsSafe : (frame : Frame) (r : Runtime) → IsSafe r → IsSafe (handle_ack frame r).0
handle_ack-IsSafe frame r c =
    same-IsSafe (complete_probe frame r) (handle_ack frame r).0 (handle_ack-shared frame r)
      (complete_probe-IsSafe frame r c)

answer-IsSafe :
    (now : ℕ) (frame : Frame) (kind : Kind) (r : Runtime)
    → IsSafe r
    → IsSafe (answer now frame kind r).0
unfolding answer
answer-IsSafe now frame ping r c = c
answer-IsSafe now frame (ping_req target) r c = c
answer-IsSafe now frame ack r c = handle_ack-IsSafe frame r c

handle-IsSafe : (now : ℕ) (frame : Frame) (r : Runtime) → IsSafe r → IsSafe (handle now frame r).0
unfolding handle
handle-IsSafe now frame r c = elim (Bool-cases (frame.version == protocol_version)) [
  | inr foreign ↦ rw (handle, foreign) c
  | inl ours ↦
      let read = reconcile r.config.suspicion_timeout now frame r.shared in
      let told = (round_if read.1 (record r { shared = read.0 })).0 in
      let safe : IsSafe told =
        subst IsCoherent (sym (round_if-shared read.1 (record r { shared = read.0 })))
          (reconcile-IsCoherent r.config.suspicion_timeout now frame r.shared c) in
      rw (handle, ours) (answer-IsSafe now frame frame.kind told safe)
]

on_tick-IsSafe : (now : ℕ) (r : Runtime) → IsSafe r → IsSafe (on_tick now r).0
on_tick-IsSafe now r c =
    subst IsCoherent (sym (start_probe-shared now (gossip_round r).0 ∙ gossip_round-shared r)) c

loop_round-IsSafe : (now tick : ℕ) (r : Runtime) → IsSafe r → IsSafe (loop_round now tick r).0
unfolding loop_round
loop_round-IsSafe now tick r c =
    let probed = (advance_probe now (reap now r).0).0 in
    let safe : IsSafe probed = advance_probe-IsSafe now (reap now r).0 (reap-IsSafe now r c) in
    elim (Bool-cases (leb tick now)) [
      | inl due ↦ rw (loop_round, due) (on_tick-IsSafe now probed safe)
      | inr early ↦ rw (loop_round, early) safe
    ]

-- What the runtime lives through: a frame that comes in, and a round of its loop.
pub data Input : Type 0 where
  hears : ℕ → Frame → Input
  wakes : ℕ → Input

-- The runtime and its next tick behind the inputs.
unfoldable pub drive : List Input → Runtime → ℕ → Runtime
drive [] r tick = r
drive (hears now frame ∷ inputs) r tick = drive inputs (handle now frame r).0 tick
drive (wakes now ∷ inputs) r tick =
    let (r', tick', out) = loop_round now tick r in drive inputs r' tick'

drive-IsSafe :
    (inputs : List Input) (r : Runtime) (tick : ℕ) → IsSafe r → IsSafe (drive inputs r tick)
unfolding drive
drive-IsSafe [] r tick c = c
drive-IsSafe (hears now frame ∷ inputs) r tick c =
    drive-IsSafe inputs (handle now frame r).0 tick (handle-IsSafe now frame r c)
drive-IsSafe (wakes now ∷ inputs) r tick c =
    drive-IsSafe inputs (loop_round now tick r).0 (loop_round now tick r).1
      (loop_round-IsSafe now tick r c)

-- Whatever frames reach the runtime of a node after its start and whenever its loop goes round, for
-- every configuration and every seed of its generator, its view is the node itself and its peers
-- that are not dead, in ascending order, it is no peer of itself, every peer has one entry, and a
-- deadline is set exactly while a peer is suspect.
pub drive-IsCoherent :
    (inputs : List Input) (config : Config) (me : Str) (addr : SocketAddr) (seed tick : ℕ)
    → IsCoherent (drive inputs (boot config (start me addr) seed) tick).shared
unfolding boot
drive-IsCoherent inputs config me addr seed tick =
    drive-IsSafe inputs (boot config (start me addr) seed) tick (start-IsCoherent me addr)

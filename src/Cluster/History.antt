-- ===== src/Cluster/History.antt =====
-- The gossip node over time: what arrives, what its probes find, its deadlines and its own counts.
use pulsate.Prelude.{ℕ, refl, List, [], ◌∷◌, Str, str_eq_iff, arith}
use pulsate.Net.{SocketAddr}
use pulsate.Cluster.Counter.{incr}
use pulsate.Cluster.Members.{new-IsView}
use pulsate.Cluster.Members
use pulsate.Cluster.Wire.{Frame}
use pulsate.Cluster.Peers.{Shared, start, reconcile, mark_suspect, mark_alive, reap_suspects}
use pulsate.Cluster.Coherence.{
  IsCoherent, reconcile-IsCoherent, mark_suspect-IsCoherent, mark_alive-IsCoherent,
}
use pulsate.Cluster.Reaping.{reap_suspects-IsCoherent}

-- What changes `Shared`: a frame, a probe that failed, a probe that was answered, the deadlines of
-- a round, and a count of the node's own. The times need not be in order.
pub data Event : Type 0 where
  hears : ℕ → Frame → Event
  suspects : ℕ → Str → Event
  confirms : Str → Event
  reaps : ℕ → Event
  counts : ℕ → Event

unfoldable pub step : ℕ → Event → Shared → Shared
step timeout (hears now frame) s = (reconcile timeout now frame s).0
step timeout (suspects now node) s = mark_suspect timeout now node s
step timeout (confirms node) s = mark_alive node s
step timeout (reaps now) s = (reap_suspects now s).0
step timeout (counts n) s = record s { counter = incr s.me n s.counter }

unfoldable pub run : ℕ → List Event → Shared → Shared
run timeout [] s = s
run timeout (e ∷ es) s = run timeout es (step timeout e s)

pub start-IsCoherent : (me : Str) (addr : SocketAddr) → IsCoherent (start me addr)
unfolding start Members.new
start-IsCoherent me addr = record {
  view = new-IsView me;
  own = refl;
  no_self = refl;
  distinct = tt;
  live = λ k. ground (arith, str_eq_iff me k);
  armed = λ k. refl;
}

step-IsCoherent :
    (timeout : ℕ) (e : Event) (s : Shared) → IsCoherent s → IsCoherent (step timeout e s)
unfolding step
step-IsCoherent timeout (hears now frame) s c = reconcile-IsCoherent timeout now frame s c
step-IsCoherent timeout (suspects now node) s c = mark_suspect-IsCoherent timeout now node s c
step-IsCoherent timeout (confirms node) s c = mark_alive-IsCoherent node s c
step-IsCoherent timeout (reaps now) s c = reap_suspects-IsCoherent now s c
step-IsCoherent timeout (counts n) s c = record {
  view = c.view;
  own = c.own;
  no_self = c.no_self;
  distinct = c.distinct;
  live = c.live;
  armed = c.armed;
}

run_from-IsCoherent :
    (timeout : ℕ) (es : List Event) (s : Shared) → IsCoherent s → IsCoherent (run timeout es s)
unfolding run
run_from-IsCoherent timeout [] s c = c
run_from-IsCoherent timeout (e ∷ es) s c =
    run_from-IsCoherent timeout es (step timeout e s) (step-IsCoherent timeout e s c)

-- Whatever a node hears, finds and counts after its start, in any order and at any times, its view
-- is the node itself and its peers that are not dead, in ascending order, it is no peer of itself,
-- every peer has one entry, and a deadline is set exactly while a peer is suspect.
pub run-IsCoherent :
    (timeout : ℕ) (es : List Event) (me : Str) (addr : SocketAddr)
    → IsCoherent (run timeout es (start me addr))
run-IsCoherent timeout es me addr =
    run_from-IsCoherent timeout es (start me addr) (start-IsCoherent me addr)

-- ===== src/Cluster/Refutation.antt =====
-- `apply_update` about the node itself: how it answers a suspicion of itself.
use pulsate.Prelude.{
  ℕ, ◌+◌, ◌-◌, ◌%◌, ◌^◌, ◌≤◌, ◌<◌, ◌≡◌, ◌⊎◌, refl, Bool, true, false, ◌||◌, str_eq_iff, In, here,
  arith,
}
use pulsate.Cluster.Wire.{alive, MemberUpdate, Kind}
use pulsate.Cluster.Peers.{
  Peer, Shared, is_dead, is_suspect, apply_self, apply_update, snapshot, supersedes,
}

-- What a node says of itself in its frames.
abbrev pub own_update : Shared → MemberUpdate
own_update s = record {
  node = s.me;
  addr = s.local_addr;
  incarnation = s.incarnation;
  state = alive;
}

-- The update declares its node suspect or dead.
abbrev pub accuses : MemberUpdate → Bool
accuses u = is_suspect u.state || is_dead u.state

-- Told that it is suspect or dead at an incarnation which it has not outgrown, a node changes its
-- incarnation alone and reports the refutation; its next frame says that it is alive, and says so at
-- an incarnation that supersedes every entry up to the accusation's, whatever that entry's state. It
-- is supposed that the accusation's incarnation is not the last of the 64-bit numbers.
pub refutation_lem :
    (timeout now seq : ℕ) (kind : Kind) (u : MemberUpdate) (s : Shared) (p : Peer)
    → u.node ≡ s.me
    → accuses u ≡ true
    → s.incarnation ≤ u.incarnation
    → u.incarnation < 2 ^ 64 - 1
    → p.incarnation ≤ u.incarnation
    → (apply_update timeout now u s ≡ (record s { incarnation = u.incarnation + 1 }, true))
      × In
          (own_update (apply_update timeout now u s).0)
          (snapshot (apply_update timeout now u s).0 seq kind).updates
      × (supersedes (own_update (apply_update timeout now u s).0) p ≡ true)
unfolding apply_update apply_self snapshot
refutation_lem timeout now seq kind u s p mine accused older small below =
    (done, here refl, rw done (ground arith))
  where
    no_wrap : (u.incarnation + 1) % 2 ^ 64 ≡ u.incarnation + 1
    no_wrap = omega arith

    done : apply_update timeout now u s ≡ (record s { incarnation = u.incarnation + 1 }, true)
    done = ground (arith, str_eq_iff u.node s.me, no_wrap)

-- At the last 64-bit incarnation the refutation wraps: the node falls back to incarnation 0, and
-- its frames supersede no accusation any more.
pub refutation_wraps :
    (timeout now : ℕ) (u : MemberUpdate) (s : Shared) (p : Peer)
    → u.node ≡ s.me
    → accuses u ≡ true
    → s.incarnation ≤ u.incarnation
    → u.incarnation ≡ 2 ^ 64 - 1
    → p.incarnation ≡ u.incarnation
    → ((apply_update timeout now u s).0.incarnation ≡ 0)
      × (supersedes (own_update (apply_update timeout now u s).0) p ≡ false)
unfolding apply_update apply_self
refutation_wraps timeout now u s p mine accused older last same =
    (wrapped, rw wrapped (ground arith))
  where
    zero : (u.incarnation + 1) % 2 ^ 64 ≡ 0
    zero = omega arith

    wrapped : (apply_update timeout now u s).0.incarnation ≡ 0
    wrapped = ground (arith, str_eq_iff u.node s.me, zero)

-- An update about the node itself that accuses it of nothing, or of an incarnation that it has
-- outgrown, changes nothing.
pub own_update_ignored :
    (timeout now : ℕ) (u : MemberUpdate) (s : Shared)
    → u.node ≡ s.me
    → (accuses u ≡ false) ⊎ (u.incarnation < s.incarnation)
    → apply_update timeout now u s ≡ (s, false)
unfolding apply_update apply_self
own_update_ignored timeout now u s mine h = ground (arith, str_eq_iff u.node s.me)

-- ===== src/Cluster/Convergence.antt =====
-- `reconcile`: the precedence of what is told about a peer, and what the order of frames does.
use pulsate.Prelude.{
  ℕ, ◌+◌, ◌*◌, ◌≤◌, ◌<◌, ◌≡◌, inl, inr, refl, ◌∙◌, ap, max, Bool, true, false, not, ◌||◌, ◌&&◌,
  Option, none, some, List, [], ◌∷◌, Str, str_eq, string_eq, str_eq_iff, get, get-insert, arith,
  if◌then◌else◌, Bool-cases, Option-cases,
}
use pulsate.Cluster.Counter.{IsCounter, slot, slot-merge}
use pulsate.Cluster.Wire.{MemberState, alive, suspect, dead, rank, MemberUpdate, Frame}
use pulsate.Cluster.Peers.{
  Peer, Shared, apply_self, apply_peer, apply_update, apply_updates, reconcile, peer_of, supersedes,
}

-- Where an entry stands: first by incarnation, then by rank, and an unknown peer lowest.
abbrev pub standing : Option Peer → ℕ
standing none = 0
standing (some p) = 1 + (3 * p.incarnation + rank p.state)

abbrev pub told : MemberUpdate → ℕ
told u = 1 + (3 * u.incarnation + rank u.state)

rank-lt : (t : MemberState) → rank t < 3
unfolding rank
rank-lt alive = omega arith
rank-lt suspect = omega arith
rank-lt dead = omega arith

supersedes-lt : (u : MemberUpdate) (p : Peer) → supersedes u p ≡ true → standing (some p) < told u
supersedes-lt u p h = ground (arith, rank-lt u.state, rank-lt p.state)

not-supersedes-le :
    (u : MemberUpdate) (p : Peer) → supersedes u p ≡ false → told u ≤ standing (some p)
not-supersedes-le u p h = ground (arith, rank-lt u.state, rank-lt p.state)

apply_peer-standing :
    (u : MemberUpdate) (deadline : ℕ) (s : Shared) (k : Str)
    → standing (get k (apply_peer u deadline s).peers) ≡ (
        if str_eq u.node k
        then max (standing (get k s.peers)) (told u)
        else standing (get k s.peers))
unfolding apply_peer
apply_peer-standing u deadline s k = elim (Bool-cases (str_eq u.node k)) [
  | inl e ↦ elim (Option-cases (get u.node s.peers)) [
    | inl missing ↦
        rw (missing, apply_peer)
          (ground (arith, get-insert u.node k (peer_of u deadline) s.peers, str_eq_iff u.node k))
    | inr (p, found) ↦ elim (Bool-cases (supersedes u p)) [
      | inl newer ↦
          rw (found, apply_peer, newer)
            (ground (
              arith,
              get-insert u.node k (peer_of u deadline) s.peers,
              str_eq_iff u.node k,
              supersedes-lt u p newer,
            ))
      | inr older ↦
          rw (found, apply_peer, older)
            (ground (arith, str_eq_iff u.node k, not-supersedes-le u p older))
    ]
  ]
  | inr e ↦ ground (arith, get-insert u.node k (peer_of u deadline) s.peers)
]

apply_update-me :
    (timeout now : ℕ) (u : MemberUpdate) (s : Shared) → (apply_update timeout now u s).0.me ≡ s.me
unfolding apply_update apply_self apply_peer
apply_update-me timeout now u s = ground arith

apply_update-counter :
    (timeout now : ℕ) (u : MemberUpdate) (s : Shared)
    → (apply_update timeout now u s).0.counter ≡ s.counter
unfolding apply_update apply_self apply_peer
apply_update-counter timeout now u s = ground arith

-- What an update says of `k`, to a node `me`.
abbrev pub says : Str → Str → MemberUpdate → ℕ
says me k u = if not (str_eq u.node me) && str_eq u.node k then told u else 0

apply_update-standing :
    (timeout now : ℕ) (u : MemberUpdate) (s : Shared) (k : Str)
    → standing (get k (apply_update timeout now u s).0.peers)
      ≡ max (standing (get k s.peers)) (says s.me k u)
unfolding apply_update apply_self
apply_update-standing timeout now u s k = elim (Bool-cases (str_eq u.node s.me)) [
  | inl mine ↦ rw (mine, apply_update) (ground arith)
  | inr other ↦ rw (other, apply_update) (ground (arith, apply_peer-standing u (now + timeout) s k))
]

-- The highest that a list of updates says of `k`.
abbrev pub highest : Str → Str → List MemberUpdate → ℕ
highest me k [] = 0
highest me k (u ∷ us) = max (says me k u) (highest me k us)

apply_updates-standing :
    (timeout now : ℕ) (us : List MemberUpdate) (s : Shared) (b : Bool) (k : Str)
    → (standing (get k (apply_updates timeout now us (s, b)).0.peers)
        ≡ max (standing (get k s.peers)) (highest s.me k us))
      × ((apply_updates timeout now us (s, b)).0.me ≡ s.me)
      × ((apply_updates timeout now us (s, b)).0.counter ≡ s.counter)
unfolding apply_updates
apply_updates-standing timeout now [] s b k = (omega arith, refl, refl)
apply_updates-standing timeout now (u ∷ us) s b k =
    let s' = (apply_update timeout now u s).0 in
    let (ih, me, counter) =
      apply_updates-standing timeout now us s' (b || (apply_update timeout now u s).1) k in
    let same_me = apply_update-me timeout now u s in
    let same_highest : highest s'.me k us ≡ highest s.me k us = ap (λ m. highest m k us) same_me in
    (
      omega (arith, ih, same_highest, apply_update-standing timeout now u s k),
      me ∙ same_me,
      counter ∙ apply_update-counter timeout now u s,
    )

-- After a frame every peer stands at the higher of where it stood and what the frame says of it,
-- and every counter slot at the greater of the two counts.
pub reconcile_lem :
    (timeout now : ℕ) (f : Frame) (s : Shared) (k : Str)
    → IsCounter f.counter
    → (standing (get k (reconcile timeout now f s).0.peers)
        ≡ max (standing (get k s.peers)) (highest s.me k f.updates))
      × (slot k (reconcile timeout now f s).0.counter ≡ max (slot k s.counter) (slot k f.counter))
unfolding reconcile
reconcile_lem timeout now f s k d =
    let (stands, _, counter) = apply_updates-standing timeout now f.updates s false k in
    (stands, rw counter (slot-merge k s.counter f.counter d))

reconcile-me : (timeout now : ℕ) (f : Frame) (s : Shared) → (reconcile timeout now f s).0.me ≡ s.me
unfolding reconcile
reconcile-me timeout now f s = (apply_updates-standing timeout now f.updates s false s.me).1

-- Frames converge: two frames in either order, at whatever times, and a frame that comes once more
-- leave every peer with one standing (incarnation and state) and every counter slot with one count.
pub reconcile_converges :
    (timeout t₁ t₂ t₃ t₄ : ℕ) (f g : Frame) (s : Shared) (k : Str)
    → IsCounter f.counter
    → IsCounter g.counter
    → let fg = (reconcile timeout t₂ g (reconcile timeout t₁ f s).0).0 in
      let gf = (reconcile timeout t₄ f (reconcile timeout t₃ g s).0).0 in
      let again = (reconcile timeout t₄ f (reconcile timeout t₁ f s).0).0 in
      let once = (reconcile timeout t₁ f s).0 in
      ((standing (get k fg.peers) ≡ standing (get k gf.peers))
        × (slot k fg.counter ≡ slot k gf.counter))
      × ((standing (get k again.peers) ≡ standing (get k once.peers))
          × (slot k again.counter ≡ slot k once.counter))
reconcile_converges timeout t₁ t₂ t₃ t₄ f g s k df dg =
    let sf = (reconcile timeout t₁ f s).0 in
    let sg = (reconcile timeout t₃ g s).0 in
    let (a, a') = reconcile_lem timeout t₁ f s k df in
    let (b, b') = reconcile_lem timeout t₂ g sf k dg in
    let (c, c') = reconcile_lem timeout t₃ g s k dg in
    let (d, d') = reconcile_lem timeout t₄ f sg k df in
    let (e, e') = reconcile_lem timeout t₄ f sf k df in
    let hb : highest sf.me k g.updates ≡ highest s.me k g.updates =
      ap (λ m. highest m k g.updates) (reconcile-me timeout t₁ f s) in
    let hd : highest sg.me k f.updates ≡ highest s.me k f.updates =
      ap (λ m. highest m k f.updates) (reconcile-me timeout t₃ g s) in
    let he : highest sf.me k f.updates ≡ highest s.me k f.updates =
      ap (λ m. highest m k f.updates) (reconcile-me timeout t₁ f s) in
    (
      (omega (arith, a, b, c, d, hb, hd), omega (arith, a', b', c', d')),
      (omega (arith, a, e, he), omega (arith, a', e')),
    )

-- A standing fixes the incarnation and the state.
pub standing-injective :
    (p q : Peer)
    → standing (some p) ≡ standing (some q)
    → (p.incarnation ≡ q.incarnation) × (p.state ≡ q.state)
unfolding rank
standing-injective p q h = (
  omega (arith, rank-lt p.state, rank-lt q.state),
  of_states p.state q.state (omega (arith, rank-lt p.state, rank-lt q.state)),
)
  where
    of_states : (t u : MemberState) → rank t ≡ rank u → t ≡ u
    of_states t u h = ground arith

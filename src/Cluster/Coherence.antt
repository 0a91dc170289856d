-- ===== src/Cluster/Coherence.antt =====
-- The membership view and the peer table of `Shared` describe one cluster, whatever arrives.
use pulsate.Prelude.{
  ℕ, ◌+◌, ◌%◌, ◌^◌, ◌≡◌, ◌⊎◌, inl, inr, refl, ◌∙◌, Bool, true, false, not, ◌||◌, ◌&&◌, Option, none,
  some, is_some, List, [], ◌∷◌, Str, str_eq, string_eq, str_eq_iff, get, insert, Distinct,
  get-insert, insert-Distinct, contains, arith, if◌then◌else◌, Bool-cases, Option-cases, leb,
}
use pulsate.Cluster.Members.{
  Membership, join, leave, IsView, join-IsView, leave-IsView, contains-join, contains-leave,
}
use pulsate.Cluster.Wire.{MemberState, alive, suspect, dead, MemberUpdate, Frame}
use pulsate.Cluster.Peers.{
  Peer, Shared, is_dead, is_suspect, is_alive, apply_self, apply_peer, apply_update, apply_updates,
  reconcile, learn, adopt, peer_of, supersedes, mark_suspect, mark_alive,
}

-- A peer that is known and not dead.
abbrev pub is_live : Option Peer → Bool
is_live none = false
is_live (some p) = not (is_dead p.state)

abbrev same_bool : Bool → Bool → Bool
same_bool true b = b
same_bool false b = not b

-- A deadline is set exactly while a peer is suspect.
abbrev pub is_armed : Option Peer → Bool
is_armed none = true
is_armed (some p) = same_bool (is_some p.suspect_deadline) (is_suspect p.state)

pub record IsCoherent (s : Shared) : Type 0 where
  pub view : IsView s.membership
  pub own : s.membership.me ≡ s.me
  pub no_self : get s.me s.peers ≡ none
  pub distinct : Distinct s.peers
  pub live : (k : Str) → contains k s.membership.nodes ≡ (str_eq s.me k || is_live (get k s.peers))
  pub armed : (k : Str) → is_armed (get k s.peers) ≡ true

join-me : (node : Str) (m : Membership) → (join node m).me ≡ m.me
unfolding join
join-me node m = refl

pub leave-me : (node : Str) (m : Membership) → (leave node m).me ≡ m.me
unfolding leave
leave-me node m = ground arith

-- A new entry for a peer, with a view that follows it.
set_peer :
    (k : Str) (p : Peer) (m : Membership) (s : Shared)
    → str_eq k s.me ≡ false
    → is_armed (some p) ≡ true
    → IsView m
    → m.me ≡ s.me
    → ((j : Str)
        → contains j m.nodes
          ≡ (if str_eq k j then is_live (some p) else contains j s.membership.nodes))
    → IsCoherent s
    → IsCoherent (record s { membership = m; peers = insert k p s.peers })
set_peer k p m s other fit view own follows c = record {
  view = view;
  own = own;
  no_self = ground (arith, get-insert k s.me p s.peers, c.no_self);
  distinct = insert-Distinct k p s.peers c.distinct;
  live = λ j. ground (
    arith,
    follows j,
    c.live j,
    get-insert k j p s.peers,
    str_eq_iff k j,
    str_eq_iff k s.me,
    str_eq_iff s.me j,
  );
  armed = λ j. ground (arith, c.armed j, get-insert k j p s.peers);
}

module _ (k : Str) (s : Shared) (other : str_eq k s.me ≡ false) (c : IsCoherent s) where
  -- The three ways in which the view follows an entry.
  set_joined :
      (p : Peer)
      → is_armed (some p) ≡ true
      → is_dead p.state ≡ false
      → IsCoherent (record s { membership = join k s.membership; peers = insert k p s.peers })
  set_joined p fit here =
      set_peer k p (join k s.membership) s other fit (join-IsView k s.membership c.view)
        (join-me k s.membership ∙ c.own)
        (λ j. ground (arith, contains-join k j s.membership, str_eq_iff k j)) c

  set_left :
      (p : Peer)
      → is_armed (some p) ≡ true
      → is_dead p.state ≡ true
      → IsCoherent (record s { membership = leave k s.membership; peers = insert k p s.peers })
  set_left p fit gone =
      set_peer k p (leave k s.membership) s other fit (leave-IsView k s.membership c.view)
        (leave-me k s.membership ∙ c.own)
        (λ j. ground (arith, contains-leave k j s.membership c.view, str_eq_iff k j, c.own)) c

  set_unmoved :
      (p : Peer)
      → is_armed (some p) ≡ true
      → is_live (some p) ≡ is_live (get k s.peers)
      → IsCoherent (record s { peers = insert k p s.peers })
  set_unmoved p fit same =
      set_peer k p s.membership s other fit c.view c.own
        (λ j. ground (arith, c.live j, str_eq_iff k j, str_eq_iff s.me j, str_eq_iff k s.me)) c

apply_peer-IsCoherent :
    (u : MemberUpdate) (deadline : ℕ) (s : Shared)
    → str_eq u.node s.me ≡ false
    → IsCoherent s
    → IsCoherent (apply_peer u deadline s)
unfolding apply_peer
apply_peer-IsCoherent u deadline s other c = elim (Option-cases (get u.node s.peers)) [
  | inl e ↦ rw (e, apply_peer) (new_peer e (Bool-cases (is_dead u.state)))
  | inr (p, e) ↦ elim (Bool-cases (supersedes u p)) [
    | inl newer ↦ rw (e, apply_peer, newer) (known_peer (Bool-cases (is_dead u.state)))
    | inr older ↦ rw (e, apply_peer, older) c
  ]
]
  where
    armed : is_armed (some (peer_of u deadline)) ≡ true
    armed = of_state u.state refl
      where
        of_state : (t : MemberState) → u.state ≡ t → is_armed (some (peer_of u deadline)) ≡ true
        of_state alive e = rw e refl
        of_state suspect e = rw e refl
        of_state dead e = rw e refl

    new_peer :
        get u.node s.peers ≡ none
        → (is_dead u.state ≡ true) ⊎ (is_dead u.state ≡ false)
        → IsCoherent (learn u deadline s)
    new_peer e (inl d) =
        rw d (set_unmoved u.node s other c (peer_of u deadline) armed (rw (e, d) refl))
    new_peer e (inr d) = rw d (set_joined u.node s other c (peer_of u deadline) armed d)

    known_peer :
        (is_dead u.state ≡ true) ⊎ (is_dead u.state ≡ false) → IsCoherent (adopt u deadline s)
    known_peer (inl d) = rw d (set_left u.node s other c (peer_of u deadline) armed d)
    known_peer (inr d) = rw d (set_joined u.node s other c (peer_of u deadline) armed d)

-- Fields that coherence does not read may change.
with_incarnation-IsCoherent :
    (n : ℕ) (s : Shared) → IsCoherent s → IsCoherent (record s { incarnation = n })
with_incarnation-IsCoherent n s c = record {
  view = c.view;
  own = c.own;
  no_self = c.no_self;
  distinct = c.distinct;
  live = c.live;
  armed = c.armed;
}

pub apply_update-IsCoherent :
    (timeout now : ℕ) (u : MemberUpdate) (s : Shared)
    → IsCoherent s
    → IsCoherent (apply_update timeout now u s).0
unfolding apply_update apply_self
apply_update-IsCoherent timeout now u s c = elim (Bool-cases (str_eq u.node s.me)) [
  | inl mine ↦
      rw (mine, apply_update)
        (elim (Bool-cases
          ((is_suspect u.state || is_dead u.state) && leb s.incarnation u.incarnation)) [
            | inl hit ↦ rw hit (with_incarnation-IsCoherent ((u.incarnation + 1) % 2 ^ 64) s c)
            | inr miss ↦ rw miss c
          ])
  | inr other ↦ rw (other, apply_update) (apply_peer-IsCoherent u (now + timeout) s other c)
]

apply_updates-IsCoherent :
    (timeout now : ℕ) (us : List MemberUpdate) (s : Shared) (refuted : Bool)
    → IsCoherent s
    → IsCoherent (apply_updates timeout now us (s, refuted)).0
unfolding apply_updates
apply_updates-IsCoherent timeout now [] s refuted c = c
apply_updates-IsCoherent timeout now (u ∷ us) s refuted c =
    apply_updates-IsCoherent timeout now us (apply_update timeout now u s).0
      (refuted || (apply_update timeout now u s).1) (apply_update-IsCoherent timeout now u s c)

pub reconcile-IsCoherent :
    (timeout now : ℕ) (frame : Frame) (s : Shared)
    → IsCoherent s
    → IsCoherent (reconcile timeout now frame s).0
unfolding reconcile
reconcile-IsCoherent timeout now frame s c =
    let d = apply_updates-IsCoherent timeout now frame.updates s false c in
    record {
      view = d.view;
      own = d.own;
      no_self = d.no_self;
      distinct = d.distinct;
      live = d.live;
      armed = d.armed;
    }

-- A node that is in the table is not the node itself.
pub known-other :
    (k : Str) (p : Peer) (s : Shared)
    → IsCoherent s
    → get k s.peers ≡ some p
    → str_eq k s.me ≡ false
known-other k p s c e = ground (arith, str_eq_iff k s.me, c.no_self)

pub mark_suspect-IsCoherent :
    (timeout now : ℕ) (k : Str) (s : Shared)
    → IsCoherent s
    → IsCoherent (mark_suspect timeout now k s)
unfolding mark_suspect
mark_suspect-IsCoherent timeout now k s c = elim (Option-cases (get k s.peers)) [
  | inl e ↦ rw (e, mark_suspect) c
  | inr (p, e) ↦ elim (Bool-cases (is_alive p.state)) [
    | inr other ↦ rw (e, mark_suspect, other) c
    | inl up ↦
        rw (e, mark_suspect, up)
          (set_unmoved k s (known-other k p s c e) c
            (record p { state = suspect; suspect_deadline = some (now + timeout) }) refl
            (ground arith))
  ]
]

pub mark_alive-IsCoherent : (k : Str) (s : Shared) → IsCoherent s → IsCoherent (mark_alive k s)
unfolding mark_alive
mark_alive-IsCoherent k s c = elim (Option-cases (get k s.peers)) [
  | inl e ↦ rw (e, mark_alive) c
  | inr (p, e) ↦ elim (Bool-cases (is_dead p.state)) [
    | inl gone ↦ rw (e, mark_alive, gone) c
    | inr up ↦
        rw (e, mark_alive, up)
          (set_joined k s (known-other k p s c e) c
            (record p { state = alive; suspect_deadline = none }) refl refl)
  ]
]

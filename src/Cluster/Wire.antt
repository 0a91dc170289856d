-- ===== src/Cluster/Wire.antt =====
-- crates/pulsate-cluster/src/gossip/wire.rs: what a datagram carries. Its encoding is the postcard
-- crate's, which is no code of this repository.
use pulsate.Prelude.{ℕ, List, Str}
use pulsate.Net.{SocketAddr}
use pulsate.Cluster.Counter.{GCounter}

abbrev pub protocol_version : ℕ
protocol_version = 1

pub data MemberState : Type 0 where
  alive suspect dead : MemberState

unfoldable pub rank : MemberState → ℕ
rank alive = 0
rank suspect = 1
rank dead = 2

pub record MemberUpdate : Type 0 where
  pub node : Str
  pub addr : SocketAddr
  pub incarnation : ℕ
  pub state : MemberState

pub data Kind : Type 0 where
  ping ack : Kind
  ping_req : SocketAddr → Kind

pub record Frame : Type 0 where
  pub version : ℕ
  pub from : Str
  pub from_addr : SocketAddr
  pub seq : ℕ
  pub kind : Kind
  pub updates : List MemberUpdate
  pub counter : GCounter

-- ===== src/Cluster.antt =====
-- crates/pulsate-cluster: the replicated counter, the membership view and the gossip state.
mod Counter
mod Replicas
mod Members
mod Wire
mod Peers
mod Coherence
mod Reaping
mod Convergence
mod Refutation
mod History
mod Runtime
mod Dispatch
mod Driving
mod Tests

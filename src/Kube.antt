-- ===== src/Kube.antt =====
-- internal/kube: the client of a managed cluster's kube-apiserver, as far as it drains a node.
pub mod Drain
pub mod Rounds

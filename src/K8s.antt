-- ===== src/K8s.antt =====
-- internal/k8s: the pod of a cgroup path, and the client of the kubelet.
pub mod Paths
pub mod Kubelet
pub mod Tests

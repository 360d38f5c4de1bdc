-- ===== src/Examples/Drains.antt =====
-- Runs of internal/kube/client.go, on a node with a pod that its budget protects at first.
use medea.Prelude.{ℕ, zero, suc, ◌==◌, bytes, Bool, true, false, [], ◌∷◌, ◌≡◌, refl}
use medea.Error.{ok, err, fault}
use medea.Kube.Drain.{
  Pod, Apiserver, Drainer, is_evictable, to_evict, drain, drain_timed_out, pod_path,
}
use medea.Kube.Rounds.{Drained, drain-Drained}

abbrev web : Pod
web = record {
  namespace = bytes "shop";
  name = bytes "web";
  phase = bytes "Running";
  terminating = false;
  annotations = [];
  owner_kinds = bytes "ReplicaSet" ∷ [];
}

abbrev proxy : Pod
proxy = record {
  namespace = bytes "kube-system";
  name = bytes "proxy";
  phase = bytes "Running";
  terminating = false;
  annotations = [];
  owner_kinds = bytes "DaemonSet" ∷ [];
}

-- The evictions that the budget still refuses.
instance abbrev lab_apiserver : Apiserver
lab_apiserver = record {
  Env = ℕ × Bool;
  pod_succeeded = bytes "Succeeded";
  pod_failed = bytes "Failed";
  mirror_key = bytes "kubernetes.io/config.mirror";
  is_not_found = λ _. false;
  is_too_many_requests = λ _. true;
  patch = λ _ _ n. (ok tt, n);
  list_pods = λ _ n. elim n.1 [ true ↦ (ok (proxy ∷ []), n) | false ↦ (ok (web ∷ proxy ∷ []), n) ];
  evict = λ _ _ n. elim n.0 [
    | zero ↦ (ok tt, (zero, true))
    | suc k ↦ (err (fault (bytes "429")), (k, false))
  ];
  expired = λ n. (false, n);
  wait_done = λ n. (false, n);
}

abbrev protected : Drainer
protected = record { env = (1, false); requests = [] }

proxy_stays : is_evictable proxy ≡ false
unfolding is_evictable ◌==◌ bytes
proxy_stays = refl

second_round_drains : (drain (bytes "w1") 3 protected).0 ≡ ok tt
unfolding drain to_evict ◌==◌ bytes
second_round_drains = refl

web_blocks :
    (drain (bytes "w1") 0 protected).0 ≡ err (drain_timed_out (bytes "w1") (pod_path web ∷ []))
unfolding drain to_evict ◌==◌ bytes
web_blocks = refl

drain-Drained_example :
    Drained
      (bytes "w1")
      []
      (drain (bytes "w1") 3 protected).0
      (drain (bytes "w1") 3 protected).1.requests
drain-Drained_example = drain-Drained (bytes "w1") 3 protected

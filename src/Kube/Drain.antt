-- ===== src/Kube/Drain.antt =====
-- Cordon and Drain of internal/kube/client.go.
use medea.Prelude.{
  ℕ, zero, suc, Bytes, bytes, Bool, true, false, ◌==◌, ◌||◌, List, [], ◌∷◌, ◌++◌, map,
  if◌then◌else◌,
}
use medea.Error.{Error, errorf, wrap, Result, ok, Exec, return, raise, attempt, ◌>>=◌, ◌>>◌}

-- A corev1.Pod, as far as the drain reads it: of the annotations the keys, of the owners the kinds.
pub record Pod : Type 0 where
  pub namespace : Bytes
  pub name : Bytes
  pub phase : Bytes
  pub terminating : Bool
  pub annotations : List Bytes
  pub owner_kinds : List Bytes

-- client-go, which may answer anything, with the constants and the error tests that the client
-- takes from the Kubernetes libraries. `expired` is whether dctx.Err() is set, and `wait_done`
-- which case of the select on the context and the poll timer is taken.
pub record Apiserver : Type 1 where
  pub Env : Type 0
  pub pod_succeeded : Bytes
  pub pod_failed : Bytes
  pub mirror_key : Bytes
  pub is_not_found : Error → Bool
  pub is_too_many_requests : Error → Bool
  pub patch : Bytes → Bool → Env → Result (Unit {0}) × Env
  pub list_pods : Bytes → Env → Result (List Pod) × Env
  pub evict : Bytes → Bytes → Env → Result (Unit {0}) × Env
  pub expired : Env → Bool × Env
  pub wait_done : Env → Bool × Env

-- A request with its answer: a patch of a node's `unschedulable`, a list of a node's pods, an
-- eviction.
pub data Request : Type 0 where
  patched : Bytes → Bool → Result (Unit {0}) → Request
  listed : Bytes → Result (List Pod) → Request
  evicted : Pod → Result (Unit {0}) → Request

unfoldable pub has_text : Bytes → List Bytes → Bool
has_text b [] = false
has_text b (c ∷ cs) = b == c || has_text b cs

-- strings.Join
unfoldable pub join : Bytes → List Bytes → Bytes
join sep [] = []
join sep (b ∷ []) = b
join sep (b ∷ c ∷ cs) = b ++ sep ++ join sep (c ∷ cs)

abbrev pub pod_path : Pod → Bytes
pod_path p = p.namespace ++ bytes "/" ++ p.name

unfoldable pub drain_timed_out : Bytes → List Bytes → Error
unfolding join
drain_timed_out name remaining =
    errorf "drain %s timed out; pods remaining: %s" (name ∷ join (bytes ", ") remaining ∷ [])

unfoldable pub no_pods : List Pod → Bool
no_pods [] = true
no_pods (p ∷ ps) = false

module _ ⦃api : Apiserver⦄ where
  unfoldable pub is_evictable : Pod → Bool
  unfolding has_text
  is_evictable p =
      if p.phase == api.pod_succeeded || p.phase == api.pod_failed
      then false
      else if p.terminating
      then false
      else if has_text api.mirror_key p.annotations
      then false
      else if has_text (bytes "DaemonSet") p.owner_kinds
      then false
      else true

  unfoldable pub to_evict : List Pod → List Pod
  unfolding is_evictable
  to_evict [] = []
  to_evict (p ∷ ps) = let rest = to_evict ps in if is_evictable p then p ∷ rest else rest

  -- `requests` are the requests made so far, the latest first.
  pub record Drainer : Type 0 where
    pub env : api.Env
    pub requests : List Request

  abbrev pub request :
      {A : Type 0} → (api.Env → Result A × api.Env) → (Result A → Request) → Exec Drainer A
  request op note d =
      let (r, e) = op d.env in (r, record { env = e; requests = note r ∷ d.requests })

  abbrev pub ask : (api.Env → Bool × api.Env) → Exec Drainer Bool
  ask op d = let (b, e) = op d.env in (ok b, record d { env = e })

  unfoldable pub set_unschedulable : Bytes → Bool → Exec Drainer (Unit {0})
  set_unschedulable name v = request (api.patch name v) (patched name v)

  unfoldable pub cordon : Bytes → Exec Drainer (Unit {0})
  unfolding set_unschedulable
  cordon name = set_unschedulable name true

  unfoldable pub uncordon : Bytes → Exec Drainer (Unit {0})
  unfolding set_unschedulable
  uncordon name = set_unschedulable name false

  -- The evictions of a round. A pod that is gone already or that a budget protects is passed over.
  unfoldable pub evict_all : List Pod → Exec Drainer (Unit {0})
  evict_all [] = return tt
  evict_all (p ∷ ps) =
      let rest = evict_all ps in
      attempt (request (api.evict p.namespace p.name) (evicted p))
        (λ e.
          if api.is_not_found e || api.is_too_many_requests e
          then rest
          else raise (wrap "evict %s/%s: %w" (p.namespace ∷ p.name ∷ []) e))
        (λ _. rest)

  -- The loop of Drain. With no rounds left the context is done at the end of the round; before
  -- that, `wait_done` says whether it is.
  unfoldable pub drain_rounds : ℕ → Bytes → List Bytes → Exec Drainer (Unit {0})
  unfolding to_evict no_pods evict_all drain_timed_out
  drain_rounds zero name remaining =
      attempt (request (api.list_pods name) (listed name))
        (λ e. do
          over ← ask api.expired
          if over then raise (drain_timed_out name remaining) else raise e)
        (λ pods. if no_pods (to_evict pods) then return tt else do
          evict_all (to_evict pods)
          raise (drain_timed_out name (map pod_path (to_evict pods))))
  drain_rounds (suc n) name remaining =
      let again = drain_rounds n name in
      attempt (request (api.list_pods name) (listed name))
        (λ e. do
          over ← ask api.expired
          if over then raise (drain_timed_out name remaining) else raise e)
        (λ pods. if no_pods (to_evict pods) then return tt else do
          evict_all (to_evict pods)
          over ← ask api.wait_done
          if over
              then raise (drain_timed_out name (map pod_path (to_evict pods)))
              else again (map pod_path (to_evict pods)))

  -- Drain, where the timeout has room for `rounds` polls, one each drainPollInterval.
  unfoldable pub drain : Bytes → ℕ → Exec Drainer (Unit {0})
  unfolding cordon drain_rounds
  drain name rounds = do cordon name; drain_rounds rounds name []

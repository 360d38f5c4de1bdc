-- ===== src/Kube/Rounds.antt =====
-- What Drain of internal/kube/client.go asks of the cluster, and how it ends.
use medea.Prelude.{
  ℕ, zero, suc, Bytes, Bool, true, false, List, [], ◌∷◌, ◌≡◌, refl, sym, subst, ◌||◌, map,
  Bool-cases, inl, inr, if◌then◌else◌,
}
use medea.Error.{Error, wrap, Result, ok, err, Exec, return, raise, ◌>>◌}
use medea.Triple.{Leads, Leads-return, Leads-raise, Leads-if, Leads-attempt, by_answer}
use mathlib.Core.List.{Memᴰ}
use mathlib.Core.List.Memᴰ.{not-nil, cases_cons, head, tail}
use medea.Kube.Drain.{
  Pod, Apiserver, Request, patched, listed, evicted, pod_path, drain_timed_out, no_pods,
  is_evictable, to_evict, Drainer, request, ask, set_unschedulable, cordon, evict_all, drain_rounds,
  drain,
}

module _ ⦃api : Apiserver⦄ where
  -- The requests of a drain of the node, with the pods of the latest list: a cordon that went
  -- through, then lists of the node's pods, and evictions, each of an evictable pod of that list.
  pub data Rounds (name : Bytes) (cs : List Request) : List Pod → List Request → Type 0 where
    cordoned : (u : Unit {0}) → Rounds name cs [] (patched name true (ok u) ∷ cs)
    looked :
        {pods : List Pod} {l : List Request} (now : List Pod)
        → Rounds name cs pods l
        → Rounds name cs now (listed name (ok now) ∷ l)
    asked :
        {pods : List Pod} {l : List Request} (p : Pod) (r : Result (Unit {0}))
        → Memᴰ p pods
        → is_evictable p ≡ true
        → Rounds name cs pods l
        → Rounds name cs pods (evicted p r ∷ l)

  -- How a drain ends, with its requests.
  pub data Drained (name : Bytes) (cs : List Request)
      : Result (Unit {0}) → List Request → Type 0 where
    refused : (e : Error) → Drained name cs (err e) (patched name true (err e) ∷ cs)
    unlisted :
        {pods : List Pod} {l : List Request} (e x : Error)
        → Rounds name cs pods l
        → Drained name cs (err e) (listed name (err x) ∷ l)
    stopped :
        {pods : List Pod} {l : List Request} (e : Error)
        → Rounds name cs pods l
        → Drained name cs (err e) l
    emptied :
        {before : List Pod} {l : List Request} (u : Unit {0}) (pods : List Pod)
        → ((p : Pod) → Memᴰ p pods → is_evictable p ≡ false)
        → Rounds name cs before l
        → Drained name cs (ok u) (listed name (ok pods) ∷ l)

  to_evict_none :
      (pods : List Pod)
      → no_pods (to_evict pods) ≡ true
      → (p : Pod) → Memᴰ p pods
      → is_evictable p ≡ false
  unfolding to_evict no_pods
  to_evict_none [] h p m = elim (not-nil m) [ ]
  to_evict_none (x ∷ xs) h p m = elim (Bool-cases (is_evictable x)) [
    | inl is ↦ cc (h, is)
    | inr off ↦ elim (cases_cons m) [
      | inl e ↦ subst (λ q. is_evictable q ≡ false) (sym e) off
      | inr later ↦ to_evict_none xs (cc (h, off)) p later
    ]
  ]

  to_evict_sound :
      (pods : List Pod) (p : Pod) → Memᴰ p (to_evict pods) → Memᴰ p pods × (is_evictable p ≡ true)
  unfolding to_evict
  to_evict_sound [] p m = elim (not-nil m) [ ]
  to_evict_sound (x ∷ xs) p m = on (to_evict_sound xs p) (is_evictable x) refl m
    where
      on :
          (Memᴰ p (to_evict xs) → Memᴰ p xs × (is_evictable p ≡ true))
          → (b : Bool) → is_evictable x ≡ b
          → Memᴰ p (if b then x ∷ to_evict xs else to_evict xs)
          → Memᴰ p (x ∷ xs) × (is_evictable p ≡ true)
      on below true h m = elim (cases_cons m) [
        | inl e ↦ (head e, subst (λ q. is_evictable q ≡ true) (sym e) h)
        | inr later ↦ let (k, y) = below later in (tail k, y)
      ]
      on below false h m = let (k, y) = below m in (tail k, y)

  module _ (name : Bytes) (cs : List Request) where
    abbrev Ends : Exec Drainer (Unit {0}) → Drainer → Type 0
    Ends m d = Drained name cs (m d).0 (m d).1.requests

    abbrev In : List Pod → Drainer → Type 0
    In pods d = Rounds name cs pods d.requests

    evict_all-Rounds :
        (pods ps : List Pod)
        → ((p : Pod) → Memᴰ p ps → Memᴰ p pods × (is_evictable p ≡ true))
        → Leads (In pods) (In pods) (evict_all ps)
    unfolding evict_all
    evict_all-Rounds pods [] h = Leads-return (λ _ k. k) tt
    evict_all-Rounds pods (p ∷ ps) h =
        let rest = evict_all-Rounds pods ps (λ q m. h q (tail m)) in
        Leads-attempt (request (api.evict p.namespace p.name) (evicted p)) _ (λ _. evict_all ps)
          record {
            at = λ d k.
                let (m, y) = h p (head refl) in
                asked p (api.evict p.namespace p.name d.env).0 m y k;
          }
          (λ e.
            Leads-if (api.is_not_found e || api.is_too_many_requests e) (evict_all ps)
              (raise (wrap "evict %s/%s: %w" (p.namespace ∷ p.name ∷ []) e)) rest
              (Leads-raise (λ _ k. k) _))
          (λ _. rest)

    -- The pods of a list, with what comes after the evictions.
    settle-Drained :
        (before pods : List Pod) (l : List Request) (next : Exec Drainer (Unit {0}))
        → ((d : Drainer) → In pods d → Ends next d)
        → Rounds name cs before l
        → (d : Drainer) → d.requests ≡ listed name (ok pods) ∷ l
        → Ends (if no_pods (to_evict pods) then return tt else do evict_all (to_evict pods); next) d
    settle-Drained before pods l next goes k d h = on (no_pods (to_evict pods)) refl
      where
        on :
            (b : Bool)
            → no_pods (to_evict pods) ≡ b
            → Ends (if b then return tt else do evict_all (to_evict pods); next) d
        on true e =
            subst (Drained name cs (ok tt)) (sym h) (emptied tt pods (to_evict_none pods e) k)
        on false e =
            by_answer {A = Unit {0}} (λ _ s. In pods s) (λ r s. Drained name cs r s.requests) raise
              (λ _. next) (λ x s i. stopped x i) (λ _ s i. goes s i) (evict_all (to_evict pods) d).0
              (evict_all (to_evict pods) d).1
              ((evict_all-Rounds pods (to_evict pods) (to_evict_sound pods)).at d
                (subst (Rounds name cs pods) (sym h) (looked pods k)))

    choose-Drained :
        {pods : List Pod} (b : Bool) (x : Error) (next : Exec Drainer (Unit {0})) (d : Drainer)
        → In pods d
        → Ends next d
        → Ends (if b then raise x else next) d
    choose-Drained true x next d i h = stopped x i
    choose-Drained false x next d i h = h

    lost-Drained :
        {before : List Pod} (l : List Request) (b : Bool) (x y e : Error) (d : Drainer)
        → Rounds name cs before l
        → d.requests ≡ listed name (err e) ∷ l
        → Ends (if b then raise x else raise y) d
    lost-Drained l true x y e d k h = subst (Drained name cs (err x)) (sym h) (unlisted x e k)
    lost-Drained l false x y e d k h = subst (Drained name cs (err y)) (sym h) (unlisted y e k)

    drain_rounds-Drained :
        (n : ℕ) (remaining : List Bytes) (before : List Pod) (d : Drainer)
        → In before d
        → Ends (drain_rounds n name remaining) d
    unfolding drain_rounds
    drain_rounds-Drained zero remaining before d k =
        by_answer {A = List Pod} (λ r s. s.requests ≡ listed name r ∷ d.requests)
          (λ r s. Drained name cs r s.requests) _ _
          (λ e s h.
            lost-Drained d.requests (api.expired s.env).0 (drain_timed_out name remaining) e e
              (ask api.expired s).1 k h)
          (λ pods s h.
            settle-Drained before pods d.requests
              (raise (drain_timed_out name (map pod_path (to_evict pods)))) (λ _ i. stopped _ i) k s
              h)
          (api.list_pods name d.env).0 (request (api.list_pods name) (listed name) d).1 refl
    drain_rounds-Drained (suc n) remaining before d k =
        by_answer {A = List Pod} (λ r s. s.requests ≡ listed name r ∷ d.requests)
          (λ r s. Drained name cs r s.requests) _ _
          (λ e s h.
            lost-Drained d.requests (api.expired s.env).0 (drain_timed_out name remaining) e e
              (ask api.expired s).1 k h)
          (λ pods s h.
            settle-Drained before pods d.requests _
              (λ t i.
                choose-Drained (api.wait_done t.env).0
                  (drain_timed_out name (map pod_path (to_evict pods)))
                  (drain_rounds n name (map pod_path (to_evict pods))) (ask api.wait_done t).1 i
                  (drain_rounds-Drained n (map pod_path (to_evict pods)) pods
                    (ask api.wait_done t).1 i))
              k s h)
          (api.list_pods name d.env).0 (request (api.list_pods name) (listed name) d).1 refl

  -- What a Drain of a node asks of the cluster, and how it ends, whatever the cluster answers and
  -- however many rounds the timeout has room for. It is refused the cordon, returns that error and
  -- asks nothing more; or the cordon goes through, and after it come only lists of the node's pods
  -- and evictions, each of an evictable pod of the latest list. It returns no error only if its
  -- last request was a list in which no pod is evictable.
  pub drain-Drained :
      (name : Bytes) (rounds : ℕ) (d : Drainer)
      → Drained name d.requests (drain name rounds d).0 (drain name rounds d).1.requests
  unfolding drain cordon set_unschedulable
  drain-Drained name rounds d =
      by_answer {A = Unit {0}} (λ r s. s.requests ≡ patched name true r ∷ d.requests)
        (λ r s. Drained name d.requests r s.requests) raise (λ _. drain_rounds rounds name [])
        (λ e s h. subst (Drained name d.requests (err e)) (sym h) (refused e))
        (λ u s h.
          drain_rounds-Drained name d.requests rounds [] [] s
            (subst (Rounds name d.requests []) (sym h) (cordoned u)))
        (cordon name d).0 (cordon name d).1 refl

-- ===== src/Provision/Choices.antt =====
-- Which host internal/provision/reconciler.go takes: the first that may be staged, and the lowest
-- of those that may be released.
use medea.Prelude.{
  Bytes, Bool, true, false, Option, none, some, List, [], ◌∷◌, ◌≡◌, refl, sym, ◌∙◌, subst, ◌⊎◌, ◌↔◌,
  inl, inr, bytes_lt, if◌then◌else◌, ◌&&◌, Bool-cases, arith,
}
use mathlib.Core.List.{Memᴰ}
use mathlib.Core.List.Memᴰ.{not-nil, cases_cons}
use medea.Proto.{Host}
use medea.Provision.Hosts.{
  is_registered, is_host_ready, matches_selector, pick_available, better_victim, victim_from,
}

lt_trans : (a b c : Bytes) → bytes_lt a b ≡ true → bytes_lt b c ≡ true → bytes_lt a c ≡ true
unfolding bytes_lt
lt_trans [] [] c h k = cc
lt_trans [] (y ∷ b) [] h k = cc
lt_trans [] (y ∷ b) (z ∷ c) h k = refl
lt_trans (x ∷ a) [] c h k = cc
lt_trans (x ∷ a) (y ∷ b) [] h k = cc
lt_trans (x ∷ a) (y ∷ b) (z ∷ c) h k = ground (arith, lt_trans a b c)

lt_irrefl : (a : Bytes) → bytes_lt a a ≡ false
unfolding bytes_lt
lt_irrefl [] = refl
lt_irrefl (x ∷ a) = ground (arith, lt_irrefl a)

-- What is not below the greater of two is not below the lesser.
above_lesser : (a b c : Bytes) → bytes_lt b c ≡ true → bytes_lt a c ≡ false → bytes_lt a b ≡ false
above_lesser a b c h k = elim (Bool-cases (bytes_lt a b)) [
  | inl below ↦ cc (lt_trans a b c below h ∙ refl, k)
  | inr above ↦ above
]

-- A registered host of the list with the selector's labels.
pub record IsAvailable (hosts : List Host) (selector : List (Bytes × Bytes)) (h : Host)
    : Type 0 where
  pub among : Memᴰ h hosts
  pub registered : is_registered h.state ≡ true
  pub matches : matches_selector h.labels selector ≡ true

both : (a b : Bool) → (a && b) ≡ true → (a ≡ true) × (b ≡ true)
both true true h = (refl, refl)
both true false h = cc
both false b h = cc

pub pick_available-IsAvailable :
    (hosts : List Host) (selector : List (Bytes × Bytes)) (h : Host)
    → pick_available hosts selector ≡ some h
    → IsAvailable hosts selector h
unfolding pick_available
pick_available-IsAvailable [] selector h q = cc
pick_available-IsAvailable (x ∷ hs) selector h q =
    let later = pick_available-IsAvailable hs selector h in
    elim (Bool-cases (is_registered x.state && matches_selector x.labels selector)) [
      | inl hit ↦
          let same : x ≡ h = cc (q, hit) in
          let parts = both (is_registered x.state) (matches_selector x.labels selector) hit in
          subst (IsAvailable (x ∷ hs) selector) same
            (record { among = Memᴰ.head refl; registered = parts.0; matches = parts.1 })
      | inr miss ↦
          let a = later (cc (q, miss)) in
          record { among = Memᴰ.tail a.among; registered = a.registered; matches = a.matches }
    ]

-- The host is ready and among those, and no ready one among them is below it.
pub record IsLowest (P : Host → Type 0) (v : Host) : Type 0 where
  pub among : P v
  pub ready : is_host_ready v.state ≡ true
  pub lowest : (h : Host) → P h → is_host_ready h.state ≡ true → bytes_lt h.mac v.mac ≡ false

abbrev pub IsVictim : List Host → Host → Type 0
IsVictim hosts v = IsLowest (λ h. Memᴰ h hosts) v

-- The victim of those gone through, if one of them is ready.
abbrev Best : (Host → Type 0) → Option Host → Type 0
Best P none = (h : Host) → P h → is_host_ready h.state ≡ true → ⊥
Best P (some v) = IsLowest P v

Best-↔ : {P Q : Host → Type 0} (o : Option Host) → ((h : Host) → P h ↔ Q h) → Best P o → Best Q o
Best-↔ none same best = λ h q r. best h ((same h).1 q) r
Best-↔ (some v) same best = record {
  among = (same v).0 best.among;
  ready = best.ready;
  lowest = λ h q r. best.lowest h ((same h).1 q) r;
}

abbrev With : Host → (Host → Type 0) → Host → Type 0
With h P x = (x ≡ h) ⊎ P x

With-elim :
    (C : Host → Type 0) (P : Host → Type 0) (h : Host)
    → C h
    → ((x : Host) → P x → C x)
    → (x : Host) → With h P x
    → C x
With-elim C P h c k x (inl e) = subst C (sym e) c
With-elim C P h c k x (inr p) = k x p

keep-Best :
    (P : Host → Type 0) (o : Option Host) (h : Host)
    → Best P o
    → is_host_ready h.state ≡ false
    → Best (With h P) o
keep-Best P none h best miss =
    With-elim (λ x. is_host_ready x.state ≡ true → ⊥) P h (λ r. cc (r, miss)) best
keep-Best P (some v) h best miss = record {
  among = inr best.among;
  ready = best.ready;
  lowest =
      With-elim (λ x. is_host_ready x.state ≡ true → bytes_lt x.mac v.mac ≡ false) P h
        (λ r. cc (r, miss)) best.lowest;
}

take-Best :
    (P : Host → Type 0) (o : Option Host) (h : Host)
    → Best P o
    → is_host_ready h.state ≡ true
    → Best (With h P) (elim o as (λ _. Option Host) [
      | none ↦ some h
      | some v ↦ if bytes_lt h.mac v.mac then some h else some v
    ])
take-Best P none h best hit = record {
  among = inl refl;
  ready = hit;
  lowest =
      With-elim (λ x. is_host_ready x.state ≡ true → bytes_lt x.mac h.mac ≡ false) P h
        (λ _. lt_irrefl h.mac) (λ x p r. elim (best x p r) [ ]);
}
take-Best P (some v) h best hit = elim (Bool-cases (bytes_lt h.mac v.mac)) [
  | inl below ↦ rw below (record {
    among = inl refl;
    ready = hit;
    lowest =
        With-elim (λ x. is_host_ready x.state ≡ true → bytes_lt x.mac h.mac ≡ false) P h
          (λ _. lt_irrefl h.mac)
          (λ x p r. above_lesser x.mac h.mac v.mac below (best.lowest x p r));
  })
  | inr above ↦ rw above (record {
    among = inr best.among;
    ready = best.ready;
    lowest =
        With-elim (λ x. is_host_ready x.state ≡ true → bytes_lt x.mac v.mac ≡ false) P h
          (λ _. above) best.lowest;
  })
]

better_victim-Best :
    (P : Host → Type 0) (o : Option Host) (h : Host)
    → Best P o
    → Best (With h P) (better_victim o h)
unfolding better_victim
better_victim-Best P o h best = elim (Bool-cases (is_host_ready h.state)) [
  | inr miss ↦ rw miss (keep-Best P o h best miss)
  | inl hit ↦ rw hit (take-Best P o h best hit)
]

victim_from-Best :
    (P : Host → Type 0) (o : Option Host) (hosts : List Host)
    → Best P o
    → Best (λ x. P x ⊎ Memᴰ x hosts) (victim_from o hosts)
unfolding victim_from
victim_from-Best P o [] best =
    Best-↔ o (λ x. (inl, λ s. elim s [ inl p ↦ p | inr m ↦ elim (not-nil m) [ ] ])) best
victim_from-Best P o (h ∷ hs) best =
    Best-↔ (victim_from (better_victim o h) hs) (λ x. (to x, from x))
      (victim_from-Best (With h P) (better_victim o h) hs (better_victim-Best P o h best))
  where
    to : (x : Host) → (With h P x ⊎ Memᴰ x hs) → P x ⊎ Memᴰ x (h ∷ hs)
    to x (inl (inl e)) = inr (Memᴰ.head e)
    to x (inl (inr p)) = inl p
    to x (inr m) = inr (Memᴰ.tail m)

    from : (x : Host) → (P x ⊎ Memᴰ x (h ∷ hs)) → With h P x ⊎ Memᴰ x hs
    from x (inl p) = inl (inr p)
    from x (inr m) = elim (cases_cons m) [ inl e ↦ inl (inl e) | inr n ↦ inr n ]

-- The first loop of scaleIn.
pub victim_from-IsVictim :
    (hosts : List Host) (v : Host) → victim_from none hosts ≡ some v → IsVictim hosts v
victim_from-IsVictim hosts v q =
    Best-↔ {P = λ x. ⊥ ⊎ Memᴰ x hosts} (some v)
      (λ x. (λ s. elim s [ inl p ↦ elim p [ ] | inr m ↦ m ], inr))
      (subst (Best (λ x. ⊥ ⊎ Memᴰ x hosts)) q
        (victim_from-Best (λ x. ⊥) none hosts (λ x p. elim p [ ])))

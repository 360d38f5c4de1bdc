-- ===== src/Auth.antt =====
-- internal/auth/auth.go: the bearer token of a request.
use medea.Prelude.{
  ℕ, Bytes, false, Option, none, some, List, [], ◌∷◌, ◌++◌, ◌≡◌, refl, ◌↔◌, ◌⊎◌, inl, inr, bytes,
  nat_eq, if◌then◌else◌, Bool-cases, arith,
}
use medea.Error.{status, unauthenticated, Result, ok, err, Exec, raise, attempt}

-- crypto/subtle's ConstantTimeCompare, and what it documents: it returns 1 if the two are equal.
pub record Subtle : Type 0 where
  pub constant_time_compare : Bytes → Bytes → ℕ
  pub equal : (a b : Bytes) → (constant_time_compare a b ≡ 1) ↔ (a ≡ b)

-- A request's metadata, if it has any, as the function md.Get: the values of a key.
abbrev pub Metadata : Type 0
Metadata = Option (Bytes → List Bytes)

abbrev pub header_authorization : Bytes
header_authorization = bytes "authorization"

module _ ⦃subtle : Subtle⦄ where
  unfoldable pub check_values : List Bytes → Bytes → Result (Unit {0})
  unfolding bytes
  check_values [] want = err (status unauthenticated)
  check_values (v ∷ vs) want =
      if nat_eq (subtle.constant_time_compare v (bytes "Bearer " ++ want)) 1
      then ok tt
      else err (status unauthenticated)

  unfoldable pub check : Metadata → Bytes → Result (Unit {0})
  unfolding check_values
  check none want = err (status unauthenticated)
  check (some get) want = check_values (get header_authorization) want

  -- UnaryInterceptor and StreamInterceptor: the handler runs on a request that passes.
  unfoldable pub intercept : {S A : Type 0} → Bytes → Metadata → Exec S A → Exec S A
  unfolding check
  intercept token md handler = attempt (λ s. (check md token, s)) raise (λ _. handler)

  -- The first value of the header is the token.
  abbrev pub Bears : Bytes → List Bytes → Type 0
  Bears token [] = ⊥
  Bears token (v ∷ vs) = v ≡ bytes "Bearer " ++ token

  abbrev pub Carries : Bytes → Metadata → Type 0
  Carries token none = ⊥
  Carries token (some get) = Bears token (get header_authorization)

  check_values-Bears :
      (vs : List Bytes) (want : Bytes)
      → ((check_values vs want ≡ ok tt) × Bears want vs)
        ⊎ ((check_values vs want ≡ err (status unauthenticated)) × (Bears want vs → ⊥))
  unfolding check_values
  check_values-Bears [] want = inr (refl, λ b. b)
  check_values-Bears (v ∷ vs) want =
      elim (Bool-cases (nat_eq (subtle.constant_time_compare v (bytes "Bearer " ++ want)) 1)) [
        | inl hit ↦
            inl (rw hit refl, (subtle.equal v (bytes "Bearer " ++ want)).0 (ground (arith, hit)))
        | inr miss ↦
            inr (rw miss refl, λ e. differs ((subtle.equal v (bytes "Bearer " ++ want)).1 e) miss)
      ]
    where
      differs : {n : ℕ} → n ≡ 1 → nat_eq n 1 ≡ false → ⊥
      differs {n} e m = ground arith

  -- Either the first authorization value of a request's metadata is Bearer and the token, and the
  -- intercepted call is the handler's own; or it is not, or is missing, and the call is refused as
  -- unauthenticated, with the handler not run.
  pub intercept_exact :
      {S A : Type 0} (token : Bytes) (md : Metadata) (handler : Exec S A) (s : S)
      → (Carries token md × (intercept token md handler s ≡ handler s))
        ⊎ ((Carries token md → ⊥)
            × (intercept token md handler s ≡ (err (status unauthenticated), s)))
  unfolding intercept check
  intercept_exact token none handler s = inr (λ c. c, refl)
  intercept_exact token (some get) handler s =
      elim (check_values-Bears (get header_authorization) token) [
        | inl (passed, bears) ↦ inl (bears, rw passed refl)
        | inr (refused, other) ↦ inr (other, rw refused refl)
      ]

-- ===== src/Error.antt =====
-- Go's `error` values, as data, and functions that return one beside a result or a new state.
use medea.Prelude.{◌≡◌, refl, String, Bytes, List, Bool, true, false, []}

-- google.golang.org/grpc/codes, those that the program raises.
pub data Code : Type 0 where
  invalid_argument not_found failed_precondition unimplemented aborted internal : Code
  unauthenticated : Code

-- `errorf` is fmt.Errorf, errors.New or a plain text, with the texts that it formats; `show` is a
-- text with another error's text at its end (%v), and `wrap` such an error that wraps (%w). The
-- texts stay unrendered. `status` is a gRPC status error, its text left out; `fault` is an error
-- that a library or a remote party returned.
pub data Error : Type 0 where
  conflict : Error
  status : Code → Error
  errorf : String → List Bytes → Error
  show : String → List Bytes → Error → Error
  wrap : String → List Bytes → Error → Error
  fault : Bytes → Error

-- A message that a record keeps is such a text.
abbrev pub Text : Type 0
Text = Error

abbrev pub no_text : Text
no_text = errorf "" []

pub data Result {ℓ} (A : Type ℓ) : Type ℓ where
  ok : A → Result A
  err : Error → Result A

-- The result is a value.
pub record Given {A : Type 0} (r : Result A) : Type 0 where
  pub value : A
  pub is : r ≡ ok value

unfoldable pub map_result {ℓ κ} : {A : Type ℓ} {B : Type κ} → (A → B) → Result A → Result B
map_result f (ok a) = ok (f a)
map_result f (err e) = err e

-- `a, err := m; if err != nil { return err }; f(a)`, where neither changes a state.
infixl 10 ◌and_then◌
unfoldable pub ◌and_then◌ {ℓ κ} : {A : Type ℓ} {B : Type κ} → Result A → (A → Result B) → Result B
ok a and_then f = f a
err e and_then f = err e

-- What a value that comes out says of the parts.
pub map_result_ok {ℓ κ} :
    {A : Type ℓ} {B : Type κ} (f : A → B) (r : Result A) {b : B}
    → map_result f r ≡ ok b
    → (a : A) × (r ≡ ok a) × (ok (f a) ≡ ok b)
unfolding map_result
map_result_ok f (ok a) h = (a, refl, h)
map_result_ok f (err e) h = cc

pub and_then_ok {ℓ κ} :
    {A : Type ℓ} {B : Type κ} (r : Result A) (f : A → Result B) {b : B}
    → (r and_then f) ≡ ok b
    → (a : A) × (r ≡ ok a) × (f a ≡ ok b)
unfolding ◌and_then◌
and_then_ok (ok a) f h = (a, refl, h)
and_then_ok (err e) f h = cc

-- errors.Is(err, ErrConflict)
unfoldable pub is_conflict : Error → Bool
is_conflict conflict = true
is_conflict (wrap f args e) = is_conflict e
is_conflict _ = false

-- status.FromError(err)
unfoldable pub is_status : Error → Bool
is_status (status c) = true
is_status (wrap f args e) = is_status e
is_status _ = false

-- Code that changes a state and may fail. What was done before the failure stays done.
abbrev pub Exec {ℓ} : Type ℓ → Type ℓ → Type ℓ
Exec S A = S → Result A × S

module _ {ℓ} {S A : Type ℓ} where
  abbrev pub return : A → Exec S A
  return a s = (ok a, s)

  abbrev pub raise : Error → Exec S A
  raise e s = (err e, s)

module _ {ℓ} {S A B : Type ℓ} where
  abbrev pub branch : Result A → (Error → Exec S B) → (A → Exec S B) → Exec S B
  branch (ok a) h f s = f a s
  branch (err e) h f s = h e s

  -- `a, err := m(); if err != nil { return h(err) }; f(a)`
  abbrev pub attempt : Exec S A → (Error → Exec S B) → (A → Exec S B) → Exec S B
  attempt m h f s = let (r, s') = m s in branch r h f s'

  infixl 10 ◌>>=◌ ◌>>◌
  -- `if err != nil { return err }`
  abbrev pub ◌>>=◌ : Exec S A → (A → Exec S B) → Exec S B
  m >>= f = attempt m raise f

  abbrev pub ◌>>◌ : Exec S A → Exec S B → Exec S B
  m >> n = attempt m raise (λ _. n)

-- ===== src/Creds/Fields.antt =====
-- What WriteFields of internal/creds/onepassword_sdk.go makes of an item's fields.
use medea.Prelude.{
  Bytes, Bool, true, false, Option, none, some, List, [], ◌∷◌, ◌≡◌, refl, sym, ap, ◌∙◌, ◌==◌,
  if◌then◌else◌, eq_iff, arith, inl, inr, Bool-cases,
}
use medea.Bolt.{find}
use medea.Creds.Sdk.{ItemField, concealed_field, set_field, set_fields}

-- The value of the first field with the title.
unfoldable pub value_of : Bytes → List ItemField → Option Bytes
value_of n [] = none
value_of n (f ∷ fs) = if f.title == n then some f.value else value_of n fs

-- The keys of a map.
unfoldable pub are_distinct : List (Bytes × Bytes) → Bool
unfolding find
are_distinct [] = true
are_distinct ((k, v) ∷ l) = elim (find k l) [ none ↦ are_distinct l | some _ ↦ false ]

abbrev pub or_else : Option Bytes → Option Bytes → Option Bytes
or_else (some b) o = some b
or_else none o = o

value_of-set_field :
    (n name value : Bytes) (fs : List ItemField)
    → value_of n (set_field name value fs) ≡ (if name == n then some value else value_of n fs)
unfolding value_of set_field concealed_field
value_of-set_field n name value [] = refl
value_of-set_field n name value (f ∷ fs) = ground (
  arith,
  value_of-set_field n name value fs,
  eq_iff f.title name,
  eq_iff name n,
  eq_iff f.title n,
)

find_cons :
    (k v : Bytes) (l : List (Bytes × Bytes))
    → are_distinct ((k, v) ∷ l) ≡ true
    → (find k l ≡ none) × (are_distinct l ≡ true)
unfolding are_distinct
find_cons k v l h = on (find k l) refl h
  where
    on :
        (o : Option Bytes)
        → find k l ≡ o
        → (elim o as (λ _. Bool) [ none ↦ are_distinct l | some _ ↦ false ]) ≡ true
        → (find k l ≡ none) × (are_distinct l ≡ true)
    on none q h = (q, h)
    on (some x) q h = cc

-- In the fields of an item that WriteFields sends to update it, for a map whose keys are distinct,
-- in any order, the first field titled with a name of the map has the map's value, and the first
-- field of any other title the value that it had.
pub set_fields_exact :
    (new : List (Bytes × Bytes)) (fs : List ItemField) (n : Bytes)
    → are_distinct new ≡ true
    → value_of n (set_fields new fs) ≡ or_else (find n new) (value_of n fs)
unfolding set_fields find
set_fields_exact [] fs n h = refl
set_fields_exact ((k, v) ∷ new) fs n h =
    let (fresh, rest) = find_cons k v new h in
    set_fields_exact new (set_field k v fs) n rest
    ∙ ap (or_else (find n new)) (value_of-set_field n k v fs)
    ∙ elim (Bool-cases (k == n)) [
      | inl hit ↦
          let gone : find n new ≡ none = ap (λ x. find x new) (sym ((eq_iff k n).0 hit)) ∙ fresh in
          rw (hit, gone) refl
      | inr miss ↦ rw miss refl
    ]

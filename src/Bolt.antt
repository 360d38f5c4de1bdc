-- ===== src/Bolt.antt =====
-- What the store uses of go.etcd.io/bbolt and of google.golang.org/protobuf: a bucket of records.
-- The library is not part of the repository, so it is an instance argument.
pub mod Memory
use medea.Prelude.{Bytes, Option, none, some, List, [], ◌∷◌, ◌≡◌, ◌==◌, if◌then◌else◌}
use medea.Error.{Result, ok}

-- The first cell with the key.
unfoldable pub find {ℓ} : {C : Type ℓ} → Bytes → List (Bytes × C) → Option C
find k [] = none
find k ((j, c) ∷ l) = if j == k then some c else find k l

-- A bucket holds a cell for each key: the record that the stored bytes decode to, or the decoding
-- error. `put` encodes and writes, and may refuse; so may `delete`. `entries` is ForEach.
pub record Bolt : Type 1 where
  pub Bucket : Type 0 → Type 0
  pub empty : {V : Type 0} → Bucket V
  pub get : {V : Type 0} → Bucket V → Bytes → Option (Result V)
  pub put : {V : Type 0} → Bucket V → Bytes → V → Result (Bucket V)
  pub delete : {V : Type 0} → Bucket V → Bytes → Result (Bucket V)
  pub entries : {V : Type 0} → Bucket V → List (Bytes × Result V)
  pub get-empty : {V : Type 0} (k : Bytes) → get (empty {V = V}) k ≡ none
  pub get-put :
      {V : Type 0} (b b' : Bucket V) (k j : Bytes) (v : V)
      → put b k v ≡ ok b'
      → get b' j ≡ (if k == j then some (ok v) else get b j)
  pub get-delete :
      {V : Type 0} (b b' : Bucket V) (k j : Bytes)
      → delete b k ≡ ok b'
      → get b' j ≡ (if k == j then none else get b j)
  pub get-entries : {V : Type 0} (b : Bucket V) (k : Bytes) → find k (entries b) ≡ get b k

abbrev pub Bucket : ⦃bolt : Bolt⦄ → Type 0 → Type 0
Bucket ⦃bolt⦄ = bolt.Bucket

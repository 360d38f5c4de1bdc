-- ===== src/Bolt/Memory.antt =====
-- A bucket in memory, an instance of the interface on which the examples run.
use medea.Prelude.{Bytes, none, some, List, [], ◌∷◌, ◌≡◌, refl, ◌==◌, if◌then◌else◌, arith, eq_iff}
use medea.Error.{Result, ok}
use medea.Bolt.{Bolt, find}

abbrev pub Cells : Type 0 → Type 0
Cells V = List (Bytes × Result V)

abbrev pub without : {V : Type 0} → Bytes → Cells V → Cells V
without k [] = []
without k ((j, c) ∷ l) = let rest = without k l in if j == k then rest else (j, c) ∷ rest

find-without :
    {V : Type 0} (k j : Bytes) (l : Cells V)
    → find j (without k l) ≡ (if k == j then none else find j l)
unfolding find
find-without k j [] = ground arith
find-without k j ((i, c) ∷ l) =
    ground (arith, find-without k j l, eq_iff i k, eq_iff i j, eq_iff k j)

pub find-put :
    {V : Type 0} (b b' : Cells V) (k j : Bytes) (v : V)
    → ok ((k, ok v) ∷ without k b) ≡ ok b'
    → find j b' ≡ (if k == j then some (ok v) else find j b)
unfolding find
find-put b b' k j v h = ground (arith, find-without k j b)

pub find-delete :
    {V : Type 0} (b b' : Cells V) (k j : Bytes)
    → ok (without k b) ≡ ok b'
    → find j b' ≡ (if k == j then none else find j b)
find-delete b b' k j h = ground (arith, find-without k j b)

pub find-none : {V : Type 0} (k : Bytes) → find {C = Result V} k [] ≡ none
unfolding find
find-none k = refl

instance abbrev pub memory : Bolt
memory = record {
  Bucket = Cells;
  empty = [];
  get = λ b k. find k b;
  put = λ b k v. ok ((k, ok v) ∷ without k b);
  delete = λ b k. ok (without k b);
  entries = λ b. b;
  get-empty = find-none;
  get-put = find-put;
  get-delete = find-delete;
  get-entries = λ b k. refl;
}

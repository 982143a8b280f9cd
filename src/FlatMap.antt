-- ===== src/FlatMap.antt =====
-- tox-sequenced/src/flat_map.rs: a map as a vector of pairs, searched from the front. The keys have
-- a decidable equality (`K: Eq`). A borrowed `&mut V` that the caller writes through is a call of
-- `update` with what the caller does to the value; iterators and the consuming conversions, which
-- hand out the vector, are not modelled.
pub mod Laws
pub mod Sums
use mathlib.Core.Logic.{ite}
use rs_toxcore_c.Prelude.{
  ℕ, Bool, true, false, Option, none, some, List, [], ◌∷◌, ◌++◌, length, if◌then◌else◌,
}

pub record FlatMap {ℓ κ} (K : Type ℓ) (V : Type κ) : Type (ℓ ⊔ κ) where
  pub entries : List (K × V)

module _ {ℓ κ} {K : Type ℓ} {V : Type κ} where
  unfoldable pub new : FlatMap K V
  new = record { entries = [] }

  unfoldable pub len : FlatMap K V → ℕ
  len m = length m.entries

  unfoldable pub keep : (K → V → V × Bool) → List (K × V) → List (K × V)
  keep f [] = []
  keep f ((k, v) ∷ es) = let rest = keep f es in if (f k v).1 then (k, (f k v).0) ∷ rest else rest

  -- The closure may change a value that it keeps.
  unfoldable pub retain : (K → V → V × Bool) → FlatMap K V → FlatMap K V
  unfolding keep
  retain f m = record { entries = keep f m.entries }

module _ {ℓ κ} {K : Type ℓ} {V : Type κ} (eq : Discrete K) where
  -- `.iter().find(..).map(..)`
  unfoldable pub find : K → List (K × V) → Option V
  find key [] = none
  find key ((k, v) ∷ es) = ite (eq k key) (some v) (find key es)

  unfoldable pub get : FlatMap K V → K → Option V
  unfolding find
  get m key = find key m.entries

  unfoldable pub contains_in : K → List (K × V) → Bool
  contains_in key [] = false
  contains_in key ((k, v) ∷ es) = ite (eq k key) true (contains_in key es)

  unfoldable pub contains_key : FlatMap K V → K → Bool
  unfolding contains_in
  contains_key m key = contains_in key m.entries

  -- The first entry with the key, changed in place.
  unfoldable pub write : K → (V → V) → List (K × V) → List (K × V)
  write key f [] = []
  write key f ((k, v) ∷ es) = ite (eq k key) ((k, f v) ∷ es) ((k, v) ∷ write key f es)

  -- `get_mut`, with what the caller does through the reference.
  unfoldable pub update : FlatMap K V → K → (V → V) → FlatMap K V
  unfolding write
  update m key f = record { entries = write key f m.entries }

  unfoldable pub insert : FlatMap K V → K → V → FlatMap K V × Option V
  unfolding find write
  insert m key value = elim (find key m.entries) [
    | some old ↦ (record { entries = write key (λ _. value) m.entries }, some old)
    | none ↦ (record { entries = m.entries ++ (key, value) ∷ [] }, none)
  ]

  -- `.position(..)`, and `Vec::remove` at it.
  unfoldable pub cut : K → List (K × V) → List (K × V)
  cut key [] = []
  cut key ((k, v) ∷ es) = ite (eq k key) es ((k, v) ∷ cut key es)

  unfoldable pub remove : FlatMap K V → K → FlatMap K V × Option V
  unfolding find cut
  remove m key = elim (find key m.entries) [
    | some old ↦ (record { entries = cut key m.entries }, some old)
    | none ↦ (m, none)
  ]

  -- `entry(key).or_insert(default)`, with what the caller does through the reference.
  unfoldable pub entry_or_insert : FlatMap K V → K → V → (V → V) → FlatMap K V
  unfolding find write
  entry_or_insert m key default f = elim (find key m.entries) [
    | some old ↦ record { entries = write key f m.entries }
    | none ↦ record { entries = m.entries ++ (key, f default) ∷ [] }
  ]

  -- `FromIterator`
  unfoldable pub from_list : FlatMap K V → List (K × V) → FlatMap K V
  unfolding insert
  from_list m [] = m
  from_list m ((k, v) ∷ es) = from_list (insert m k v).0 es

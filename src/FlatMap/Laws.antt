-- ===== src/FlatMap/Laws.antt =====
-- The map of tox-sequenced/src/flat_map.rs as a finite function, and its invariant: no key twice.
use mathlib.Core.Logic.{ite}
use rs_toxcore_c.Prelude.{
  ◌≡◌, refl, Option, none, some, List, [], ◌∷◌, ◌++◌, if◌then◌else◌, is_some, arith, Option-cases,
  inl, inr,
}
use rs_toxcore_c.FlatMap.{FlatMap, find, get, write, insert, cut, remove}

module _ {K V : Type 0} (eq : Discrete K) where
  -- No key stands in two entries.
  abbrev pub Distinct : List (K × V) → Type 0
  Distinct [] = Unit
  Distinct ((k, v) ∷ es) = (find eq k es ≡ none) × Distinct es

  abbrev mapped : (V → V) → Option V → Option V
  mapped f none = none
  mapped f (some v) = some (f v)

  pub find-write :
      (key j : K) (f : V → V) (es : List (K × V))
      → find eq j (write eq key f es) ≡ ite (eq key j) (mapped f (find eq j es)) (find eq j es)
  unfolding find write
  find-write key j f [] = ground arith
  find-write key j f ((k, v) ∷ es) = ground (arith, find-write key j f es)

  find-append :
      (j : K) (es fs : List (K × V))
      → find eq j (es ++ fs) ≡ (if is_some (find eq j es) then find eq j es else find eq j fs)
  unfolding find
  find-append j [] fs = refl
  find-append j ((k, v) ∷ es) fs = ground (arith, find-append j es fs)

  find-cut :
      (key j : K) (es : List (K × V))
      → Distinct es
      → find eq j (cut eq key es) ≡ ite (eq key j) none (find eq j es)
  unfolding find cut
  find-cut key j [] d = ground arith
  find-cut key j ((k, v) ∷ es) d = ground (arith, find-cut key j es d.1)

  pub write-Distinct :
      (key : K) (f : V → V) (es : List (K × V)) → Distinct es → Distinct (write eq key f es)
  unfolding write
  write-Distinct key f [] d = tt
  write-Distinct key f ((k, v) ∷ es) d =
      ground (arith, find-write key k f es, write-Distinct key f es d.1)

  pub push-Distinct :
      (key : K) (v : V) (es : List (K × V))
      → find eq key es ≡ none
      → Distinct es
      → Distinct (es ++ (key, v) ∷ [])
  unfolding find
  push-Distinct key v [] e d = (refl, tt)
  push-Distinct key v ((k, w) ∷ es) e d =
      ground (arith, find-append k es ((key, v) ∷ []), push-Distinct key v es)

  pub cut-Distinct : (key : K) (es : List (K × V)) → Distinct es → Distinct (cut eq key es)
  unfolding cut
  cut-Distinct key [] d = tt
  cut-Distinct key ((k, v) ∷ es) d = ground (arith, find-cut key k es d.1, cut-Distinct key es d.1)

  -- `insert` binds the key to the value and leaves the other keys alone; it returns what the key
  -- was bound to, and puts no key in twice.
  insert_lem :
      (m : FlatMap K V) (key : K) (value : V)
      → let (m', old) = insert eq m key value in
        (old ≡ get eq m key)
        × ((j : K) → get eq m' j ≡ ite (eq key j) (some value) (get eq m j))
        × (Distinct m.entries → Distinct m'.entries)
  unfolding insert get
  insert_lem m key value = elim (Option-cases (find eq key m.entries)) [
    | inl e ↦
        rw (e, insert)
          (
            refl,
            λ j. ground (arith, find-append j m.entries ((key, value) ∷ [])),
            push-Distinct key value m.entries e,
          )
    | inr (old, e) ↦
        rw (e, insert)
          (
            refl,
            λ j. ground (arith, find-write key j (λ _. value) m.entries),
            write-Distinct key (λ _. value) m.entries,
          )
  ]

  -- `remove` unbinds the key and leaves the other keys alone, and returns what it was bound to.
  -- No key may stand in two entries before, and none does afterwards.
  remove_lem :
      (m : FlatMap K V) (key : K)
      → Distinct m.entries
      → let (m', old) = remove eq m key in
        (old ≡ get eq m key)
        × ((j : K) → get eq m' j ≡ ite (eq key j) none (get eq m j))
        × Distinct m'.entries
  unfolding remove get
  remove_lem m key d = elim (Option-cases (find eq key m.entries)) [
    | inl e ↦ rw (e, remove) (refl, λ j. ground arith, d)
    | inr (old, e) ↦
        rw (e, remove) (refl, λ j. find-cut key j m.entries d, cut-Distinct key m.entries d)
  ]

  pub remove_found :
      (m : FlatMap K V) (key : K) (v : V)
      → find eq key m.entries ≡ some v
      → remove eq m key ≡ (record { entries = cut eq key m.entries }, some v)
  unfolding remove
  remove_found m key v e = rw (e, remove) refl

  pub remove_missing :
      (m : FlatMap K V) (key : K) → find eq key m.entries ≡ none → remove eq m key ≡ (m, none)
  unfolding remove
  remove_missing m key e = rw (e, remove) refl

  pub insert_missing :
      (m : FlatMap K V) (key : K) (v : V)
      → find eq key m.entries ≡ none
      → insert eq m key v ≡ (record { entries = m.entries ++ (key, v) ∷ [] }, none)
  unfolding insert
  insert_missing m key v e = rw (e, insert) refl

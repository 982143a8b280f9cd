-- ===== src/FlatMap/Sums.antt =====
-- Sums over the values of a map of tox-sequenced/src/flat_map.rs, and predicates on all of them.
use mathlib.Core.Logic.{if_pos, if_neg}
use rs_toxcore_c.Prelude.{ℕ, ◌+◌, ◌≤◌, ◌≡◌, refl, subst, some, List, [], ◌∷◌, ◌++◌, arith, length}
use rs_toxcore_c.FlatMap.{find, write, cut}

module _ {K V : Type 0} where
  unfoldable pub weigh : (V → ℕ) → List (K × V) → ℕ
  weigh w [] = 0
  weigh w ((k, v) ∷ es) = w v + weigh w es

  -- A predicate on every value.
  abbrev pub AllValues : (V → Type 0) → List (K × V) → Type 0
  AllValues P [] = Unit
  AllValues P ((k, v) ∷ es) = P v × AllValues P es

module _ {K V : Type 0} (w : V → ℕ) where
  pub weigh-push :
      (es : List (K × V)) (k : K) (v : V) → weigh w (es ++ (k, v) ∷ []) ≡ weigh w es + w v
  unfolding weigh
  weigh-push [] k v = omega arith
  weigh-push ((j, u) ∷ es) k v = omega (arith, weigh-push es k v)

module _ {K V : Type 0} (eq : Discrete K) (w : V → ℕ) where
  pub weigh-cut :
      (key : K) (es : List (K × V)) (v : V)
      → find eq key es ≡ some v
      → weigh w (cut eq key es) + w v ≡ weigh w es
  unfolding weigh find cut
  weigh-cut key [] v e = cc
  weigh-cut key ((k, u) ∷ es) v e = ground (arith, weigh-cut key es v)

  pub weigh-write :
      (key : K) (f : V → V) (es : List (K × V)) (v : V)
      → find eq key es ≡ some v
      → weigh w (write eq key f es) + w v ≡ weigh w es + w (f v)
  unfolding weigh find write
  weigh-write key f [] v e = cc
  weigh-write key f ((k, u) ∷ es) v e = ground (arith, weigh-write key f es v)

module _ {K V : Type 0} (P : V → Type 0) where
  pub AllValues-push :
      (es : List (K × V)) (k : K) (v : V) → AllValues P es → P v → AllValues P (es ++ (k, v) ∷ [])
  AllValues-push [] k v h p = (p, tt)
  AllValues-push ((j, u) ∷ es) k v h p = (h.0, AllValues-push es k v h.1 p)

module _ {K V : Type 0} (eq : Discrete K) (P : V → Type 0) where
  pub AllValues-find :
      (key : K) (es : List (K × V)) (v : V) → find eq key es ≡ some v → AllValues P es → P v
  unfolding find
  AllValues-find key [] v e h = cc
  AllValues-find key ((k, u) ∷ es) v e h = elim (eq k key) [
    | yes p ↦ subst P (cc (rw (if_pos _ p) at e)) h.0
    | no p ↦ AllValues-find key es v (rw (if_neg _ p) at e) h.1
  ]

  pub AllValues-cut : (key : K) (es : List (K × V)) → AllValues P es → AllValues P (cut eq key es)
  unfolding cut
  AllValues-cut key [] h = tt
  AllValues-cut key ((k, u) ∷ es) h = elim (eq k key) [
    | yes p ↦ rw (if_pos _ p) h.1
    | no p ↦ rw (if_neg _ p) (h.0, AllValues-cut key es h.1)
  ]

  pub AllValues-write :
      (key : K) (f : V → V) (es : List (K × V))
      → ((v : V) → P v → find eq key es ≡ some v → P (f v))
      → AllValues P es
      → AllValues P (write eq key f es)
  unfolding find write
  AllValues-write key f [] p h = tt
  AllValues-write key f ((k, u) ∷ es) p h = elim (eq k key) [
    | yes e ↦ rw (if_pos _ e) (p u h.0 (rw (if_pos _ e)), h.1)
    | no e ↦
        rw (if_neg _ e) (h.0, AllValues-write key f es (λ v q g. p v q (rw (if_neg _ e) g)) h.1)
  ]

module _ {K V : Type 0} (eq : Discrete K) where
  pub length-cut : (key : K) (es : List (K × V)) → length (cut eq key es) ≤ length es
  unfolding cut
  length-cut key [] = omega arith
  length-cut key ((k, u) ∷ es) = ground (arith, length-cut key es)

  pub length-write :
      (key : K) (f : V → V) (es : List (K × V)) → length (write eq key f es) ≡ length es
  unfolding write
  length-write key f [] = refl
  length-write key f ((k, u) ∷ es) = ground (arith, length-write key f es)

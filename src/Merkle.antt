-- ===== src/Merkle.antt =====
-- The crate merkle-tox-core: a conversation as a graph of nodes that name their parents by hash.
-- A hash, a key and an identifier of 32 bytes is the number that its bytes spell, so that numbers
-- are ordered as the bytes are, and the conversions between the types of keys are not written. A
-- `HashMap` whose order nothing depends on is a function, and a timestamp is a number of
-- milliseconds after 1970.
pub mod Cas
pub mod Conversation
pub mod Dag
pub mod Fetch
pub mod Identity
use rs_toxcore_c.Prelude.{
  ℕ, ◌≡◌, refl, Option, none, some, Bool, true, false, ◌&&◌, ◌==◌, if◌then◌else◌, List, [], ◌∷◌,
  All, subst, ◌⊎◌, inl, inr, Bool-cases, arith,
}

-- An entry of a list.
abbrev pub IsIn : {A : Type 0} → A → List A → Type 0
IsIn a [] = ⊥
IsIn a (x ∷ xs) = (x ≡ a) ⊎ IsIn a xs

module _ {V : Type 0} where
  -- `HashMap::insert`
  abbrev pub put : (ℕ → Option V) → ℕ → V → ℕ → Option V
  put m k v j = if k == j then some v else m j

  -- The same with a pair of keys.
  abbrev pub put_pair : (ℕ → ℕ → Option V) → ℕ → ℕ → V → ℕ → ℕ → Option V
  put_pair m k l v i j = if (k == i) && (l == j) then some v else m i j

  -- `HashMap::remove`
  abbrev pub remove_pair : (ℕ → ℕ → Option V) → ℕ → ℕ → ℕ → ℕ → Option V
  remove_pair m k l i j = if (k == i) && (l == j) then none else m i j

  -- `HashMap::retain`
  abbrev pub keep_if : (V → Bool) → Option V → Option V
  keep_if p none = none
  keep_if p (some v) = if p v then some v else none

module _ {V : Type 0} where
  pub put-cases :
      (m : ℕ → Option V) (k : ℕ) (v : V) (j : ℕ) (w : V)
      → put m k v j ≡ some w
      → ((k ≡ j) × (v ≡ w)) ⊎ (m j ≡ some w)
  put-cases m k v j w h = elim (Bool-cases (k == j)) [
    | inl e ↦ inl (ground (arith, e), cc (rw e at h))
    | inr e ↦ inr (rw e at h)
  ]

  pub put_pair-cases :
      (m : ℕ → ℕ → Option V) (k l : ℕ) (v : V) (i j : ℕ) (w : V)
      → put_pair m k l v i j ≡ some w
      → ((k ≡ i) × (l ≡ j) × (v ≡ w)) ⊎ (m i j ≡ some w)
  put_pair-cases m k l v i j w h = elim (Bool-cases ((k == i) && (l == j))) [
    | inl e ↦ inl (ground (arith, e), ground (arith, e), cc (rw e at h))
    | inr e ↦ inr (rw e at h)
  ]

  pub remove_pair-some :
      (m : ℕ → ℕ → Option V) (k l i j : ℕ) (w : V) → remove_pair m k l i j ≡ some w → m i j ≡ some w
  remove_pair-some m k l i j w h = elim (Bool-cases ((k == i) && (l == j))) [
    | inl e ↦ cc (rw e at h)
    | inr e ↦ rw e at h
  ]

  pub keep_if-some : (p : V → Bool) (o : Option V) (w : V) → keep_if p o ≡ some w → o ≡ some w
  keep_if-some p none w h = h
  keep_if-some p (some v) w h = elim (Bool-cases (p v)) [
    | inl e ↦ rw e at h
    | inr e ↦ cc (rw e at h)
  ]

module _ {A : Type 0} (P Q : A → Type 0) where
  pub All-map : ((x : A) → P x → Q x) → (xs : List A) → All P xs → All Q xs
  All-map f [] h = tt
  All-map f (x ∷ xs) (h, hs) = (f x h, All-map f xs hs)

  pub All-both : (xs : List A) → All P xs → All Q xs → All (λ x. P x × Q x) xs
  All-both [] h g = tt
  All-both (x ∷ xs) (h, hs) (g, gs) = ((h, g), All-both xs hs gs)

module _ {A : Type 0} (P : A → Type 0) where
  pub All-IsIn : (xs : List A) (a : A) → All P xs → IsIn a xs → P a
  All-IsIn [] a h i = elim i [ ]
  All-IsIn (x ∷ xs) a (h, hs) (inl e) = subst P e h
  All-IsIn (x ∷ xs) a (h, hs) (inr i) = All-IsIn xs a hs i

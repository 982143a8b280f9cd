-- ===== src/Merkle/Dag/Padding/Laws.antt =====
-- What padding keeps and what it hides, in merkle-tox-core/src/dag.rs.
use native.Mathlib.Nat.{pow-suc, one-le-pow, pow-le-pow_right}
use rs_toxcore_c.Prelude.{
  ℕ, zero, suc, ◌+◌, ◌*◌, ◌^◌, ◌≤◌, ◌<◌, ◌≡◌, refl, sym, ap, arith, max, none, some, List, [], ◌∷◌,
  ◌++◌, leb, leb→le, inl, inr, Bool-cases, length, get_or, replicate, take, lt-or-le, length-append,
  length-replicate,
}
use rs_toxcore_c.Merkle.Dag.Padding.{
  min_padding_bin, double_until, next_power_of_two, apply_padding, last_nonzero, unpadded,
  remove_padding,
}

last_nonzero-replicate : (k : ℕ) → last_nonzero (replicate k 0) ≡ none
unfolding last_nonzero
last_nonzero-replicate zero = refl
last_nonzero-replicate (suc k) = rw (last_nonzero-replicate k) refl

last_nonzero-padded :
    (xs : List ℕ) (k : ℕ) → last_nonzero ((xs ++ 128 ∷ []) ++ replicate k 0) ≡ some (length xs)
unfolding last_nonzero
last_nonzero-padded [] k = rw (last_nonzero, last_nonzero-replicate k) refl
last_nonzero-padded (x ∷ xs) k = rw (last_nonzero, last_nonzero-padded xs k) refl

get_or-marked : (xs ys : List ℕ) (a d : ℕ) → get_or ((xs ++ a ∷ []) ++ ys) (length xs) d ≡ a
get_or-marked [] ys a d = refl
get_or-marked (x ∷ xs) ys a d = get_or-marked xs ys a d

take-marked : (xs ys : List ℕ) (a : ℕ) → take (length xs) ((xs ++ a ∷ []) ++ ys) ≡ xs
take-marked [] ys a = refl
take-marked (x ∷ xs) ys a = ap (λ l. x ∷ l) (take-marked xs ys a)

remove_padding-marked :
    (bytes : List ℕ) (k : ℕ)
    → remove_padding ((bytes ++ 128 ∷ []) ++ replicate k 0) ≡ unpadded bytes
unfolding remove_padding
remove_padding-marked bytes k =
    rw
      (
        remove_padding,
        last_nonzero-padded bytes k,
        get_or-marked bytes (replicate k 0) 128 0,
        take-marked bytes (replicate k 0) 128,
      )
      refl

-- Removing the padding gives back exactly what was padded, whatever the bytes are.
pub remove_padding-apply_padding :
    (bytes : List ℕ) → remove_padding (apply_padding bytes) ≡ unpadded bytes
unfolding apply_padding
remove_padding-apply_padding bytes = remove_padding-marked bytes _

-- A power of two that is as small as it can be.
abbrev pub IsLeastPower : ℕ → ℕ → Type 0
IsLeastPower n p = (k : ℕ) × (p ≡ 2 ^ k) × (n ≤ p) × ((j : ℕ) → n ≤ 2 ^ j → p ≤ 2 ^ j)

pow_suc_le : (k j : ℕ) → 2 ^ k < 2 ^ j → 2 ^ suc k ≤ 2 ^ j
pow_suc_le k j h = elim (lt-or-le k j) [
  | inl below ↦ pow-le-pow_right (ground arith) below
  | inr above ↦
      let contra : 2 ^ j ≤ 2 ^ k = pow-le-pow_right (ground arith) above in
      absurd (omega (arith, contra, h))
]

double_until-IsLeastPower :
    (fuel n k : ℕ)
    → n ≤ 2 ^ k + fuel
    → ((j : ℕ) → n ≤ 2 ^ j → 2 ^ k ≤ 2 ^ j)
    → IsLeastPower n (double_until fuel n (2 ^ k))
unfolding double_until
double_until-IsLeastPower zero n k h least = (k, refl, omega (arith, h), least)
double_until-IsLeastPower (suc fuel) n k h least = elim (Bool-cases (leb n (2 ^ k))) [
  | inl e ↦ rw e (k, refl, leb→le n (2 ^ k) e, least)
  | inr e ↦
      let above : 2 ^ k < n = ground (arith, e) in
      let double : 2 ^ suc k ≡ 2 * 2 ^ k = omega (arith, pow-suc 2 k) in
      let positive = one-le-pow k 2 (ground arith) in
      rw (e, sym double)
        (double_until-IsLeastPower fuel n (suc k) (omega (arith, h, double, above, positive))
          (λ j g. pow_suc_le k j (omega (arith, above, g))))
]

next_power_of_two-IsLeastPower : (n : ℕ) → IsLeastPower n (next_power_of_two n)
unfolding next_power_of_two
next_power_of_two-IsLeastPower n =
    double_until-IsLeastPower n n 0 (omega arith) (λ j g. one-le-pow j 2 (ground arith))

-- The padded bytes are as many as the least power of two that has room for the bytes and a mark, or
-- 128 if that is more: their number tells of the bytes no more than that.
pub length-apply_padding :
    (bytes : List ℕ)
    → (p : ℕ) × IsLeastPower (length bytes + 1) p
      × (length (apply_padding bytes) ≡ max p min_padding_bin)
unfolding apply_padding
length-apply_padding bytes =
    let marked = bytes ++ 128 ∷ [] in
    let n : length marked ≡ length bytes + 1 = length-append bytes (128 ∷ []) in
    let (k, e, above, least) = next_power_of_two-IsLeastPower (length bytes + 1) in
    (
      next_power_of_two (length bytes + 1),
      (k, e, above, least),
      rw (length-append marked, length-replicate, n) (omega (arith, above)),
    )

-- ===== src/Prelude/Search.antt =====
-- Searching and counting the places of a range where a Boolean predicate holds: the plain
-- descriptions that the word-by-word loops of the code are compared with.
use Prim.Native.Nat.{ℕ, zero, suc, ◌+◌, ◌≤◌, ◌<◌}
use mathlib.Core.Path.{◌≡◌, refl}
use mathlib.Core.Bool.{Bool, true, false, not}
use mathlib.Core.Option.{Option, none, some}
use native.Mathlib.Omega.{arith}
use mathlib.Core.Logic.{inl, inr}
use rs_toxcore_c.Prelude.Tests.{if◌then◌else◌, Bool-cases, lt-or-le}

-- `p` is `b` on all of [lo, hi).
abbrev pub Throughout : (ℕ → Bool) → Bool → ℕ → ℕ → Type 0
Throughout p b lo hi = (j : ℕ) → lo ≤ j → j < hi → p j ≡ b

-- The first place of [lo, hi) where `p` is `b`, if there is one.
abbrev pub IsFirst : (ℕ → Bool) → Bool → ℕ → ℕ → Option ℕ → Type 0
IsFirst p b lo hi none = Throughout p (not b) lo hi
IsFirst p b lo hi (some k) = (lo ≤ k) × (k < hi) × (p k ≡ b) × Throughout p (not b) lo k

-- The last place below `hi` where `p` holds, if there is one.
abbrev pub IsLast : (ℕ → Bool) → ℕ → Option ℕ → Type 0
IsLast p hi none = Throughout p false 0 hi
IsLast p hi (some k) = (k < hi) × (p k ≡ true) × Throughout p false (suc k) hi

abbrev pub one_if : Bool → ℕ
one_if b = if b then 1 else 0

-- How many of the `n` places from `lo` on satisfy `p`.
unfoldable pub count_from : (ℕ → Bool) → ℕ → ℕ → ℕ
count_from p lo zero = 0
count_from p lo (suc n) = one_if (p lo) + count_from p (suc lo) n

pub count_from_ext :
    (p q : ℕ → Bool) (lo n : ℕ)
    → ((j : ℕ) → lo ≤ j → j < lo + n → p j ≡ q j)
    → count_from p lo n ≡ count_from q lo n
unfolding count_from
count_from_ext p q lo zero h = refl
count_from_ext p q lo (suc n) h = rw (
  h lo (omega arith) (omega arith),
  count_from_ext p q (suc lo) n (λ j a b. h j (omega arith) (omega arith)),
)

pub count_from-zero :
    (p : ℕ → Bool) (lo n : ℕ) → Throughout p false lo (lo + n) → count_from p lo n ≡ 0
unfolding count_from
count_from-zero p lo zero h = refl
count_from-zero p lo (suc n) h =
    rw
      (
        h lo (omega arith) (omega arith),
        count_from-zero p (suc lo) n (λ j a b. h j (omega arith) (omega arith)),
      )
      (omega arith)

pub count_from-add :
    (p : ℕ → Bool) (lo m n : ℕ)
    → count_from p lo (m + n) ≡ count_from p lo m + count_from p (lo + m) n
unfolding count_from
count_from-add p lo zero n =
    let e : lo + zero ≡ lo = omega arith in
    let f : zero + n ≡ n = omega arith in rw (e, f) (omega arith)
count_from-add p lo (suc m) n =
    let e : suc m + n ≡ suc (m + n) = omega arith in
    let f : lo + suc m ≡ suc lo + m = omega arith in
    rw (e, f, count_from) (omega (arith, count_from-add p (suc lo) m n))

-- Counting places from `k` on.
pub count_from_shift :
    (p : ℕ → Bool) (k lo n : ℕ) → count_from (λ j. p (k + j)) lo n ≡ count_from p (k + lo) n
unfolding count_from
count_from_shift p k lo zero = refl
count_from_shift p k lo (suc n) =
    let e : k + suc lo ≡ suc (k + lo) = omega arith in rw (count_from_shift p k (suc lo) n, e)

pub count_from-le : (p : ℕ → Bool) (lo n : ℕ) → count_from p lo n ≤ n
unfolding count_from
count_from-le p lo zero = omega arith
count_from-le p lo (suc n) = ground (arith, count_from-le p (suc lo) n)

-- A full count means that every place counts.
pub count_from_full :
    (p : ℕ → Bool) (lo n : ℕ) → count_from p lo n ≡ n → Throughout p true lo (lo + n)
unfolding count_from
count_from_full p lo zero e = λ j a b. absurd (omega arith)
count_from_full p lo (suc n) e = elim (Bool-cases (p lo)) [
  | inl here ↦ go here (count_from_full p (suc lo) n) (rw here at e)
  | inr absent ↦ absurd (short (rw absent at e))
]
  where
    short : 0 + count_from p (suc lo) n ≡ suc n → ⊥
    short e = omega (arith, count_from-le p (suc lo) n)

    go :
        p lo ≡ true
        → (count_from p (suc lo) n ≡ n → Throughout p true (suc lo) (suc lo + n))
        → 1 + count_from p (suc lo) n ≡ suc n
        → Throughout p true lo (lo + suc n)
    go here ih e j a b = elim (lt-or-le lo j) [
      | inl later ↦ ih (omega arith) j (omega arith) (omega arith)
      | inr first ↦ let same : j ≡ lo = omega arith in rw same here
    ]

pub count_from_all :
    (p : ℕ → Bool) (lo n : ℕ) → Throughout p true lo (lo + n) → count_from p lo n ≡ n
unfolding count_from
count_from_all p lo zero h = refl
count_from_all p lo (suc n) h =
    rw
      (
        h lo (omega arith) (omega arith),
        count_from_all p (suc lo) n (λ j a b. h j (omega arith) (omega arith)),
      )
      (omega arith)

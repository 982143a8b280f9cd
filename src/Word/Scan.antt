-- ===== src/Word/Scan.antt =====
-- What the counting operations on words return, in terms of the bits.
use native.Mathlib.Nat.{pow-suc}
use mathlib.Core.Bool.{false≢true}
use rs_toxcore_c.Prelude.{
  ℕ, zero, suc, ◌-◌, ◌/◌, ◌%◌, ◌^◌, ◌≤◌, ◌<◌, ◌≡◌, refl, ◌∙◌, ◌≢◌, true, false, ◌==◌, arith, ◌⊎◌,
  inl, inr, Bool-cases, lt-or-le, sym,
}
use rs_toxcore_c.Prelude.Search.{Throughout, count_from}
use rs_toxcore_c.Word.{
  word_mod, test_bit, trailing_zeros_in, trailing_zeros, leading_zeros_in, leading_zeros,
  count_ones_in, count_ones,
}

-- The lowest one of a word stands at place `k`.
abbrev pub IsLowest : ℕ → ℕ → ℕ → Type 0
IsLowest n w k = (k < n) × (test_bit w k ≡ true) × Throughout (test_bit w) false 0 k

trailing_zeros_in-IsLowest : (n w : ℕ) → w < 2 ^ n → w ≢ 0 → IsLowest n w (trailing_zeros_in n w)
unfolding trailing_zeros_in test_bit
trailing_zeros_in-IsLowest zero w h ne = absurd (ne (omega arith))
trailing_zeros_in-IsLowest (suc n) w h ne = elim (Bool-cases (w % 2 == 1)) [
  | inl odd ↦ rw odd (omega arith, odd, λ j a b. absurd (omega arith))
  | inr even ↦
      rw even (
        later even
          (trailing_zeros_in-IsLowest n (w / 2) (omega (arith, pow-suc 2 n)) (halved even)))
]
  where
    halved : (w % 2 == 1) ≡ false → w / 2 ≢ 0
    halved even e = ne (ground arith)

    later :
        (w % 2 == 1) ≡ false
        → IsLowest n (w / 2) (trailing_zeros_in n (w / 2))
        → IsLowest (suc n) w (suc (trailing_zeros_in n (w / 2)))
    later even l = (omega arith, l.1, below)
      where
        below : (j : ℕ) → 0 ≤ j → j < suc (trailing_zeros_in n (w / 2)) → test_bit w j ≡ false
        below zero a b = even
        below (suc j) a b = l.2 j (omega arith) (omega arith)

pub trailing_zeros-IsLowest : (w : ℕ) → w < word_mod → w ≢ 0 → IsLowest 64 w (trailing_zeros w)
unfolding trailing_zeros
trailing_zeros-IsLowest w h ne = trailing_zeros_in-IsLowest 64 w h ne

-- The highest one of a word stands at place `k`.
abbrev pub IsHighest : ℕ → ℕ → ℕ → Type 0
IsHighest n w k = (k < n) × (test_bit w k ≡ true) × Throughout (test_bit w) false (suc k) n

leading_zeros_in_cases :
    (n w : ℕ)
    → Throughout (test_bit w) false 0 n
      ⊎ ((leading_zeros_in n w < n) × IsHighest n w (n - 1 - leading_zeros_in n w))
unfolding leading_zeros_in
leading_zeros_in_cases zero w = inl (λ j a b. absurd (omega arith))
leading_zeros_in_cases (suc n) w = elim (Bool-cases (test_bit w n)) [
  | inl top ↦ rw top (inr (omega arith, at_top top))
  | inr low ↦ rw low (more low (leading_zeros_in_cases n w))
]
  where
    at_top : test_bit w n ≡ true → IsHighest (suc n) w (suc n - 1 - 0)
    at_top top =
        let e : suc n - 1 - 0 ≡ n = omega arith in
        rw e (omega arith, top, λ j a b. absurd (omega arith))

    extend :
        test_bit w n ≡ false
        → (lo : ℕ) → Throughout (test_bit w) false lo n
        → Throughout (test_bit w) false lo (suc n)
    extend low lo t j a b = elim (lt-or-le j n) [
      | inl below ↦ t j a below
      | inr above ↦ let e : j ≡ n = omega arith in rw e low
    ]

    more :
        test_bit w n ≡ false
        → Throughout (test_bit w) false 0 n
          ⊎ ((leading_zeros_in n w < n) × IsHighest n w (n - 1 - leading_zeros_in n w))
        → Throughout (test_bit w) false 0 (suc n)
          ⊎ ((suc (leading_zeros_in n w) < suc n)
              × IsHighest (suc n) w (suc n - 1 - suc (leading_zeros_in n w)))
    more low (inl t) = inl (extend low 0 t)
    more low (inr (lt, h)) =
        let e : suc n - 1 - suc (leading_zeros_in n w) ≡ n - 1 - leading_zeros_in n w =
          omega arith in
        inr (omega arith, rw e (omega arith, h.1, extend low _ h.2))

pub leading_zeros-IsHighest : (w : ℕ) → w < word_mod → w ≢ 0 → IsHighest 64 w (63 - leading_zeros w)
unfolding leading_zeros
leading_zeros-IsHighest w h ne = elim (leading_zeros_in_cases 64 w) [
  | inl t ↦ absurd (clash (trailing_zeros-IsLowest w h ne) t)
  | inr (_, high) ↦ high
]
  where
    clash : IsLowest 64 w (trailing_zeros w) → Throughout (test_bit w) false 0 64 → ⊥
    clash l t = false≢true (sym (t (trailing_zeros w) (omega arith) l.0) ∙ l.1)

count_ones_in-count_from : (n w : ℕ) → count_ones_in n w ≡ count_from (test_bit w) 0 n
unfolding count_ones_in count_from test_bit
count_ones_in-count_from zero w = refl
count_ones_in-count_from (suc n) w =
    rw (halved 0 n) (ground (arith, count_ones_in-count_from n (w / 2)))
  where
    halved : (lo k : ℕ) → count_from (test_bit w) (suc lo) k ≡ count_from (test_bit (w / 2)) lo k
    halved lo zero = refl
    halved lo (suc k) = rw (halved (suc lo) k)

pub count_ones-count_from : (w : ℕ) → count_ones w ≡ count_from (test_bit w) 0 64
unfolding count_ones
count_ones-count_from w = count_ones_in-count_from 64 w

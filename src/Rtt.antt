-- ===== src/Rtt.antt =====
-- tox-sequenced/src/rtt.rs: the estimate of the round trip and of the time after which a fragment is
-- sent again. Durations are numbers of nanoseconds. `mul_f32 d t` is the library's
-- `d.mul_f32(t / 1000)`, whose rounding is that of `f32`.
use native.Mathlib.Nat.{le_refl, mul-le-mul_left}
use rs_toxcore_c.Prelude.{
  ℕ, ◌+◌, ◌-◌, ◌*◌, ◌^◌, ◌≤◌, ◌≡◌, min, max, arith, zero, suc, subst, ap, List, [], ◌∷◌,
}

abbrev pub millis : ℕ → ℕ
millis n = n * 1000000

abbrev pub seconds : ℕ → ℕ
seconds n = n * 1000000000

abbrev pub min_rto : ℕ
min_rto = millis 200

abbrev pub max_rto : ℕ
max_rto = millis 5000

abbrev pub max_backoff_exponent : ℕ
max_backoff_exponent = 6

pub record RttEstimator : Type 0 where
  pub srtt : ℕ
  pub rttvar : ℕ
  pub rto : ℕ

unfoldable pub new : RttEstimator
new = record { srtt = millis 200; rttvar = millis 100; rto = millis 1000 }

-- `abs_diff`
abbrev pub abs_diff : ℕ → ℕ → ℕ
abs_diff a b = max a b - min a b

module _ (mul_f32 : ℕ → ℕ → ℕ) where
  unfoldable pub update : RttEstimator → ℕ → RttEstimator
  update e sample =
      let diff = abs_diff sample e.srtt in
      let rttvar = mul_f32 e.rttvar 750 + mul_f32 diff 250 in
      let srtt = mul_f32 e.srtt 875 + mul_f32 sample 125 in
      record { srtt = srtt; rttvar = rttvar; rto = min (max (srtt + rttvar * 4) min_rto) max_rto }

  -- The estimator after these samples, the latest first.
  unfoldable pub after : List ℕ → RttEstimator
  unfolding new update
  after [] = new
  after (sample ∷ samples) = update (after samples) sample

unfoldable pub rto_with_backoff : RttEstimator → ℕ → ℕ
rto_with_backoff e retries = e.rto * 2 ^ min retries max_backoff_exponent

power-le : (d k n : ℕ) → d + k ≡ n → 2 ^ k ≤ 2 ^ n
power-le zero k n e =
    let same : k ≡ n = omega arith in subst (λ (m : ℕ). 2 ^ k ≤ 2 ^ m) same (le_refl (2 ^ k))
power-le (suc d) k zero e = absurd (omega arith)
power-le (suc d) k (suc n) e = let ih = power-le d k n (omega arith) in omega arith

backed_off : (rto k : ℕ) → k ≤ 6 → (rto ≤ rto * 2 ^ k) × (rto * 2 ^ k ≤ 64 * rto)
backed_off rto k h =
    let low : 1 ≤ 2 ^ k = power-le k 0 k (omega arith) in
    let high : 2 ^ k ≤ 2 ^ 6 = power-le (6 - k) k 6 (omega arith) in
    let below = mul-le-mul_left rto low in
    let above = mul-le-mul_left rto high in (omega arith, omega arith)

-- Doubling never shortens the time.
pub rto-le-rto_with_backoff : (e : RttEstimator) (retries : ℕ) → e.rto ≤ rto_with_backoff e retries
unfolding rto_with_backoff
rto-le-rto_with_backoff e retries = (backed_off e.rto (min retries 6) (omega arith)).0

rto_with_backoff-step :
    (e : RttEstimator) (retries : ℕ) → rto_with_backoff e retries ≤ rto_with_backoff e (retries + 1)
unfolding rto_with_backoff
rto_with_backoff-step e retries =
    let k = min retries 6 in
    let k' = min (retries + 1) 6 in mul-le-mul_left e.rto (power-le (k' - k) k k' (omega arith))

rto_with_backoff_limit :
    (e : RttEstimator) (retries : ℕ) → rto_with_backoff e (retries + 6) ≡ e.rto * 64
unfolding rto_with_backoff
rto_with_backoff_limit e retries =
    let most : min (retries + 6) 6 ≡ 6 = omega arith in ap (λ (k : ℕ). e.rto * 2 ^ k) most

after_bounds :
    (mul_f32 : ℕ → ℕ → ℕ) (samples : List ℕ)
    → let rto = (after mul_f32 samples).rto in (min_rto ≤ rto) × (rto ≤ max_rto)
unfolding after new update
after_bounds mul_f32 [] = (omega arith, omega arith)
after_bounds mul_f32 (sample ∷ samples) = (omega arith, omega arith)

-- For a new estimator and after any samples, the time before a fragment is sent again lies between
-- `MIN_RTO` and `MAX_RTO`. With its doubling for repeated losses it is at least the time without,
-- one more loss never shortens it, from six losses on it is exactly 64 times as long, and it is
-- never more than 64 times `MAX_RTO`.
pub rto_with_backoff_bounds :
    (mul_f32 : ℕ → ℕ → ℕ) (samples : List ℕ) (retries : ℕ)
    → let e = after mul_f32 samples in
      (min_rto ≤ e.rto)
      × (e.rto ≤ max_rto)
      × (e.rto ≤ rto_with_backoff e retries)
      × (rto_with_backoff e retries ≤ rto_with_backoff e (retries + 1))
      × (rto_with_backoff e (retries + 6) ≡ e.rto * 64)
      × (rto_with_backoff e retries ≤ 64 * max_rto)
unfolding rto_with_backoff
rto_with_backoff_bounds mul_f32 samples retries =
    let e = after mul_f32 samples in
    let (from, to) = after_bounds mul_f32 samples in
    let (low, high) = backed_off e.rto (min retries max_backoff_exponent) (omega arith) in
    (
      from,
      to,
      low,
      rto_with_backoff-step e retries,
      rto_with_backoff_limit e retries,
      omega (arith, to, high),
    )

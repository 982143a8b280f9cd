-- ===== src/Word/Bits.antt =====
-- What each operation on words does to the bit at a place.
use Prim.Native.Nat.{bit_and-bitwise}
use native.Mathlib.Nat.{
  pow-suc, pow-succ', one-le-pow, div-div-eq-div-mul, pow-le-pow_right, div-add-mod',
  add-mul-mod_self_right, mod-eq_of_lt, mod-lt,
}
use rs_toxcore_c.Prelude.{
  ℕ, zero, suc, ◌+◌, ◌-◌, ◌*◌, ◌/◌, ◌%◌, ◌^◌, ◌≤◌, ◌<◌, bit_and, bit_or, ◌≡◌, refl, ap, ◌∙◌, sym,
  false, not, ◌&&◌, ◌||◌, ◌==◌, ltb, leb, arith,
}
use rs_toxcore_c.Word.Step.{bit_and_step, bit_or_step}
use rs_toxcore_c.Word.{word_mod, complement, shl, shr, wrapping_sub, test_bit}

pub test_bit-zero : (i : ℕ) → test_bit 0 i ≡ false
unfolding test_bit
test_bit-zero zero = refl
test_bit-zero (suc i) = test_bit-zero i

pub test_bit-bit_and : (a b i : ℕ) → test_bit (bit_and a b) i ≡ (test_bit a i && test_bit b i)
unfolding test_bit
test_bit-bit_and a b zero = ground (arith, bit_and_step a b)
test_bit-bit_and a b (suc i) =
    let halved : bit_and a b / 2 ≡ bit_and (a / 2) (b / 2) = omega (arith, bit_and_step a b) in
    rw halved (test_bit-bit_and (a / 2) (b / 2) i)

pub test_bit-bit_or : (a b i : ℕ) → test_bit (bit_or a b) i ≡ (test_bit a i || test_bit b i)
unfolding test_bit
test_bit-bit_or a b zero = ground (arith, bit_or_step a b)
test_bit-bit_or a b (suc i) =
    let halved : bit_or a b / 2 ≡ bit_or (a / 2) (b / 2) = omega (arith, bit_or_step a b) in
    rw halved (test_bit-bit_or (a / 2) (b / 2) i)

-- A power of two has one bit.
pub test_bit-pow : (b i : ℕ) → test_bit (2 ^ b) i ≡ (b == i)
unfolding test_bit
test_bit-pow zero zero = refl
test_bit-pow zero (suc i) = test_bit-zero i ∙ ground arith
test_bit-pow (suc b) zero = ground (arith, pow-suc 2 b)
test_bit-pow (suc b) (suc i) =
    let halved : 2 ^ suc b / 2 ≡ 2 ^ b = omega (arith, pow-suc 2 b) in
    rw halved (test_bit-pow b i ∙ ground arith)

-- The bits of `2 ^ b - 1` are those below `b`.
pub test_bit-low : (b i : ℕ) → test_bit (2 ^ b - 1) i ≡ ltb i b
unfolding test_bit
test_bit-low zero i = test_bit-zero i ∙ ground arith
test_bit-low (suc b) zero = ground (arith, pow-suc 2 b, one-le-pow b 2)
test_bit-low (suc b) (suc i) =
    let halved : (2 ^ suc b - 1) / 2 ≡ 2 ^ b - 1 = omega (arith, pow-suc 2 b, one-le-pow b 2) in
    rw halved (test_bit-low b i ∙ ground arith)

-- Beyond its width a word has no bits.
pub test_bit_beyond : (n w i : ℕ) → w < 2 ^ n → n ≤ i → test_bit w i ≡ false
unfolding test_bit
test_bit_beyond zero w i h k = let e : w ≡ 0 = omega arith in rw e (test_bit-zero i)
test_bit_beyond (suc n) w zero h k = absurd (omega arith)
test_bit_beyond (suc n) w (suc i) h k =
    test_bit_beyond n (w / 2) i (omega (arith, pow-suc 2 n)) (omega arith)

complement_in : (n w i : ℕ) → w < 2 ^ n → i < n → test_bit (2 ^ n - 1 - w) i ≡ not (test_bit w i)
unfolding test_bit
complement_in zero w i h k = absurd (omega arith)
complement_in (suc n) w zero h k = ground (arith, pow-suc 2 n)
complement_in (suc n) w (suc i) h k =
    let halved : (2 ^ suc n - 1 - w) / 2 ≡ 2 ^ n - 1 - w / 2 = omega (arith, pow-suc 2 n) in
    rw halved (complement_in n (w / 2) i (omega (arith, pow-suc 2 n)) (omega arith))

pub test_bit-complement :
    (w i : ℕ) → w < word_mod → i < 64 → test_bit (complement w) i ≡ not (test_bit w i)
unfolding complement
test_bit-complement w i h k = complement_in 64 w i h k

pub complement-lt : (w : ℕ) → complement w < word_mod
unfolding complement
complement-lt w = omega arith

pub test_bit-shr : (w k i : ℕ) → test_bit (shr w k) i ≡ test_bit w (k + i)
unfolding shr test_bit
test_bit-shr w zero i =
    let e : zero + i ≡ i = omega arith in let f : w / 2 ^ 0 ≡ w = omega arith in rw (e, f)
test_bit-shr w (suc k) i =
    let e : suc k + i ≡ suc (k + i) = omega arith in
    let f : w / 2 ^ suc k ≡ w / 2 / 2 ^ k = rw pow-succ' (sym (div-div-eq-div-mul w 2 (2 ^ k))) in
    rw (e, f) (test_bit-shr (w / 2) k i)

mod-double : (w m : ℕ) → 0 < m → w % (m * 2) ≡ w / 2 % m * 2 + w % 2
mod-double w m h =
    let low : ℕ = w / 2 % m * 2 + w % 2 in
    let parts : w ≡ low + w / 2 / m * (m * 2) = omega (arith, div-add-mod' (w / 2) m) in
    ap (λ (t : ℕ). t % (m * 2)) parts
    ∙ add-mul-mod_self_right low (w / 2 / m) (m * 2)
    ∙ mod-eq_of_lt (omega (arith, mod-lt (w / 2) h))

mod_pow_step : (n w : ℕ) → w % 2 ^ suc n ≡ w / 2 % 2 ^ n * 2 + w % 2
mod_pow_step n w = rw pow-suc (mod-double w (2 ^ n) (one-le-pow n 2 (omega arith)))

pub test_bit-mod : (n w i : ℕ) → test_bit (w % 2 ^ n) i ≡ (ltb i n && test_bit w i)
unfolding test_bit
test_bit-mod zero w i = let e : w % 2 ^ 0 ≡ 0 = omega arith in rw e (test_bit-zero i ∙ ground arith)
test_bit-mod (suc n) w zero =
    let e : w % 2 ^ suc n % 2 ≡ w % 2 = omega (arith, mod_pow_step n w) in ground arith
test_bit-mod (suc n) w (suc i) =
    let halved : w % 2 ^ suc n / 2 ≡ w / 2 % 2 ^ n = omega (arith, mod_pow_step n w) in
    rw halved (test_bit-mod n (w / 2) i ∙ ground arith)

test_bit-mul : (k w i : ℕ) → test_bit (w * 2 ^ k) i ≡ (leb k i && test_bit w (i - k))
unfolding test_bit
test_bit-mul zero w i =
    let e : i - 0 ≡ i = omega arith in
    let f : w * 2 ^ 0 ≡ w = omega arith in rw (e, f) (ground arith)
test_bit-mul (suc k) w zero = ground (arith, pow-suc 2 k, ap (λ (t : ℕ). w * t) (pow-suc 2 k))
test_bit-mul (suc k) w (suc i) =
    let e : suc i - suc k ≡ i - k = omega arith in
    let f : w * 2 ^ suc k / 2 ≡ w * 2 ^ k = omega (arith, ap (λ (t : ℕ). w * t) (pow-suc 2 k)) in
    rw (e, f) (test_bit-mul k w i ∙ ground arith)

pub test_bit-shl :
    (w k i : ℕ) → test_bit (shl w k) i ≡ (ltb i 64 && (leb k i && test_bit w (i - k)))
unfolding shl
test_bit-shl w k i = rw (test_bit-mod 64, test_bit-mul)

pub pow-lt-word_mod : (b : ℕ) → b < 64 → 2 ^ b < word_mod
pow-lt-word_mod b h =
    omega (arith, pow-le-pow_right {n = 2} (omega arith) {i = b} {j = 63} (omega arith))

-- `1 << b` at a place of the word
pub shl-one : (b : ℕ) → b < 64 → shl 1 b ≡ 2 ^ b
unfolding shl
shl-one b h = omega (arith, pow-lt-word_mod b h)

-- `!((1 << b).wrapping_sub(1))` has the bits from `b` on.
pub test_bit-from :
    (b i : ℕ) → b < 64 → i < 64 → test_bit (complement (wrapping_sub (shl 1 b) 1)) i ≡ leb b i
test_bit-from b i h k =
    let e : wrapping_sub (shl 1 b) 1 ≡ 2 ^ b - 1 =
      rw (shl-one b h)
        (unfold wrapping_sub in omega (arith, pow-lt-word_mod b h, one-le-pow b 2)) in
    rw
      (
        e,
        test_bit-complement (2 ^ b - 1) i (omega (arith, pow-lt-word_mod b h)) k,
        test_bit-low b i,
      )
      (ground arith)

bit_and-zero_in : (n w : ℕ) → w ≤ n → bit_and w 0 ≡ 0
bit_and-zero_in n zero h = omega (arith, bit_and_step 0 0)
bit_and-zero_in zero (suc w) h = absurd (omega arith)
bit_and-zero_in (suc n) (suc w) h =
    omega (arith, bit_and_step (suc w) 0, bit_and-zero_in n (suc w / 2) (omega arith))

bit_and-zero : (w : ℕ) → bit_and w 0 ≡ 0
bit_and-zero w = bit_and-zero_in w w (omega arith)

-- A word is zero under the mask of one bit exactly when it does not have the bit.
pub bit_and-pow-eq-zero : (w b : ℕ) → (bit_and w (2 ^ b) == 0) ≡ not (test_bit w b)
unfolding test_bit
bit_and-pow-eq-zero w zero = ground (arith, bit_and_step w 1, bit_and-zero (w / 2))
bit_and-pow-eq-zero w (suc b) =
    ground (arith, bit_and_step w (2 ^ suc b), pow-suc 2 b, bit_and-pow-eq-zero (w / 2) b)

zero-bit_and : (b : ℕ) → bit_and 0 b ≤ 0
zero-bit_and b = omega (arith, bit_and-bitwise 0 b)

pub bit_and-le : (n a b : ℕ) → a ≤ n → bit_and a b ≤ a
bit_and-le zero zero b h = zero-bit_and b
bit_and-le zero (suc a) b h = absurd (omega arith)
bit_and-le (suc n) zero b h = zero-bit_and b
bit_and-le (suc n) (suc a) b h =
    omega (arith, bit_and_step (suc a) b, bit_and-le n (suc a / 2) (b / 2) (omega arith))

pub bit_or-lt : (n a b : ℕ) → a < 2 ^ n → b < 2 ^ n → bit_or a b < 2 ^ n
bit_or-lt zero a b h k =
    let e : a ≡ 0 = omega arith in let f : b ≡ 0 = omega arith in rw (e, f) (omega arith)
bit_or-lt (suc n) a b h k = omega (
  arith,
  bit_or_step a b,
  pow-suc 2 n,
  bit_or-lt n (a / 2) (b / 2) (omega (arith, pow-suc 2 n)) (omega (arith, pow-suc 2 n)),
)

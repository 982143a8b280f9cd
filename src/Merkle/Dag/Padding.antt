-- ===== src/Merkle/Dag/Padding.antt =====
-- merkle-tox-core/src/dag.rs: padding to a power of two, as ISO/IEC 7816-4 does it.
pub mod Laws
use Prim.Native.String.{String}
use rs_toxcore_c.Prelude.{
  ℕ, zero, suc, ◌+◌, ◌-◌, ◌*◌, max, Bool, true, false, Option, none, some, List, [], ◌∷◌, ◌++◌,
  ◌==◌, leb, if◌then◌else◌, length, get_or, replicate, take,
}

-- tox-proto/src/constants.rs
abbrev pub min_padding_bin : ℕ
min_padding_bin = 128

-- `next_power_of_two`, which doubles at most so many times.
unfoldable pub double_until : ℕ → ℕ → ℕ → ℕ
double_until zero n p = p
double_until (suc fuel) n p = let rest = double_until fuel n (2 * p) in if leb n p then p else rest

unfoldable pub next_power_of_two : ℕ → ℕ
unfolding double_until
next_power_of_two n = double_until n n 1

unfoldable pub apply_padding : List ℕ → List ℕ
unfolding next_power_of_two
apply_padding bytes =
    let pushed = bytes ++ 128 ∷ [] in
    let target_len = max (next_power_of_two (length pushed)) min_padding_bin in
    pushed ++ replicate (target_len - length pushed) 0

-- `rposition(|&x| x != 0x00)`
unfoldable pub last_nonzero : List ℕ → Option ℕ
last_nonzero [] = none
last_nonzero (x ∷ xs) = elim (last_nonzero xs) [
  | some i ↦ some (suc i)
  | none ↦ if x == 0 then none else some 0
]

pub data Unpadded : Type 0 where
  unpadded : List ℕ → Unpadded
  bad_padding : String → Unpadded

unfoldable pub remove_padding : List ℕ → Unpadded
unfolding last_nonzero
remove_padding bytes = elim (last_nonzero bytes) [
  | none ↦ bad_padding "No non-zero bytes found (invalid padding)"
  | some pos ↦
      if get_or bytes pos 0 == 128
      then unpadded (take pos bytes)
      else bad_padding "Last non-zero byte is not 0x80"
]

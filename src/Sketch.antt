-- ===== src/Sketch.antt =====
-- tox-reconcile/src/iblt.rs: the invertible Bloom lookup table by which two peers find the
-- difference of their sets of node hashes. A hash is its list of 32 bytes; a count is an `i32` as
-- its residue below 2 ^ 32. `blake3` is a parameter: `xof key id n` is the `n`-th number of four
-- bytes that the keyed hash of `id` puts out, and `checksum key id` the first eight bytes of the
-- keyed hash, where `key` is the optional key of the sketch. The loop of `get_indices` draws until
-- it has enough distinct numbers, which only the hash can promise; `decode` peels until no pure
-- cell is left. Both get `rounds`, and the result is `none` if these run out.
pub mod Equal
use Prim.Native.Nat.{bit_xor}
use rs_toxcore_c.Prelude.{
  ℕ, zero, suc, ◌+◌, ◌-◌, ◌%◌, ◌^◌, Bool, true, false, not, ◌&&◌, ◌||◌, Option, none, some, List,
  [], ◌∷◌, ◌++◌, ◌==◌, ltb, leb, if◌then◌else◌, length, replicate, get_or, contains,
}
use rs_toxcore_c.Prelude
use rs_toxcore_c.Protocol.{u32_mod}

pub record DecodingStats : Type 0 where
  pub cells_peeled : ℕ
  pub iterations : ℕ

-- `ReconciliationResult`
pub data Reconciliation {ℓ} (A : Type ℓ) : Type ℓ where
  reconciled : A → Reconciliation A
  decoding_failed : DecodingStats → Reconciliation A
  invalid_sketch : Reconciliation A

pub record IbltCell : Type 0 where
  pub count : ℕ
  pub id_sum : List ℕ
  pub hash_sum : ℕ

pub data Tier : Type 0 where
  tiny small medium large : Tier

unfoldable pub cell_count : Tier → ℕ
cell_count Tier.tiny = 16
cell_count Tier.small = 64
cell_count Tier.medium = 256
cell_count Tier.large = 1024

unfoldable pub from_cell_count : ℕ → Tier
from_cell_count count =
    if leb count 16
    then Tier.tiny
    else if leb count 64
    then Tier.small
    else if leb count 256
    then Tier.medium
    else Tier.large

-- The most differences that a tier can decode.
unfoldable pub d_max : Tier → ℕ
d_max Tier.tiny = 10
d_max Tier.small = 40
d_max Tier.medium = 170
d_max Tier.large = 680

pub record IbltSketch : Type 0 where
  pub cells : List IbltCell
  pub k : ℕ
  pub k_iblt : Option (List ℕ)

abbrev pub hashes_per_id : ℕ
hashes_per_id = 4

-- `IbltCell::default()`
abbrev pub empty_cell : IbltCell
empty_cell = record { count = 0; id_sum = replicate 32 0; hash_sum = 0 }

unfoldable pub from_cells_keyed : List IbltCell → Option (List ℕ) → IbltSketch
from_cells_keyed cells k_iblt = record { cells = cells; k = hashes_per_id; k_iblt = k_iblt }

unfoldable pub from_cells : List IbltCell → IbltSketch
unfolding from_cells_keyed
from_cells cells = from_cells_keyed cells none

unfoldable pub new_keyed : ℕ → Option (List ℕ) → IbltSketch
unfolding from_cells_keyed
new_keyed cell_count k_iblt = from_cells_keyed (replicate cell_count empty_cell) k_iblt

unfoldable pub new : ℕ → IbltSketch
unfolding new_keyed
new cell_count = new_keyed cell_count none

-- `for (s, o) in xs.iter_mut().zip(ys) { *s ^= o }`
unfoldable pub xor_bytes : List ℕ → List ℕ → List ℕ
xor_bytes [] ys = []
xor_bytes (x ∷ xs) [] = x ∷ xs
xor_bytes (x ∷ xs) (y ∷ ys) = bit_xor x y ∷ xor_bytes xs ys

-- A hash, a count and a checksum put into a cell.
unfoldable pub mix : IbltCell → List ℕ → ℕ → ℕ → IbltCell
mix cell id delta checksum = record {
  count = (cell.count + delta) % u32_mod;
  id_sum = xor_bytes cell.id_sum id;
  hash_sum = bit_xor cell.hash_sum checksum;
}

-- The opposite of an `i32`.
abbrev pub negate : ℕ → ℕ
negate n = (u32_mod - n) % u32_mod

mix_all : List ℕ → List IbltCell → List ℕ → ℕ → ℕ → List IbltCell
unfolding mix
mix_all [] cells id delta checksum = cells
mix_all (idx ∷ indices) cells id delta checksum =
    mix_all indices (Prelude.set cells idx (mix (get_or cells idx empty_cell) id delta checksum)) id
      delta checksum

-- `sort_unstable` on numbers
put_sorted : ℕ → List ℕ → List ℕ
put_sorted a [] = a ∷ []
put_sorted a (x ∷ xs) = let rest = put_sorted a xs in if leb a x then a ∷ x ∷ xs else x ∷ rest

sort : List ℕ → List ℕ
unfolding put_sorted
sort [] = []
sort (x ∷ xs) = put_sorted x (sort xs)

-- The cells of a sketch less those of another, pairwise.
unfoldable pub subtract_cells : List IbltCell → List IbltCell → List IbltCell
unfolding mix
subtract_cells [] ds = []
subtract_cells (c ∷ cs) [] = c ∷ cs
subtract_cells (c ∷ cs) (d ∷ ds) = mix c d.id_sum (negate d.count) d.hash_sum ∷ subtract_cells cs ds

unfoldable pub subtract : IbltSketch → IbltSketch → IbltSketch × Reconciliation {0} Unit
unfolding subtract_cells
subtract s other =
    if length s.cells == length other.cells
    then (record s { cells = subtract_cells s.cells other.cells }, reconciled tt)
    else (s, invalid_sketch)

abbrev is_zero : List ℕ → Bool
is_zero [] = true
is_zero (x ∷ xs) = x == 0 && is_zero xs

-- What `decode` returns when it succeeds.
abbrev pub Difference : Type 0
Difference = List (List ℕ) × List (List ℕ) × DecodingStats

-- The last loop of `decode`.
unfoldable pub check_empty :
    List IbltCell → List (List ℕ) → List (List ℕ) → DecodingStats → Reconciliation Difference
check_empty [] in_self in_other stats = reconciled (in_self, in_other, stats)
check_empty (c ∷ cells) in_self in_other stats =
    let stats' = record stats { iterations = stats.iterations + 1 } in
    let rest = check_empty cells in_self in_other stats' in
    if not (c.count == 0) || not (c.hash_sum == 0) || not (is_zero c.id_sum)
    then decoding_failed stats'
    else rest

module _ (xof : Option (List ℕ) → List ℕ → ℕ → ℕ) (checksum : Option (List ℕ) → List ℕ → ℕ) where
  draw : ℕ → ℕ → IbltSketch → List ℕ → List ℕ → Option (List ℕ)
  draw zero n s id indices = none
  draw (suc rounds) n s id indices =
      let idx = xof s.k_iblt id n % length s.cells in
      let rest =
        draw rounds (suc n) s id (if contains indices idx then indices else indices ++ idx ∷ []) in
      if ltb (length indices) s.k && ltb (length indices) (length s.cells)
      then rest
      else some indices

  unfoldable pub get_indices : ℕ → IbltSketch → List ℕ → Option (List ℕ)
  unfolding draw sort
  get_indices rounds s id = elim (draw rounds 0 s id []) [
    | none ↦ none
    | some indices ↦ some (sort indices)
  ]

  abbrev pub get_checksum : IbltSketch → List ℕ → ℕ
  get_checksum s id = checksum s.k_iblt id

  unfoldable pub update : ℕ → IbltSketch → List ℕ → ℕ → Option IbltSketch
  unfolding get_indices mix_all
  update rounds s id delta = elim (get_indices rounds s id) [
    | none ↦ none
    | some indices ↦
        some (record s { cells = mix_all indices s.cells id delta (get_checksum s id) })
  ]

  unfoldable pub insert : ℕ → IbltSketch → List ℕ → Option IbltSketch
  unfolding update
  insert rounds s id = update rounds s id 1

  unfoldable pub remove : ℕ → IbltSketch → List ℕ → Option IbltSketch
  unfolding update
  remove rounds s id = update rounds s id (negate 1)

  unfoldable pub is_pure : IbltSketch → ℕ → Bool
  is_pure s idx =
      let cell = get_or s.cells idx empty_cell in
      (cell.count == 1 || (cell.count == negate 1)) && (get_checksum s cell.id_sum == cell.hash_sum)

  -- The first loop of `decode`, over `n` cells from `i` on; the stack's top is its front.
  unfoldable pub scan_pure : ℕ → ℕ → IbltSketch → List ℕ → List ℕ
  unfolding is_pure
  scan_pure zero i s pure_cells = pure_cells
  scan_pure (suc n) i s pure_cells =
      scan_pure n (suc i) s (if is_pure s i then i ∷ pure_cells else pure_cells)

  -- The inner loop of `decode`: a decoded hash leaves the cells that it maps to.
  erase : List ℕ → IbltCell → IbltSketch → List ℕ → IbltSketch × List ℕ
  unfolding mix is_pure
  erase [] cell s pure_cells = (s, pure_cells)
  erase (i ∷ indices) cell s pure_cells =
      let c = mix (get_or s.cells i empty_cell) cell.id_sum (negate cell.count) cell.hash_sum in
      let s' = record s { cells = Prelude.set s.cells i c } in
      erase indices cell s' (if is_pure s' i then i ∷ pure_cells else pure_cells)

  -- The loop of `decode` over the pure cells, and the check behind it.
  unfoldable pub peel :
      ℕ
      → IbltSketch
      → List ℕ
      → List (List ℕ)
      → List (List ℕ)
      → DecodingStats
      → Option (IbltSketch × Reconciliation Difference)
  unfolding is_pure get_indices erase check_empty from_cell_count d_max
  peel zero s pure_cells in_self in_other stats = none
  peel (suc rounds) s [] in_self in_other stats =
      some (s, check_empty s.cells in_self in_other stats)
  peel (suc rounds) s (idx ∷ pure_cells) in_self in_other stats =
      let looked = record stats { iterations = stats.iterations + 1 } in
      elim (is_pure s idx) [
        | false ↦ peel rounds s pure_cells in_self in_other looked
        | true ↦
            let cell = get_or s.cells idx empty_cell in
            let id = cell.id_sum in
            let in_self' = if cell.count == 1 then in_self ++ id ∷ [] else in_self in
            let in_other' = if cell.count == 1 then in_other else in_other ++ id ∷ [] in
            let peeled = record looked { cells_peeled = looked.cells_peeled + 1 } in
            elim (ltb (d_max (from_cell_count (length s.cells)))
              (length in_self' + length in_other')) [
                | true ↦ some (s, decoding_failed peeled)
                | false ↦ elim (get_indices rounds s id) [
                  | none ↦ none
                  | some indices ↦
                      let (s', rest) = erase indices cell s pure_cells in
                      peel rounds s' rest in_self' in_other' peeled
                ]
              ]
      ]

  unfoldable pub decode : ℕ → IbltSketch → Option (IbltSketch × Reconciliation Difference)
  unfolding scan_pure peel
  decode rounds s =
      let n = length s.cells in
      peel rounds s (scan_pure n 0 s []) [] [] (record { cells_peeled = 0; iterations = n })

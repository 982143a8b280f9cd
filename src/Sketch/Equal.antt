-- ===== src/Sketch/Equal.antt =====
-- The difference of a sketch of tox-reconcile/src/iblt.rs from itself.
use Prim.Native.Nat.{differ, bit_xor, bit_xor-bitwise}
use rs_toxcore_c.Prelude.{
  ℕ, zero, suc, ◌+◌, ◌/◌, ◌%◌, ◌≤◌, ◌<◌, ◌≡◌, refl, arith, ◌∙◌, ap, true, false, Option, some, List,
  [], ◌∷◌, length, get_or, All, All-get_or, ==_refl,
}
use rs_toxcore_c.Protocol.{u32_mod}
use rs_toxcore_c.Word.Step.{bit_xor_step}
use rs_toxcore_c.Sketch.{
  IbltCell, IbltSketch, reconciled, empty_cell, xor_bytes, is_zero, mix, negate, subtract_cells,
  subtract, check_empty, is_pure, scan_pure, decode,
}

differ_self : (n : ℕ) → differ n n ≡ 0
differ_self zero = refl
differ_self (suc n) = differ_self n

bit_xor_self_in : (n a : ℕ) → a ≤ n → bit_xor a a ≡ 0
bit_xor_self_in n zero h = omega (arith, bit_xor-bitwise 0 0)
bit_xor_self_in zero (suc a) h = absurd (omega arith)
bit_xor_self_in (suc n) (suc a) h = ground (
  arith,
  bit_xor_step (suc a) (suc a),
  differ_self (suc a % 2),
  bit_xor_self_in n (suc a / 2) (omega arith),
)

bit_xor_self : (a : ℕ) → bit_xor a a ≡ 0
bit_xor_self a = bit_xor_self_in a a (omega arith)

xor_bytes_self : (xs : List ℕ) → is_zero (xor_bytes xs xs) ≡ true
unfolding xor_bytes
xor_bytes_self [] = refl
xor_bytes_self (x ∷ xs) = rw (bit_xor_self x) (xor_bytes_self xs)

-- A cell as `IbltCell::default()` has it, whatever the number of its bytes.
abbrev IsBlank : IbltCell → Type 0
IsBlank c = (c.count ≡ 0) × (c.hash_sum ≡ 0) × (is_zero c.id_sum ≡ true)

-- A count is an `i32`, as its residue.
abbrev pub IsCounted : IbltCell → Type 0
IsCounted c = c.count < u32_mod

mix_self : (c : IbltCell) → IsCounted c → IsBlank (mix c c.id_sum (negate c.count) c.hash_sum)
unfolding mix
mix_self c h = (omega arith, bit_xor_self c.hash_sum, xor_bytes_self c.id_sum)

subtract_cells_self : (cs : List IbltCell) → All IsCounted cs → All IsBlank (subtract_cells cs cs)
unfolding subtract_cells
subtract_cells_self [] h = tt
subtract_cells_self (c ∷ cs) (h, hs) = (mix_self c h, subtract_cells_self cs hs)

length-subtract_cells : (cs : List IbltCell) → length (subtract_cells cs cs) ≡ length cs
unfolding subtract_cells
length-subtract_cells [] = refl
length-subtract_cells (c ∷ cs) = ap suc (length-subtract_cells cs)

check_empty_blank :
    (cs : List IbltCell) (peeled n : ℕ)
    → All IsBlank cs
    → check_empty cs [] [] (record { cells_peeled = peeled; iterations = n })
      ≡ reconciled ([], [], record { cells_peeled = peeled; iterations = n + length cs })
unfolding check_empty
check_empty_blank [] peeled n h =
    ap (λ x. reconciled ([], [], record { cells_peeled = peeled; iterations = x })) (omega arith)
check_empty_blank (c ∷ cs) peeled n ((a, b, z), hs) =
    rw (a, b, z)
      (check_empty_blank cs peeled (n + 1) hs
        ∙ ap (λ x. reconciled ([], [], record { cells_peeled = peeled; iterations = x }))
            (omega arith))

module _ (xof : Option (List ℕ) → List ℕ → ℕ → ℕ) (checksum : Option (List ℕ) → List ℕ → ℕ) where
  is_pure_blank : (s : IbltSketch) (i : ℕ) → All IsBlank s.cells → is_pure xof checksum s i ≡ false
  unfolding is_pure
  is_pure_blank s i h =
      let blank : IsBlank (get_or s.cells i empty_cell) =
        All-get_or IsBlank s.cells i empty_cell (refl, refl, refl) h in
      rw blank.0

  scan_pure_blank :
      (n i : ℕ) (s : IbltSketch) → All IsBlank s.cells → scan_pure xof checksum n i s [] ≡ []
  unfolding scan_pure
  scan_pure_blank zero i s h = refl
  scan_pure_blank (suc n) i s h = rw (is_pure_blank s i h) (scan_pure_blank n (suc i) s h)

  -- A sketch less itself decodes, in one round, to no difference: `decode` finds no pure cell, peels
  -- none, and looks at each cell twice. Each count must be an `i32`.
  pub decode-subtract :
      (rounds : ℕ) (s : IbltSketch)
      → All IsCounted s.cells
      → let d = (subtract s s).0 in
        decode xof checksum (suc rounds) d
        ≡ some (
          d,
          reconciled
              ([], [], record { cells_peeled = 0; iterations = length s.cells + length s.cells }),
        )
  unfolding decode subtract
  decode-subtract rounds s h =
      let same = ==_refl (length s.cells) in
      let blank = subtract_cells_self s.cells h in
      let d : IbltSketch = record s { cells = subtract_cells s.cells s.cells } in
      rw (same, length-subtract_cells s.cells, scan_pure_blank (length s.cells) 0 d blank)
        (ap (λ r. some (d, r))
          (check_empty_blank d.cells 0 (length s.cells) blank
            ∙ ap
                (λ x.
                  reconciled ([], [], record { cells_peeled = 0; iterations = length s.cells + x }))
                (length-subtract_cells s.cells)))

-- ===== src/Tests/Sketches.antt =====
-- Runs of tox-reconcile/src/iblt.rs on a sketch of two cells.
use rs_toxcore_c.Prelude.{ℕ, ◌≡◌, Option, none, some, List, [], ◌∷◌, All, arith}
use rs_toxcore_c.Sketch.{IbltCell, IbltSketch, reconciled, subtract, decode, empty_cell}
use rs_toxcore_c.Sketch.Equal.{IsCounted, decode-subtract}

abbrev draws : Option (List ℕ) → List ℕ → ℕ → ℕ
draws key id n = n

abbrev sum_of : Option (List ℕ) → List ℕ → ℕ
sum_of key id = 7

abbrev full_cell : IbltCell
full_cell = record { count = 1; id_sum = 3 ∷ 4 ∷ []; hash_sum = 7 }

abbrev two_cells : IbltSketch
two_cells = record { cells = full_cell ∷ empty_cell ∷ []; k = 4; k_iblt = none }

two_cells-IsCounted : All IsCounted two_cells.cells
two_cells-IsCounted = (omega arith, (omega arith, tt))

decode-subtract_example :
    decode draws sum_of 2 (subtract two_cells two_cells).0
    ≡ some (
      (subtract two_cells two_cells).0,
      reconciled ([], [], record { cells_peeled = 0; iterations = 4 }),
    )
decode-subtract_example = decode-subtract draws sum_of 1 two_cells two_cells-IsCounted

-- ===== src/Tests/Splitting.antt =====
-- A run of the split of a data set.
use analysis_app.Prelude.{
  ℕ, ◌/◌, ◌≡◌, refl, true, some, List, [], ◌∷◌, length, map, All, All-weaken, In, ◌+◌, ◌<◌, arith,
}
use analysis_app.Prelude.Int.{ℤ, pos, pos_part}
use analysis_app.Prelude.Results.{ok}
use analysis_app.Features.Arrays.{range}
use analysis_app.Features.Arrays.Shapes.{length-range_from, range_from-below}
use analysis_app.Float.Fixed.{fixed_float, lit_ℤ, unit}
use analysis_app.Evaluation.{Channels}
use analysis_app.Evaluation.Masks.{select}
use analysis_app.Evaluation.Split.{TestData, test_places, load_test_split}
use analysis_app.Evaluation.Split.Chosen.{Row, loud, load_test_split_lem}

abbrev signal_of : ℕ → Channels ℤ
signal_of k = record { i = pos k ∷ []; q = pos 0 ∷ [] }

abbrev four_rows : List (Row ℤ)
four_rows =
    (signal_of 1, (0, lit_ℤ 10 0))
    ∷ (signal_of 2, (1, lit_ℤ 2 0))
    ∷ (signal_of 3, (1, lit_ℤ 5 0))
    ∷ (signal_of 4, (0, lit_ℤ 20 0))
    ∷ []

abbrev four_samples : TestData ℤ
four_samples = record {
  x = map (λ t. t.0) four_rows;
  y = map (λ t. t.1.0) four_rows;
  snrs = some (map (λ t. t.1.1) four_rows);
  classes = "BPSK" ∷ "QPSK" ∷ [];
}

abbrev whole_part : ℤ → ℕ
whole_part x = pos_part x / unit

places_below : (n : ℕ) → All (λ i. i < n) (range n)
places_below n =
    All-weaken (λ i. i < 0 + n) (λ i. i < n) (range n) (λ i h. omega (arith, h))
      (range_from-below 0 n)

load_test_split_lem_example :
    (us : List (Row ℤ)) × (select
        (test_places whole_part range 3 (lit_ℤ 5 1))
        (loud (lit_ℤ 5 0) four_rows)
      ≡ ok us)
    × All (λ u. In u four_rows × (fixed_float.le (lit_ℤ 5 0) u.1.1 ≡ true)) us
    × (length us ≡ 1)
    × (load_test_split whole_part range four_samples (lit_ℤ 5 0) (lit_ℤ 5 1)
        ≡ ok (record {
          x = map (λ u. u.0) us;
          y = map (λ u. u.1.0) us;
          classes = "BPSK" ∷ "QPSK" ∷ [];
          snrs = map (λ u. u.1.1) us;
        }))
load_test_split_lem_example =
    load_test_split_lem whole_part range (λ n. length-range_from 0 n) places_below four_samples
      (lit_ℤ 5 0) (lit_ℤ 5 1) four_rows refl refl refl

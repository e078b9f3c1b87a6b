-- ===== src/Harness/Stress.antt =====
-- tools/test_harness/harness.py: `stress_test_low_snr` and `stress_test_partial_burst`. The draws of the
-- generator, the power 10 ** x and the conversion of a float to a whole number are arguments.
use analysis_app.Prelude.{
  ℕ, ◌+◌, ◌<◌, max, ◌≡◌, true, false, List, [], ◌∷◌, ◌++◌, length, length-take, take, map, arith,
}
use analysis_app.Prelude.Text.{upper, same}
use analysis_app.Prelude.Results.{Result, ok, ◌>>=◌}
use analysis_app.Features.Arrays.{zip_with}
use analysis_app.Float.{Float}
use analysis_app.Numpy.{Complex, Numpy}
use analysis_app.Features.Extract.{extract}
use analysis_app.Classifier.{snr_min_db}
use analysis_app.Datasets.{IqSample, normalise}
use analysis_app.Harness.Labels.{canonical}
use analysis_app.Harness.Sample.{Row, Pipeline, Clock, classify_sample}
use analysis_app.Harness.Batch.{BatchRow, run_batch}
use analysis_app.Harness.Short.{short_unclassified}

module _ {F : Type 0} ⦃fl : Float F⦄ where
  open fl use {lit, neg, mul, div, sqrt, lt}

  -- snr_levels_db where it is None
  abbrev pub stress_levels : List F
  stress_levels =
      neg (lit 20 0)
      ∷ neg (lit 15 0)
      ∷ neg (lit 10 0)
      ∷ neg (lit 5 0)
      ∷ lit 0 0
      ∷ lit 5 0
      ∷ lit 10 0
      ∷ lit 15 0
      ∷ lit 20 0
      ∷ []

  abbrev pub fractions : List F
  fractions = lit 10 2 ∷ lit 25 2 ∷ lit 50 2 ∷ lit 10 1 ∷ []

  -- s.iq[:n]
  unfoldable pub truncated : (F → ℕ) → F → IqSample F → IqSample F
  truncated to_int frac s = record s {
    iq = take (max 64 (to_int (mul (lit (length s.iq) 0) frac))) s.iq;
    extra = [];
  }

  module _ ⦃np : Numpy F⦄ (pipe : Pipeline F) (clock : ℕ → Clock F) where
    -- the tables of the fractions
    unfoldable pub stress_test_partial_burst :
        (F → ℕ) → List (IqSample F) → List (F × List (BatchRow F))
    unfolding truncated
    stress_test_partial_burst to_int samples =
        map
          (λ frac. (frac, (run_batch pipe clock (map (truncated to_int frac) (take 50 samples))).0))
          fractions

    module _ (ten_to : F → F) (noise : ℕ → ℕ → List (Complex F)) where
      -- the sample with the n-th draw of noise
      unfoldable pub noisy_sample : ℕ → F → IqSample F → IqSample F
      noisy_sample n snr_db s =
          let iq = normalise s.iq in
          let noise_pwr = ten_to (div (neg snr_db) (lit 10 0)) in
          record s {
            iq =
                zip_with np.plus iq
                  (map (np.scale (sqrt (div noise_pwr (lit 2 0)))) (noise n (length iq)));
            snr_db = snr_db;
            extra = [];
          }

      -- the rows of a level, each with added_snr_db, from the n-th draw on
      unfoldable pub level_rows : ℕ → F → List (IqSample F) → Result (List (F × Row F))
      unfolding noisy_sample
      level_rows n snr_db [] = ok []
      level_rows n snr_db (s ∷ samples) =
          classify_sample pipe (clock n) (noisy_sample n snr_db s) >>= λ row.
          level_rows (n + 1) snr_db samples >>= λ rows. ok ((snr_db, row) ∷ rows)

      unfoldable pub stress_rows : ℕ → List (IqSample F) → List F → Result (List (F × Row F))
      unfolding level_rows
      stress_rows n samples [] = ok []
      stress_rows n samples (snr_db ∷ levels) = level_rows n snr_db samples >>= λ rows.
          stress_rows (n + length samples) samples levels >>= λ rest. ok (rows ++ rest)

      unfoldable pub stress_test_low_snr : List (IqSample F) → List F → Result (List (F × Row F))
      unfolding stress_rows
      stress_test_low_snr base_samples levels = stress_rows 0 (take 50 base_samples) levels

  -- A burst of which the fraction leaves fewer than 256 values, though at least 64 are left, always gets
  -- a row, and always an unclassified one without a protocol.
  pub truncated_unclassified :
      ⦃np : Numpy F⦄ (zero_low : lt (lit 0 0) snr_min_db ≡ true) (fft_size : ℕ) (pipe : Pipeline F)
      (clock : Clock F) (to_int : F → ℕ) (frac : F) (sample : IqSample F)
      → pipe.extract ≡ extract fft_size
      → max 64 (to_int (mul (lit (length sample.iq) 0) frac)) < 256
      → (row : Row F) × (classify_sample pipe clock (truncated to_int frac sample) ≡ ok row)
        × (row.classified ≡ false)
        × (row.detected_mod ≡ "UNCLASSIFIED")
        × (row.top_protocol ≡ "")
        × (row.exact_match ≡ same (upper (canonical sample.ground_truth)) (upper "UNCLASSIFIED"))
  unfolding truncated
  truncated_unclassified zero_low fft_size pipe clock to_int frac sample is_extract short =
      let n = max 64 (to_int (mul (lit (length sample.iq) 0) frac)) in
      short_unclassified zero_low fft_size pipe clock
        (record sample { iq = take n sample.iq; extra = [] }) is_extract
        (omega (arith, length-take n sample.iq, short))

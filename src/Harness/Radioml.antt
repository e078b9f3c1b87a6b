-- ===== src/Harness/Radioml.antt =====
-- The harness on RadioML 2016.10a, whose examples have 128 values.
use analysis_app.Prelude.{ℕ, ◌≡◌, String, true, false, List, All, All-weaken, arith}
use analysis_app.Prelude.Results.{ok}
use analysis_app.Float.{Float}
use analysis_app.Numpy.{Numpy}
use analysis_app.Features.Extract.{extract}
use analysis_app.Classifier.{snr_min_db}
use analysis_app.Datasets.{IqSample}
use analysis_app.Datasets.Radioml.{Keyed, load_radioml_2016}
use analysis_app.Datasets.Radioml.Loaded.{IsExample, IsLoaded, load_radioml_2016_lem}
use analysis_app.Harness.Sample.{Row, Pipeline, Clock, classify_sample}
use analysis_app.Harness.Short.{short_unclassified}

module _ {F : Type 0} ⦃fl : Float F⦄ ⦃np : Numpy F⦄ where
  -- The sample gets a row, and the row is unclassified.
  abbrev pub IsUnclassified : Pipeline F → Clock F → IqSample F → Type 0
  IsUnclassified pipe clock sample =
      (row : Row F) × (classify_sample pipe clock sample ≡ ok row)
      × (row.classified ≡ false)
      × (row.detected_mod ≡ "UNCLASSIFIED")

  -- From a file of examples of 128 values in each channel, as RadioML 2016.10a is, the loader returns
  -- samples, and the harness classifies none of them, whatever the thresholds, the FFT size and the
  -- database: each gets an unclassified row.
  pub radioml_2016-IsUnclassified :
      fl.lt (fl.lit 0 0) snr_min_db ≡ true
      → (path : String) (snr_min : F) (max_per_class fft_size : ℕ) (file : List (Keyed F))
        (pipe : Pipeline F) (clock : Clock F)
      → All (λ k. All (IsExample 126) k.examples) file
      → pipe.extract ≡ extract fft_size
      → (ss : List (IqSample F)) × (load_radioml_2016 path snr_min max_per_class true true file
          ≡ ok ss)
        × All (IsUnclassified pipe clock) ss
  radioml_2016-IsUnclassified zero_low path snr_min max_per_class fft_size file pipe clock h
        is_extract =
      let (ss, e, loaded) = (load_radioml_2016_lem path snr_min max_per_class 126 file h).0 in
      (
        ss,
        e,
        All-weaken (IsLoaded path snr_min max_per_class 126) (IsUnclassified pipe clock) ss
            (λ s (m, loud).
              let (row, got, cls, det, top, exact) =
                short_unclassified zero_low fft_size pipe clock s is_extract (omega (arith, m)) in
              (row, got, cls, det))
            loaded,
      )

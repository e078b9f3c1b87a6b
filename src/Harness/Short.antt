-- ===== src/Harness/Short.antt =====
-- The harness on samples that are too short for the extractor.
use analysis_app.Prelude.{◌≡◌, refl, ap, ◌∙◌, ℕ, ◌<◌, true, false, List, length, arith}
use analysis_app.Prelude.Text.{upper, same}
use analysis_app.Prelude.Results.{ok, ◌>>=◌}
use analysis_app.Float.{Float}
use analysis_app.Numpy.{Complex, Numpy}
use analysis_app.Features.Extract.{extract, started}
use analysis_app.Features.Extract.Refused.{extract_short}
use analysis_app.Classifier.{classify, rejected_result, snr_min_db}
use analysis_app.Datasets.{IqSample, normalise, length-normalise}
use analysis_app.Harness.Labels.{canonical}
use analysis_app.Harness.Sample.{
  Row, Pipeline, Clock, classify_features, exact_match_of, row_of, classify_sample,
}

module _ {F : Type 0} ⦃fl : Float F⦄ ⦃np : Numpy F⦄ where
  open fl use {lit, lt}

  classify-started :
      lt (lit 0 0) snr_min_db ≡ true
      → (iq : List (Complex F)) (sr cf : F)
      → classify (started iq sr cf) ≡ rejected_result (started iq sr cf)
  unfolding classify
  classify-started zero_low iq sr cf = rw zero_low

  row_started :
      lt (lit 0 0) snr_min_db ≡ true
      → (pipe : Pipeline F) (clock : Clock F) (sample : IqSample F) (iq : List (Complex F))
        (sr cf : F)
      → let row = row_of pipe clock sample (started iq sr cf) in
        (row.classified ≡ false)
        × (row.detected_mod ≡ "UNCLASSIFIED")
        × (row.top_protocol ≡ "")
        × (row.exact_match ≡ same (upper (canonical sample.ground_truth)) (upper "UNCLASSIFIED"))
  unfolding row_of classify_features exact_match_of canonical
  row_started zero_low pipe clock sample iq sr cf =
      rw (classify-started zero_low iq sr cf) (refl, refl, refl, refl)

  -- A sample of fewer than 256 values, as those of RadioML 2016.10a are, always gets a row, and
  -- always an unclassified one without a protocol: its features have an SNR of 0.0 dB, which is
  -- below the threshold. It is an exact match only if its ground truth reads "UNCLASSIFIED".
  pub short_unclassified :
      lt (lit 0 0) snr_min_db ≡ true
      → (fft_size : ℕ) (pipe : Pipeline F) (clock : Clock F) (sample : IqSample F)
      → pipe.extract ≡ extract fft_size
      → length sample.iq < 256
      → (row : Row F) × (classify_sample pipe clock sample ≡ ok row)
        × (row.classified ≡ false)
        × (row.detected_mod ≡ "UNCLASSIFIED")
        × (row.top_protocol ≡ "")
        × (row.exact_match ≡ same (upper (canonical sample.ground_truth)) (upper "UNCLASSIFIED"))
  unfolding classify_sample
  short_unclassified zero_low fft_size pipe clock sample is_extract short =
      let iq = normalise sample.iq in
      let f = started iq sample.sample_rate sample.center_freq in
      let few : length iq < 256 = omega (arith, length-normalise sample.iq, short) in
      let got : classify_sample pipe clock sample ≡ ok (row_of pipe clock sample f) =
        ap
          (λ e.
            e iq sample.sample_rate sample.center_freq >>= (λ g. ok (row_of pipe clock sample g)))
          is_extract
        ∙ ap (λ m. m >>= (λ g. ok (row_of pipe clock sample g)))
            (extract_short fft_size iq sample.sample_rate sample.center_freq few) in
      let (cls, det, top, exact) =
        row_started zero_low pipe clock sample iq sample.sample_rate sample.center_freq in
      (row_of pipe clock sample f, got, cls, det, top, exact)

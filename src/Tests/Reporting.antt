-- ===== src/Tests/Reporting.antt =====
-- Runs of the harness.
use analysis_app.Prelude.{◌≡◌, refl, false, List, [], ◌∷◌, All}
use analysis_app.Prelude.Int.{ℤ, pos}
use analysis_app.Float.Fixed.{fixed_float, lit_ℤ, fixed-IsOrdered}
use analysis_app.Numpy.Fixed.{fixed_numpy}
use analysis_app.Datasets.{IqSample}
use analysis_app.Harness.Sample.{row_of}
use analysis_app.Harness.Verdicts.{never_matches, structural_unmapped}
use analysis_app.Harness.Batch.{run_batch, run_batch_lem, rows_from, IsDue}
use analysis_app.Tests.Signals.{ais_burst, ofdm_signal, pipe, clock, sample_of}

abbrev qam_sample : IqSample ℤ
qam_sample = sample_of "64QAM" (lit_ℤ 1 0)

never_matches_example :
    ((row_of pipe clock qam_sample ais_burst).exact_match ≡ false)
    × ((row_of pipe clock qam_sample ais_burst).family_match ≡ false)
never_matches_example = never_matches fixed-IsOrdered pipe clock qam_sample ais_burst

structural_unmapped_example :
    ((row_of pipe clock qam_sample ofdm_signal).classified ≡ false)
    × ((row_of pipe clock qam_sample ofdm_signal).top_protocol ≡ "")
    × ((row_of pipe clock qam_sample ofdm_signal).top_reasoning ≡ "")
unfolding row_of
structural_unmapped_example = structural_unmapped pipe clock qam_sample ofdm_signal refl

-- Two samples; the first one raises.
abbrev two_samples : List (IqSample ℤ)
two_samples = sample_of "GMSK" (pos 0) ∷ sample_of "GMSK" (lit_ℤ 161975000 0) ∷ []

run_batch_lem_example :
    let (rows, lines) = run_batch pipe (λ i. clock) two_samples in
    (rows ≡ rows_from pipe (λ i. clock) 0 two_samples) × All (IsDue 2 rows) lines
run_batch_lem_example = run_batch_lem pipe (λ i. clock) two_samples

-- ===== src/Tests/Extracting.antt =====
-- Runs of the feature extractor.
use analysis_app.Prelude.{
  ◌≡◌, refl, ℕ, ◌≤◌, inl, false, none, some, map, List, [], ◌∷◌, length, replicate,
  length-replicate, arith,
}
use analysis_app.Prelude.Int.{ℤ, pos}
use analysis_app.Prelude.Results.{Result, ok, raised, Raises}
use analysis_app.Float.Fixed.{fixed_float, lit_ℤ}
use analysis_app.Numpy.{Complex}
use analysis_app.Numpy.Fixed.{fixed_numpy, fixed-IsShaped}
use analysis_app.Features.Extract.{extract}
use analysis_app.Features.Extract.Refused.{Raises-extract}
use analysis_app.Protocol.Db.{protocol_db}
use analysis_app.Harness.Labels.{canonical}
use analysis_app.Harness.Sample.{Row, Pipeline, classify_sample}
use analysis_app.Harness.Short.{short_unclassified}
use analysis_app.Features.Arrays.Chunks.{concat_all}
use analysis_app.Harness.Batch.{BatchRow}
use analysis_app.Harness.Runs.{
  Options, loads, run_options, loaded_by, combined_table, tables_from, report_combined,
  run_options_lem,
}
use analysis_app.Tests.Signals.{clock, sample_of}

abbrev one : Complex ℤ
one = record { re = lit_ℤ 1 0; im = pos 0 }

-- 320 equal samples.
abbrev tone : List (Complex ℤ)
tone = replicate 320 one

tone_long : 256 ≤ length tone
tone_long = omega (arith, length-replicate 320 one)

Raises-extract_example : Raises (extract 4096 tone (pos 0) (pos 0))
Raises-extract_example =
    Raises-extract fixed-IsShaped 4096 tone (pos 0) (pos 0) tone_long (inl refl)

abbrev real_pipe : Pipeline ℤ
real_pipe = record { extract = extract 4096; db = protocol_db; base_name = λ s. s }

short_unclassified_example :
    (row : Row ℤ) × (classify_sample real_pipe clock (sample_of "QPSK" (pos 0)) ≡ ok row)
    × (row.classified ≡ false)
    × (row.detected_mod ≡ "UNCLASSIFIED")
    × (row.top_protocol ≡ "")
    × (row.exact_match ≡ false)
unfolding canonical
short_unclassified_example =
    short_unclassified refl 4096 real_pipe clock (sample_of "QPSK" (pos 0)) refl (omega arith)

abbrev to_zero : ℤ → ℕ
to_zero x = 0

abbrev two_files : Options ℤ
two_files = record {
  radioml_2016 = none;
  radioml_2018 = none;
  sigmf = raised "no such file" ∷ ok (sample_of "QPSK" (pos 0) ∷ []) ∷ [];
  raw = some (ok (sample_of "FM" (pos 0) ∷ []));
  dir_sigmf = [];
  dir_iq = [];
}

-- A report that refuses tables without rows.
abbrev report_rows : List (BatchRow ℤ) → Result {0} Unit
report_rows [] = raised "empty table"
report_rows (row ∷ rows) = ok tt

run_options_lem_example :
    run_options real_pipe (λ k i. clock) report_rows two_files
    ≡ ok (
      concat_all (map loaded_by (loads two_files)),
      combined_table (tables_from real_pipe (λ k i. clock) report_rows 0 (loads two_files)),
    )
unfolding loads report_combined
run_options_lem_example =
    run_options_lem real_pipe (λ k i. clock) report_rows two_files
      (tt, (tt, ((_, refl, (λ k. (tt, refl))), tt))) (tt, refl)

-- ===== src/Tests/Rtl.antt =====
-- Runs of the capture with rtl_sdr.
use analysis_app.Prelude.{◌≡◌, refl, true, ◌≢◌, String, List, [], ◌∷◌, length, replicate, arith}
use analysis_app.Prelude.Int.{ℤ, pos}
use analysis_app.Prelude.Results.{ok, each}
use analysis_app.Float.Fixed.{fixed_float, lit_ℤ}
use analysis_app.Numpy.{Complex}
use analysis_app.Numpy.Fixed.{fixed_numpy}
use analysis_app.Datasets.Raw.{iq_value}
use analysis_app.Datasets.Npz.{Npz, class_name}
use analysis_app.Capture.Rtl.Targets.{RtlTarget, rtl_target}
use analysis_app.Capture.Rtl.{
  Command, Outcome, finished, not_found, Planes, planes, Collection, nothing_yet, estimate_snr,
  rtl_loop, saved_npz,
}
use analysis_app.Capture.Rtl.Filled.{IsCapped}
use analysis_app.Capture.Rtl.Capped.{rtl_loop_lem}
use analysis_app.Capture.Rtl.Saved.{labels_in, windows_in, saved_npz_lem}

abbrev two_stations : List RtlTarget
two_stations =
    rtl_target "FM_WB" 89100000 2048000 12 2000 ∷ rtl_target "FM_WB" 93100000 2048000 12 2000 ∷ []

-- A receiver that gives 1300 samples.
abbrev steady_receiver : Command ℤ → Outcome
steady_receiver c = finished (pos 0) (replicate 2600 200)

never_missing : (c : Command ℤ) → steady_receiver c ≢ not_found
never_missing c h = cc

rtl_loop_lem_example :
    (out : Collection ℤ) × (rtl_loop steady_receiver
        (lit_ℤ 350 1)
        (pos 0)
        3
        two_stations
        nothing_yet
      ≡ ok out)
    × IsCapped (pos 0) 3 out
rtl_loop_lem_example =
    rtl_loop_lem (pos 0) 3 steady_receiver (lit_ℤ 350 1) two_stations never_missing

abbrev one_window : List (Complex ℤ)
one_window = replicate 1024 (iq_value (lit_ℤ 1 0) (lit_ℤ 2 0))

abbrev two_buckets : List (String × List (Planes ℤ))
two_buckets =
    ("GMSK", planes one_window ∷ []) ∷ ("FM_WB", planes one_window ∷ planes one_window ∷ []) ∷ []

loud : fixed_float.le (pos 0) (estimate_snr one_window) ≡ true
unfolding estimate_snr
loud = refl

saved_npz_lem_example :
    (d : Npz ℤ) × (saved_npz two_buckets ≡ ok d)
    × (d.x ≡ windows_in two_buckets)
    × (length d.y ≡ length d.x)
    × (each (class_name (λ z. "") d.classes) d.y ≡ ok (labels_in two_buckets))
saved_npz_lem_example =
    saved_npz_lem (pos 0) (λ z. "") two_buckets (omega arith)
      (
        (omega arith, ((one_window, refl, refl, loud), tt)),
        ((omega arith, ((one_window, refl, refl, loud), ((one_window, refl, refl, loud), tt))), tt),
      )

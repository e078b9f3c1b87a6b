-- ===== src/Tests/Verifying.antt =====
-- Runs of the real-world verification.
use native.Mathlib.Nat.{le-div_iff_mul-le}
use analysis_app.Prelude.{
  ℕ, ◌*◌, ◌/◌, ◌^◌, ◌≤◌, ◌<◌, ◌≡◌, refl, String, length-replicate, replicate, arith,
}
use analysis_app.Prelude.Int.{ℤ, pos}
use analysis_app.Prelude.Results.{ok, Raises}
use analysis_app.Float.Fixed.{fixed_float, lit_ℤ, unit}
use analysis_app.Numpy.Fixed.{fixed_numpy, fixed-IsShaped}
use analysis_app.Protocol.Db.{protocol_db}
use analysis_app.Profiles.{rtl_sdr}
use analysis_app.Realworld.Signals.{Source, signals}
use analysis_app.Realworld.{Trial, ProfileResult, run_profile}
use analysis_app.Realworld.Lengths.{IsDrawn}
use analysis_app.Realworld.Rates.{IsRate, AreRows}
use analysis_app.Realworld.Verified.{run_profile_lem}
use analysis_app.Tests.Loading.{quiet, quiet-IsSound}

-- Draws that are all the same.
abbrev steady_source : Source ℤ
steady_source = record {
  sin = λ x. pos 0;
  ifft = λ xs. xs;
  bpsk_bits = λ n. replicate n 1;
  fsk_bits = λ n. replicate n 0;
  qpsk_points = λ n. replicate n 2;
  ofdm_points = λ k n. replicate n 3;
  audio = λ n. replicate n (pos 0);
}

steady-IsDrawn : IsDrawn ℤ steady_source
steady-IsDrawn = record {
  length-ifft = λ xs. refl;
  length-bpsk_bits = λ n. length-replicate n 1;
  length-fsk_bits = λ n. length-replicate n 0;
  length-qpsk_points = λ n. length-replicate n 2;
  length-ofdm_points = λ k n. length-replicate n 3;
  length-audio = λ n. length-replicate n (pos 0);
}

fixed-IsRate : (n : ℕ) → 0 < n → n ≤ 10 ^ 6 → IsRate (lit_ℤ n 0)
fixed-IsRate n h k =
    let least : 1 ≤ 1000000000000 / (n * unit / 1) =
      (le-div_iff_mul-le {k = n * unit / 1} {x = 1} {y = 1000000000000} (omega (arith, h))).1
        (omega (arith, k)) in
    ((ground arith, ground (arith, least)), (λ iq long. (_, refl)))

abbrev quiet_trial : String → ℕ → Trial ℤ
quiet_trial l k = record { channel = quiet; started = pos 0; ended = pos 5 }

run_profile_lem_example :
    (r : ProfileResult ℤ) × (run_profile 4096 protocol_db steady_source rtl_sdr 5 quiet_trial
      ≡ ok r)
    × AreRows 5 (signals steady_source) r.rows
    × Raises (run_profile 4096 protocol_db steady_source rtl_sdr 0 quiet_trial)
run_profile_lem_example =
    run_profile_lem fixed-IsShaped fixed-IsRate 4096 (omega arith) (omega arith) protocol_db
      quiet_trial (λ l k. quiet-IsSound) steady_source steady-IsDrawn rtl_sdr 5 (omega arith)

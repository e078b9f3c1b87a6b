-- ===== src/Realworld.antt =====
-- tools/test_harness/verify_realworld.py: the pipeline on generated signals, behind the impairments of
-- receivers. For each run the generator of the impairments and the readings of the clock are given.
pub mod Signals
pub mod Lengths
pub mod Rates
pub mod Verified
use analysis_app.Prelude.{
  ℕ, ◌+◌, String, Bool, ◌==◌, none, some, Option, List, [], ◌∷◌, ◌++◌, foldl, length, map,
  if◌then◌else◌,
}
use analysis_app.Prelude.Text.{str_eq}
use analysis_app.Prelude.Assoc.{lookup, get_or}
use analysis_app.Prelude.Results.{Result, ok, raised, ◌>>=◌, each}
use analysis_app.Features.Arrays.{range}
use analysis_app.Features.Extract.{extract}
use analysis_app.Float.{Float}
use analysis_app.Numpy.{Complex, Numpy}
use analysis_app.Protocol.Signature.{Signature}
use analysis_app.Datasets.{normalise}
use analysis_app.Datasets.Npz.{or_raised}
use analysis_app.Profiles.{
  ImpairmentConfig, ImpairmentProfile, clean, rtl_sdr, hackrf, pluto_sdr, over_the_air,
  no_impairment, profiles,
}
use analysis_app.Impairments.{Channel, add_impairments}
use analysis_app.Harness.Sample.{classify_features, detected_or}
use analysis_app.Realworld.Signals.{Signal, Source, signals}

-- EXPECTED
abbrev pub expected_mods : List (String × String)
expected_mods =
    ("BPSK", "BPSK")
    ∷ ("QPSK", "QPSK")
    ∷ ("FM_NB", "FM_NB")
    ∷ ("AM_DSB_LC", "AM_DSB_LC")
    ∷ ("OFDM", "OFDM")
    ∷ ("FSK", "FSK")
    ∷ ("CSS/LoRa", "CSS")
    ∷ []

-- FAMILY
abbrev pub family_table : List (String × String)
family_table =
    ("BPSK", "PSK")
    ∷ ("QPSK", "PSK")
    ∷ ("FM_WB", "FM")
    ∷ ("FM_NB", "FM")
    ∷ ("AM_DSB_LC", "AM")
    ∷ ("SSB", "AM")
    ∷ ("OFDM", "OFDM")
    ∷ ("FSK", "FSK")
    ∷ ("MSK/GMSK", "FSK")
    ∷ ("CSS", "CSS")
    ∷ ("FHSS", "FHSS")
    ∷ []

unfoldable pub family_match : String → String → Bool
family_match detected expected =
    str_eq (get_or detected family_table detected) (get_or expected family_table expected)

-- A run: its generator, and the clock before and after the classification.
pub record Trial (F : Type 0) : Type 0 where
  pub channel : Channel F
  pub started : F
  pub ended : F

-- What the loops count: a sweep also counts the runs, and a profile keeps the latencies.
pub record Tally (F : Type 0) : Type 0 where
  pub exact_hits : ℕ
  pub fam_hits : ℕ
  pub total : ℕ
  pub latencies : List F

abbrev pub no_runs : {F : Type 0} → Tally F
no_runs = record { exact_hits = 0; fam_hits = 0; total = 0; latencies = [] }

pub record ProfileRow (F : Type 0) : Type 0 where
  pub signal : String
  pub expected : String
  pub exact_rate : F
  pub fam_rate : F
  pub latency_ms : F

pub record ProfileResult (F : Type 0) : Type 0 where
  pub rows : List (ProfileRow F)
  pub overall_exact : F
  pub overall_fam : F

-- int(b)
abbrev pub one_if : Bool → ℕ
one_if b = if b then 1 else 0

-- profiles_to_run, for a value of --profile
unfoldable pub profiles_to_run : String → Result (List (String × ImpairmentProfile))
profiles_to_run name =
    if str_eq name "all"
    then ok (
        ("Clean (lab)", clean)
        ∷ ("RTL-SDR (consumer)", rtl_sdr)
        ∷ ("HackRF (mid-range)", hackrf)
        ∷ ("PlutoSDR (good IQ)", pluto_sdr)
        ∷ ("Over-the-Air (OTA)", over_the_air)
        ∷ [])
    else (or_raised name (
          lookup name (
            ("clean", ("Clean (lab)", clean))
            ∷ ("rtl_sdr", ("RTL-SDR", rtl_sdr))
            ∷ ("hackrf", ("HackRF", hackrf))
            ∷ ("pluto_sdr", ("PlutoSDR", pluto_sdr))
            ∷ ("ota", ("Over-the-Air (OTA)", over_the_air))
            ∷ []))
        >>= λ p. ok (p ∷ []))

module _ {F : Type 0} ⦃fl : Float F⦄ ⦃np : Numpy F⦄ where
  open fl use {lit, neg, add, sub, mul, div}

  -- a / n, for a number of Python's own
  abbrev pub over_count : F → ℕ → Result F
  over_count a n = if n == 0 then raised "division by zero" else ok (div a (lit n 0))

  -- sum(xs) / len(xs)
  abbrev pub average : List F → Result F
  average xs = over_count (foldl add (lit 0 0) xs) (length xs)

  unfoldable pub snr_levels : List F
  snr_levels =
      neg (lit 10 0)
      ∷ neg (lit 5 0)
      ∷ lit 0 0
      ∷ lit 5 0
      ∷ lit 10 0
      ∷ lit 15 0
      ∷ lit 20 0
      ∷ lit 30 0
      ∷ []

  -- the impairments of a profile, without its jitter, its offset in Hz and its taps
  unfoldable pub snr_config : F → ImpairmentConfig F → ImpairmentConfig F
  snr_config snr base = record no_impairment {
    snr_db = snr;
    freq_offset_ppm = base.freq_offset_ppm;
    iq_amplitude_imbalance_db = base.iq_amplitude_imbalance_db;
    iq_phase_imbalance_deg = base.iq_phase_imbalance_deg;
    phase_noise_linewidth_hz = base.phase_noise_linewidth_hz;
    dc_offset_i = base.dc_offset_i;
    dc_offset_q = base.dc_offset_q;
  }

  module _ (fft_size : ℕ) (db : List Signature) where
    -- the detected modulation; the latency is that of the clock
    unfoldable pub classify_one : List (Complex F) → F → F → Result String
    unfolding classify_features
    classify_one iq sr cf =
        extract fft_size (normalise iq) sr cf >>= λ f. ok (detected_or (classify_features db f))

    -- a turn of the innermost loop
    unfoldable pub run_trial :
        Option (ImpairmentConfig F)
        → ImpairmentProfile
        → Signal F
        → String
        → Trial F
        → Tally F
        → Result (Tally F)
    unfolding classify_one family_match
    run_trial cfg profile s expected trial t =
        add_impairments trial.channel s.iq s.sample_rate cfg profile >>= λ iq_imp.
        classify_one iq_imp s.sample_rate (lit 0 1) >>= λ detected. ok (record {
          exact_hits = t.exact_hits + one_if (str_eq detected expected);
          fam_hits = t.fam_hits + one_if (family_match detected expected);
          total = t.total + 1;
          latencies = t.latencies ++ mul (sub trial.ended trial.started) (lit 1000 0) ∷ [];
        })

    unfoldable pub run_trials :
        Option (ImpairmentConfig F)
        → ImpairmentProfile
        → Signal F
        → String
        → List (Trial F)
        → Tally F
        → Result (Tally F)
    unfolding run_trial
    run_trials cfg profile s expected [] t = ok t
    run_trials cfg profile s expected (trial ∷ trials) t =
        run_trial cfg profile s expected trial t >>= run_trials cfg profile s expected trials

    -- the row of a signal, of which the runs are given for each round
    unfoldable pub signal_row :
        ImpairmentProfile → ℕ → (String → ℕ → Trial F) → Signal F → Result (ProfileRow F)
    unfolding run_trials
    signal_row profile repeats trial s =
        or_raised s.label (lookup s.label expected_mods) >>= λ expected.
        run_trials none profile s expected (map (trial s.label) (range repeats)) no_runs >>= λ t.
        over_count (lit t.exact_hits 0) repeats >>= λ exact_rate.
        over_count (lit t.fam_hits 0) repeats >>= λ fam_rate. average t.latencies >>= λ latency_ms.
        ok (record {
          signal = s.label;
          expected = expected;
          exact_rate = exact_rate;
          fam_rate = fam_rate;
          latency_ms = latency_ms;
        })

    unfoldable pub run_profile :
        Source F → ImpairmentProfile → ℕ → (String → ℕ → Trial F) → Result (ProfileResult F)
    unfolding signal_row signals
    run_profile src profile repeats trial =
        each (signal_row profile repeats trial) (signals src) >>= λ rows.
        average (map (λ r. r.exact_rate) rows) >>= λ overall_exact.
        average (map (λ r. r.fam_rate) rows) >>= λ overall_fam.
        ok (record { rows = rows; overall_exact = overall_exact; overall_fam = overall_fam })

    -- the loop of a sweep over the signals, with one count for them all
    unfoldable pub sweep_signals :
        ImpairmentConfig F → (String → ℕ → Trial F) → List (Signal F) → Tally F → Result (Tally F)
    unfolding run_trials
    sweep_signals cfg trial [] t = ok t
    sweep_signals cfg trial (s ∷ rest) t =
        or_raised s.label (lookup s.label expected_mods) >>= λ expected.
        run_trials (some cfg) rtl_sdr s expected (map (trial s.label) (range 3)) t
        >>= sweep_signals cfg trial rest

    -- the printed rows: an SNR, and its counts
    unfoldable pub run_snr_sweep :
        Source F → ImpairmentProfile → (String → ℕ → Trial F) → Result (List (F × Tally F))
    unfolding snr_levels snr_config sweep_signals signals
    run_snr_sweep src profile_base trial =
        each
          (λ snr.
            sweep_signals (snr_config snr (profiles profile_base)) trial (signals src) no_runs
            >>= λ t. ok (snr, t))
          snr_levels

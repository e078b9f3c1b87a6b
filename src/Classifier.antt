-- ===== src/Classifier.antt =====
-- tools/test_harness/classifier.py, the result types and `ModulationClassifier`. The result object
-- that `classify` fills is a record, and each assignment to its fields a record update.
pub mod Gate
pub mod Emitted
use analysis_app.Prelude.{
  ℕ, String, Bool, true, false, ◌&&◌, ◌||◌, List, [], ◌∷◌, ltb, if◌then◌else◌,
}
use analysis_app.Prelude.Text.{concat}
use analysis_app.Float.{Float}
use analysis_app.Features.{SignalFeatures}

pub record Hypothesis (F : Type 0) : Type 0 where
  pub system : String
  pub category : String
  pub confidence : F
  pub reasoning : String

pub record ClassificationResult (F : Type 0) : Type 0 where
  pub analog_modulation : String
  pub analog_index : F
  pub digital_modulation : String
  pub symbol_rate_sps : F
  pub m_ary : ℕ
  pub is_ofdm : Bool
  pub is_burst : Bool
  pub burst_duty : F
  pub is_tdma : Bool
  pub is_fhss : Bool
  pub is_dsss : Bool
  pub bit_rate_bps : F
  pub fec_detected : Bool
  pub has_sync_pattern : Bool
  pub hypotheses : List (Hypothesis F)
  pub classified : Bool
  pub reject_reason : String

module _ {F : Type 0} ⦃fl : Float F⦄ where
  open fl use {lit, neg, abs, log2, add, sub, mul, div, lt, eq, fixed}

  abbrev pub snr_min_db : F
  snr_min_db = lit 50 1

  abbrev pub const_env_thresh : F
  const_env_thresh = lit 8 2

  abbrev pub am_env_thresh : F
  am_env_thresh = lit 12 2

  -- ClassificationResult(): the defaults of the dataclass
  abbrev pub no_result : ClassificationResult F
  no_result = record {
    analog_modulation = "";
    analog_index = lit 0 0;
    digital_modulation = "";
    symbol_rate_sps = lit 0 0;
    m_ary = 0;
    is_ofdm = false;
    is_burst = false;
    burst_duty = lit 1 0;
    is_tdma = false;
    is_fhss = false;
    is_dsss = false;
    bit_rate_bps = lit 0 0;
    fec_detected = false;
    has_sync_pattern = false;
    hypotheses = [];
    classified = false;
    reject_reason = "";
  }

  abbrev pub is_analog : SignalFeatures F → Bool
  is_analog f = lt am_env_thresh f.envelope_variance_norm

  -- The local `bw` of the source is never read.
  unfoldable pub classify_analog : SignalFeatures F → String × F
  classify_analog f =
      if lt f.envelope_variance_norm const_env_thresh
      then if lt (lit 50000 0) f.fm_deviation_hz
        then ("FM_WB", f.fm_deviation_hz)
        else if lt (lit 3000 0) f.fm_deviation_hz
        then ("FM_NB", f.fm_deviation_hz)
        else if lt (lit 3 1) f.inst_phase_std
        then ("PM", f.inst_phase_std)
        else ("FM_NB", f.fm_deviation_hz)
      else if lt f.spectral_symmetry (lit 4 1) && lt (lit 5 2) f.am_index
      then if lt (lit 0 0) f.inst_freq_mean_hz
        then ("SSB_USB", f.am_index)
        else ("SSB_LSB", f.am_index)
      else if lt f.am_index (lit 5 2)
      then ("AM_DSB_SC", f.am_index)
      else if f.is_burst && lt f.burst_duty_cycle (lit 5 1)
      then ("CW", f.am_index)
      else ("AM_DSB_LC", f.am_index)

  abbrev pub near : F → F → F → Bool
  near x target tol = lt (abs (sub x target)) tol

  -- The two places that tell wideband from narrowband FM.
  abbrev pub fm_width : SignalFeatures F → String × ℕ
  fm_width f = if lt (lit 50000 0) f.fm_deviation_hz then ("FM_WB", 0) else ("FM_NB", 0)

  -- `dev_ratio`, with the defaults that the source takes for a missing rate or bandwidth
  abbrev pub dev_ratio : SignalFeatures F → F
  dev_ratio f =
      let sr = if lt (lit 0 0) f.sample_rate_sps then f.sample_rate_sps else lit 1000000 0 in
      let bw = if lt (lit 0 0) f.bandwidth_hz then f.bandwidth_hz else mul sr (lit 1 1) in
      if lt (lit 0 0) bw then div f.fm_deviation_hz bw else lit 0 0

  -- FSK against analog FM: a noticeable deviation in the constant-envelope family
  unfoldable pub classify_deviating : SignalFeatures F → String × ℕ
  classify_deviating f =
      let h = div f.fm_deviation_hz (add (div f.symbol_rate_sps (lit 20 1)) (lit 1 3)) in
      if lt (lit 0 0) f.symbol_rate_sps
      then if lt (abs (sub h (lit 5 1))) (lit 25 2)
        then ("MSK/GMSK", 2)
        else if lt (lit 30 1) h
        then fm_width f
        else ("FSK", 2)
      else fm_width f

  unfoldable pub classify_const_env : SignalFeatures F → String × ℕ
  unfolding classify_deviating
  classify_const_env f =
      let c40 = f.c40_real in
      let c42 = f.c42 in
      let is_psk_like = lt (lit 30 1) f.inst_freq_kurtosis in
      if is_psk_like
        && (lt (lit 45 2) f.m20_max
            || lt f.c40_min (neg (lit 15 1))
            || (near c40 (neg (lit 20 1)) (lit 6 1) && near c42 (neg (lit 20 1)) (lit 7 1)))
      then ("BPSK", 2)
      else if is_psk_like
          && lt (neg (lit 15 1)) f.c40_min
          && lt f.c40_min (neg (lit 3 1))
          && lt f.m20_max (lit 45 2)
      then ("QPSK", 4)
      else if near c40 (lit 0 1) (lit 6 1) && near c42 (neg (lit 10 1)) (lit 6 1)
      then if lt (lit 5 2) (dev_ratio f) then classify_deviating f else ("8PSK", 8)
      else ("PSK", 2)

  unfoldable pub classify_varying : SignalFeatures F → String × ℕ
  classify_varying f =
      let c40 = f.c40_real in
      let c42 = f.c42 in
      if near c40 (neg (lit 20 1)) (lit 6 1) && near c42 (neg (lit 20 1)) (lit 7 1)
      then ("BPSK", 2)
      else if near c40 (neg (lit 10 1)) (lit 5 1) && near c42 (neg (lit 10 1)) (lit 5 1)
      then ("QPSK", 4)
      else if near c40 (neg (lit 68 2)) (lit 15 2) && near c42 (neg (lit 68 2)) (lit 15 2)
      then ("QAM16", 16)
      else if near c40 (neg (lit 62 2)) (lit 10 2) && near c42 (neg (lit 62 2)) (lit 10 2)
      then ("QAM64", 64)
      else if near c40 (neg (lit 50 2)) (lit 15 2) && near c42 (neg (lit 50 2)) (lit 15 2)
      then ("QAM32", 32)
      else if near c40 (neg (lit 46 2)) (lit 12 2) && near c42 (neg (lit 46 2)) (lit 12 2)
      then ("QAM256", 256)
      else if lt (lit 3 1) f.envelope_variance_norm && lt (lit 10 1) (abs c42)
      then ("M-ASK/OOK", 2)
      else ("UNKNOWN", 0)

  unfoldable pub classify_digital : SignalFeatures F → String × ℕ
  unfolding classify_const_env classify_varying
  classify_digital f =
      if lt f.envelope_variance_norm const_env_thresh
      then classify_const_env f
      else classify_varying f

  -- The lines of `classify` before its first return: burst, hopping and TDMA flags.
  abbrev pub burst_result : SignalFeatures F → ClassificationResult F
  burst_result f = record no_result {
    is_burst = f.is_burst;
    burst_duty = f.burst_duty_cycle;
    is_fhss = f.fhss_detected;
    is_tdma = f.is_burst && lt (lit 0 0) f.burst_period_ms;
  }

  abbrev pub css_rate : SignalFeatures F → F
  css_rate f =
      if eq f.sample_rate_sps (lit 0 0)
      then lit 0 0
      else abs (div f.chirp_rate_hz_s f.sample_rate_sps)

  abbrev pub ofdm_rate : SignalFeatures F → F
  ofdm_rate f =
      if ltb 0 f.ofdm_fft_size_est && lt (lit 0 0) f.sample_rate_sps
      then div f.sample_rate_sps (lit f.ofdm_fft_size_est 0)
      else lit 0 0

  abbrev pub bit_rate : SignalFeatures F → ℕ → F
  bit_rate f m =
      if ltb 1 m && lt (lit 0 0) f.symbol_rate_sps
      then mul f.symbol_rate_sps (log2 (lit m 0))
      else lit 0 0

  -- Layer 1: the result of `_classify_analog`
  abbrev pub analog_result : SignalFeatures F → ClassificationResult F
  analog_result f =
      let (analog, index) = classify_analog f in
      record (burst_result f) {
        classified = true;
        analog_modulation = analog;
        analog_index = index;
      }

  -- Layer 2: the result of `_classify_digital`
  abbrev pub digital_result : SignalFeatures F → ClassificationResult F
  digital_result f =
      let (digital, m) = classify_digital f in
      record (burst_result f) {
        classified = true;
        digital_modulation = digital;
        m_ary = m;
        symbol_rate_sps = f.symbol_rate_sps;
        bit_rate_bps = bit_rate f m;
      }

  -- Past the SNR gate: analog first, then digital.
  unfoldable pub classify_carrier : SignalFeatures F → ClassificationResult F
  unfolding classify_analog classify_digital
  classify_carrier f = if is_analog f then analog_result f else digital_result f

  abbrev pub css_result : SignalFeatures F → ClassificationResult F
  css_result f = record (burst_result f) {
    digital_modulation = "CSS";
    symbol_rate_sps = css_rate f;
  }

  abbrev pub ofdm_result : SignalFeatures F → ClassificationResult F
  ofdm_result f = record (burst_result f) {
    digital_modulation = "OFDM";
    is_ofdm = true;
    symbol_rate_sps = ofdm_rate f;
  }

  abbrev pub fhss_result : SignalFeatures F → ClassificationResult F
  fhss_result f = record (burst_result f) { digital_modulation = "FHSS" }

  abbrev pub rejected_result : SignalFeatures F → ClassificationResult F
  rejected_result f = record (burst_result f) {
    reject_reason = concat ("SNR too low: " ∷ fixed 1 f.snr_db ∷ " dB < 5.0 dB" ∷ []);
  }

  unfoldable pub classify : SignalFeatures F → ClassificationResult F
  unfolding classify_carrier
  classify f =
      if f.chirp_detected
      then css_result f
      else if f.ofdm_detected
      then ofdm_result f
      else if f.fhss_detected
      then fhss_result f
      else if lt f.snr_db snr_min_db
      then rejected_result f
      else classify_carrier f

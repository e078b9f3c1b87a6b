-- ===== src/Features.antt =====
-- tools/test_harness/features.py: the record that the extractor fills and the classifier reads.
pub mod Arrays
pub mod Detectors
pub mod Ofdm
pub mod Extract
use analysis_app.Prelude.{ℕ, Bool, false}
use analysis_app.Float.{Float}

pub record SignalFeatures (F : Type 0) : Type 0 where
  pub center_freq_hz : F
  pub bandwidth_hz : F
  pub snr_db : F
  pub spectral_flatness : F
  pub spectral_symmetry : F
  pub envelope_mean : F
  pub envelope_std : F
  pub envelope_variance_norm : F
  pub inst_freq_mean_hz : F
  pub inst_freq_std_hz : F
  pub inst_phase_std : F
  pub am_index : F
  pub fm_deviation_hz : F
  pub c40_real : F
  pub c40_imag : F
  pub c42 : F
  pub c41_real : F
  pub m20_mag : F
  pub c40_min : F
  pub m20_max : F
  pub inst_freq_kurtosis : F
  pub symbol_rate_sps : F
  pub bit_rate_bps : F
  pub is_burst : Bool
  pub burst_duty_cycle : F
  pub burst_period_ms : F
  pub ofdm_detected : Bool
  pub ofdm_fft_size_est : ℕ
  pub ofdm_cp_ratio : F
  pub fhss_detected : Bool
  pub fhss_hop_rate_hz : F
  pub dsss_detected : Bool
  pub chirp_detected : Bool
  pub chirp_rate_hz_s : F
  pub sample_count : ℕ
  pub sample_rate_sps : F

-- SignalFeatures(): the defaults of the dataclass
abbrev pub no_features : {F : Type 0} ⦃fl : Float F⦄ → SignalFeatures F
no_features ⦃fl⦄ =
    let zero_f = fl.lit 0 0 in
    record {
      center_freq_hz = zero_f;
      bandwidth_hz = zero_f;
      snr_db = zero_f;
      spectral_flatness = zero_f;
      spectral_symmetry = zero_f;
      envelope_mean = zero_f;
      envelope_std = zero_f;
      envelope_variance_norm = zero_f;
      inst_freq_mean_hz = zero_f;
      inst_freq_std_hz = zero_f;
      inst_phase_std = zero_f;
      am_index = zero_f;
      fm_deviation_hz = zero_f;
      c40_real = zero_f;
      c40_imag = zero_f;
      c42 = zero_f;
      c41_real = zero_f;
      m20_mag = zero_f;
      c40_min = zero_f;
      m20_max = zero_f;
      inst_freq_kurtosis = zero_f;
      symbol_rate_sps = zero_f;
      bit_rate_bps = zero_f;
      is_burst = false;
      burst_duty_cycle = fl.lit 1 0;
      burst_period_ms = zero_f;
      ofdm_detected = false;
      ofdm_fft_size_est = 0;
      ofdm_cp_ratio = zero_f;
      fhss_detected = false;
      fhss_hop_rate_hz = zero_f;
      dsss_detected = false;
      chirp_detected = false;
      chirp_rate_hz_s = zero_f;
      sample_count = 0;
      sample_rate_sps = zero_f;
    }

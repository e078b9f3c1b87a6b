-- ===== src/Profiles.antt =====
-- tools/test_harness/impairments.py: the configurations of the receivers.
use analysis_app.Prelude.{List, [], ◌∷◌}
use analysis_app.Float.{Float}

-- A tap (delay_samples, amplitude, phase_deg).
pub record Tap (F : Type 0) : Type 0 where
  pub delay : F
  pub amplitude : F
  pub phase_deg : F

pub record ImpairmentConfig (F : Type 0) : Type 0 where
  pub snr_db : F
  pub freq_offset_ppm : F
  pub freq_offset_hz : F
  pub iq_amplitude_imbalance_db : F
  pub iq_phase_imbalance_deg : F
  pub phase_noise_linewidth_hz : F
  pub dc_offset_i : F
  pub dc_offset_q : F
  pub timing_jitter_sigma : F
  pub multipath_taps : List (Tap F)

pub data ImpairmentProfile : Type 0 where
  clean : ImpairmentProfile
  rtl_sdr : ImpairmentProfile
  hackrf : ImpairmentProfile
  pluto_sdr : ImpairmentProfile
  over_the_air : ImpairmentProfile

module _ {F : Type 0} ⦃fl : Float F⦄ where
  open fl use {lit, neg}

  -- ImpairmentConfig(): the defaults of the dataclass
  abbrev pub no_impairment : ImpairmentConfig F
  no_impairment = record {
    snr_db = lit 200 1;
    freq_offset_ppm = lit 0 1;
    freq_offset_hz = lit 0 1;
    iq_amplitude_imbalance_db = lit 0 1;
    iq_phase_imbalance_deg = lit 0 1;
    phase_noise_linewidth_hz = lit 0 1;
    dc_offset_i = lit 0 1;
    dc_offset_q = lit 0 1;
    timing_jitter_sigma = lit 0 1;
    multipath_taps = [];
  }

  abbrev pub tap : F → F → F → Tap F
  tap delay amp phase = record { delay = delay; amplitude = amp; phase_deg = phase }

  unfoldable pub profiles : ImpairmentProfile → ImpairmentConfig F
  profiles clean = record no_impairment {
    snr_db = lit 40 0;
    freq_offset_ppm = lit 5 1;
    iq_amplitude_imbalance_db = lit 1 1;
    iq_phase_imbalance_deg = lit 5 1;
    phase_noise_linewidth_hz = lit 10 0;
    dc_offset_i = lit 2 3;
    dc_offset_q = lit 1 3;
  }
  profiles rtl_sdr = record no_impairment {
    snr_db = lit 25 0;
    freq_offset_ppm = lit 30 0;
    iq_amplitude_imbalance_db = lit 5 1;
    iq_phase_imbalance_deg = lit 30 1;
    phase_noise_linewidth_hz = lit 500 0;
    dc_offset_i = lit 2 2;
    dc_offset_q = lit 15 3;
    timing_jitter_sigma = lit 2 3;
  }
  profiles hackrf = record no_impairment {
    snr_db = lit 30 0;
    freq_offset_ppm = lit 5 0;
    iq_amplitude_imbalance_db = lit 3 1;
    iq_phase_imbalance_deg = lit 15 1;
    phase_noise_linewidth_hz = lit 200 0;
    dc_offset_i = lit 5 3;
    dc_offset_q = lit 3 3;
    timing_jitter_sigma = lit 1 3;
  }
  profiles pluto_sdr = record no_impairment {
    snr_db = lit 35 0;
    freq_offset_ppm = lit 1 0;
    iq_amplitude_imbalance_db = lit 15 2;
    iq_phase_imbalance_deg = lit 8 1;
    phase_noise_linewidth_hz = lit 50 0;
    dc_offset_i = lit 3 3;
    dc_offset_q = lit 2 3;
  }
  profiles over_the_air = record no_impairment {
    snr_db = lit 20 0;
    freq_offset_ppm = lit 10 0;
    iq_amplitude_imbalance_db = lit 4 1;
    iq_phase_imbalance_deg = lit 20 1;
    phase_noise_linewidth_hz = lit 300 0;
    dc_offset_i = lit 1 2;
    dc_offset_q = lit 8 3;
    timing_jitter_sigma = lit 3 3;
    multipath_taps =
        tap (lit 21 1) (lit 4 1) (lit 450 1)
        ∷ tap (lit 53 1) (lit 2 1) (neg (lit 300 1))
        ∷ tap (lit 117 1) (lit 8 2) (lit 900 1)
        ∷ [];
  }

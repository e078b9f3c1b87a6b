-- ===== src/Capture/Rtl/Targets.antt =====
-- tools/ml/capture_rtl.py: TARGETS, whose frequencies are whole numbers of Hz.
use analysis_app.Prelude.{ℕ, String, List, [], ◌∷◌}

pub record RtlTarget : Type 0 where
  pub label : String
  pub freq_hz : ℕ
  pub sr_sps : ℕ
  pub dwell_s : ℕ
  pub max_win : ℕ

abbrev pub rtl_target : String → ℕ → ℕ → ℕ → ℕ → RtlTarget
rtl_target label freq_hz sr_sps dwell_s max_win = record {
  label = label;
  freq_hz = freq_hz;
  sr_sps = sr_sps;
  dwell_s = dwell_s;
  max_win = max_win;
}

abbrev pub rtl_targets : List RtlTarget
rtl_targets =
    rtl_target "FM_WB" 89100000 2048000 12 2000
    ∷ rtl_target "FM_WB" 93100000 2048000 12 2000
    ∷ rtl_target "FM_WB" 100800000 2048000 12 2000
    ∷ rtl_target "FM_WB" 102300000 2048000 12 2000
    ∷ rtl_target "FM_WB" 106400000 2048000 12 2000
    ∷ rtl_target "AM_DSB" 121500000 1024000 20 1500
    ∷ rtl_target "AM_DSB" 123450000 1024000 20 1500
    ∷ rtl_target "AM_DSB" 132700000 1024000 20 1500
    ∷ rtl_target "AM_DSB" 108100000 512000 20 1500
    ∷ rtl_target "AM_DSB" 109900000 512000 20 1500
    ∷ rtl_target "AM_DSB" 111100000 512000 20 1500
    ∷ rtl_target "FSK" 144390000 1024000 40 2000
    ∷ rtl_target "FM_NB" 162400000 1024000 15 2000
    ∷ rtl_target "FM_NB" 162425000 1024000 15 2000
    ∷ rtl_target "FM_NB" 162450000 1024000 15 2000
    ∷ rtl_target "FM_NB" 162500000 1024000 15 2000
    ∷ rtl_target "FM_NB" 162550000 1024000 15 2000
    ∷ rtl_target "FM_NB" 156800000 1024000 15 1500
    ∷ rtl_target "GMSK" 152000000 1024000 20 1500
    ∷ rtl_target "GMSK" 157450000 1024000 20 1500
    ∷ rtl_target "FSK" 903000000 2048000 20 2000
    ∷ rtl_target "FSK" 915000000 2048000 20 2000
    ∷ rtl_target "FSK" 925000000 2048000 20 1500
    ∷ rtl_target "ADS_B" 1090000000 2048000 40 3000
    ∷ rtl_target "ACARS" 129125000 512000 40 2000
    ∷ rtl_target "ACARS" 130025000 512000 40 1500
    ∷ rtl_target "ACARS" 136900000 512000 40 2000
    ∷ rtl_target "OFDM" 739000000 2048000 15 2000
    ∷ rtl_target "OFDM" 751000000 2048000 15 2000
    ∷ rtl_target "OFDM" 881000000 2048000 15 2000
    ∷ []

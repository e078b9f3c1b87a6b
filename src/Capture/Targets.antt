-- ===== src/Capture/Targets.antt =====
-- tools/ml/capture_real.py: TARGETS, the signals that are captured.
use analysis_app.Prelude.{ℕ, String, List, [], ◌∷◌, ◌++◌}

-- An entry of TARGETS, in Hz, samples a second, seconds and windows, all of them integers.
pub record Target : Type 0 where
  pub label : String
  pub freq_hz : ℕ
  pub bw_hz : ℕ
  pub sr_sps : ℕ
  pub dwell_s : ℕ
  pub max_windows : ℕ

abbrev pub target : String → ℕ → ℕ → ℕ → ℕ → ℕ → Target
target label freq_hz bw_hz sr_sps dwell_s max_windows = record {
  label = label;
  freq_hz = freq_hz;
  bw_hz = bw_hz;
  sr_sps = sr_sps;
  dwell_s = dwell_s;
  max_windows = max_windows;
}

abbrev pub ils_targets : List Target
ils_targets =
    target "AM_DSB" 108100000 500000 500000 30 3000
    ∷ target "AM_DSB" 108300000 500000 500000 30 3000
    ∷ target "AM_DSB" 108500000 500000 500000 30 3000
    ∷ target "AM_DSB" 108700000 500000 500000 30 3000
    ∷ target "AM_DSB" 108900000 500000 500000 30 3000
    ∷ target "AM_DSB" 109100000 500000 500000 30 3000
    ∷ target "AM_DSB" 109300000 500000 500000 30 3000
    ∷ target "AM_DSB" 109500000 500000 500000 30 3000
    ∷ target "AM_DSB" 109700000 500000 500000 30 3000
    ∷ target "AM_DSB" 110100000 500000 500000 30 3000
    ∷ target "AM_DSB" 110300000 500000 500000 30 3000
    ∷ target "AM_DSB" 110500000 500000 500000 30 3000
    ∷ target "AM_DSB" 110700000 500000 500000 30 3000
    ∷ target "AM_DSB" 110900000 500000 500000 30 3000
    ∷ target "AM_DSB" 111100000 500000 500000 30 3000
    ∷ target "AM_DSB" 111300000 500000 500000 30 3000
    ∷ target "AM_DSB" 111500000 500000 500000 30 3000
    ∷ target "AM_DSB" 111700000 500000 500000 30 3000
    ∷ target "AM_DSB" 111900000 500000 500000 30 3000
    ∷ []

abbrev pub fm_wb_targets : List Target
fm_wb_targets =
    target "FM_WB" 89100000 2000000 2000000 20 6000
    ∷ target "FM_WB" 90400000 2000000 2000000 20 6000
    ∷ target "FM_WB" 91700000 2000000 2000000 20 6000
    ∷ target "FM_WB" 93100000 2000000 2000000 20 6000
    ∷ target "FM_WB" 100800000 2000000 2000000 20 6000
    ∷ target "FM_WB" 102300000 2000000 2000000 20 6000
    ∷ target "FM_WB" 106400000 2000000 2000000 20 6000
    ∷ []

abbrev pub aviation_am_targets : List Target
aviation_am_targets =
    target "AM_DSB" 121500000 1000000 1000000 30 4000
    ∷ target "AM_DSB" 123450000 1000000 1000000 30 4000
    ∷ target "AM_DSB" 126450000 1000000 1000000 30 4000
    ∷ target "AM_DSB" 127000000 1000000 1000000 30 4000
    ∷ target "AM_DSB" 128000000 1000000 1000000 30 4000
    ∷ target "AM_DSB" 132700000 1000000 1000000 30 4000
    ∷ []

abbrev pub aprs_targets : List Target
aprs_targets = target "FSK" 144390000 500000 500000 60 3000 ∷ []

abbrev pub weather_radio_targets : List Target
weather_radio_targets =
    target "FM_NB" 162400000 1000000 1000000 20 5000
    ∷ target "FM_NB" 162425000 1000000 1000000 20 5000
    ∷ target "FM_NB" 162450000 1000000 1000000 20 5000
    ∷ target "FM_NB" 162475000 1000000 1000000 20 5000
    ∷ target "FM_NB" 162500000 1000000 1000000 20 5000
    ∷ target "FM_NB" 162525000 1000000 1000000 20 5000
    ∷ target "FM_NB" 162550000 1000000 1000000 20 5000
    ∷ []

abbrev pub maritime_targets : List Target
maritime_targets =
    target "FM_NB" 156800000 1000000 1000000 20 3000
    ∷ target "FM_NB" 156000000 1000000 1000000 20 3000
    ∷ []

abbrev pub paging_targets : List Target
paging_targets =
    target "GMSK" 152000000 1000000 1000000 30 3000
    ∷ target "GMSK" 152480000 1000000 1000000 30 3000
    ∷ target "GMSK" 157450000 1000000 1000000 20 2000
    ∷ []

abbrev pub ism_targets : List Target
ism_targets =
    target "FSK" 903000000 4000000 4000000 30 4000
    ∷ target "FSK" 915000000 4000000 4000000 30 4000
    ∷ target "FSK" 925000000 4000000 4000000 20 3000
    ∷ []

abbrev pub lte_targets : List Target
lte_targets =
    target "OFDM" 739000000 12000000 15000000 20 5000
    ∷ target "OFDM" 751000000 10000000 12000000 20 5000
    ∷ target "OFDM" 881000000 24000000 30000000 20 5000
    ∷ target "OFDM" 1960000000 25000000 30000000 20 5000
    ∷ target "OFDM" 2140000000 40000000 50000000 20 5000
    ∷ target "OFDM" 2665000000 40000000 50000000 20 5000
    ∷ []

abbrev pub bluetooth_targets : List Target
bluetooth_targets =
    target "GFSK" 2420000000 40000000 40000000 20 4000
    ∷ target "GFSK" 2441000000 40000000 40000000 20 4000
    ∷ target "GFSK" 2462000000 40000000 40000000 20 3000
    ∷ []

abbrev pub ads_b_targets : List Target
ads_b_targets = target "ADS_B" 1090000000 4000000 4000000 60 8000 ∷ []

abbrev pub acars_targets : List Target
acars_targets =
    target "ACARS" 129125000 500000 500000 60 4000
    ∷ target "ACARS" 130025000 500000 500000 60 3000
    ∷ target "ACARS" 136900000 500000 500000 60 4000
    ∷ []

abbrev pub vdl2_targets : List Target
vdl2_targets =
    target "VDL2" 136725000 500000 500000 60 3000
    ∷ target "VDL2" 136775000 500000 500000 60 3000
    ∷ target "VDL2" 136875000 500000 500000 60 2000
    ∷ []

abbrev pub ais_targets : List Target
ais_targets =
    target "AIS" 161975000 250000 250000 30 3000 ∷ target "AIS" 162025000 250000 250000 30 3000 ∷ []

abbrev pub dsc_targets : List Target
dsc_targets = target "DSC" 156525000 250000 250000 30 2000 ∷ []

abbrev pub p25_targets : List Target
p25_targets =
    target "P25_C4FM" 155340000 25000 25000 120 5000
    ∷ target "P25_C4FM" 155370000 25000 25000 120 5000
    ∷ target "P25_C4FM" 154920000 25000 25000 120 4000
    ∷ target "P25_C4FM" 460050000 25000 25000 120 5000
    ∷ target "P25_C4FM" 460125000 25000 25000 120 5000
    ∷ target "P25_C4FM" 460225000 25000 25000 120 4000
    ∷ target "P25_C4FM" 460500000 25000 25000 120 4000
    ∷ target "P25_C4FM" 851025000 25000 25000 120 4000
    ∷ target "P25_C4FM" 851525000 25000 25000 120 4000
    ∷ target "P25_C4FM" 852025000 25000 25000 120 3000
    ∷ []

abbrev pub dmr_targets : List Target
dmr_targets =
    target "DMR" 462550000 25000 25000 120 4000
    ∷ target "DMR" 462575000 25000 25000 120 4000
    ∷ target "DMR" 462600000 25000 25000 120 3000
    ∷ target "DMR" 463000000 25000 25000 120 4000
    ∷ target "DMR" 464550000 25000 25000 120 3000
    ∷ target "DMR" 851000000 25000 25000 120 3000
    ∷ []

abbrev pub pocsag_targets : List Target
pocsag_targets =
    target "POCSAG" 152240000 25000 25000 60 3000
    ∷ target "POCSAG" 152480000 25000 25000 60 3000
    ∷ target "POCSAG" 153350000 25000 25000 60 3000
    ∷ target "POCSAG" 157450000 25000 25000 60 2000
    ∷ target "POCSAG" 158100000 25000 25000 60 2000
    ∷ target "POCSAG" 931937500 25000 25000 60 3000
    ∷ []

abbrev pub flex_targets : List Target
flex_targets =
    target "FLEX" 152840000 25000 25000 60 2000 ∷ target "FLEX" 154040000 25000 25000 60 2000 ∷ []

abbrev pub css_targets : List Target
css_targets =
    target "CSS" 902300000 500000 500000 120 4000
    ∷ target "CSS" 902500000 500000 500000 120 4000
    ∷ target "CSS" 903900000 500000 500000 120 3000
    ∷ target "CSS" 905300000 500000 500000 120 3000
    ∷ target "CSS" 433175000 500000 500000 120 2000
    ∷ []

abbrev pub nxdn_targets : List Target
nxdn_targets =
    target "NXDN" 451000000 15000 15000 60 2000
    ∷ target "NXDN" 451100000 15000 15000 60 2000
    ∷ target "NXDN" 456050000 15000 15000 60 2000
    ∷ []

abbrev pub dstar_targets : List Target
dstar_targets =
    target "DSTAR" 144112500 25000 25000 60 2000
    ∷ target "DSTAR" 145375000 25000 25000 60 2000
    ∷ target "DSTAR" 441000000 25000 25000 60 2000
    ∷ target "DSTAR" 443000000 25000 25000 60 2000
    ∷ []

abbrev pub eas_targets : List Target
eas_targets =
    target "EAS_SAME" 162400000 500000 500000 300 500
    ∷ target "EAS_SAME" 162550000 500000 500000 300 500
    ∷ []

abbrev pub noise_targets : List Target
noise_targets = target "_NOISE" 500000000 2000000 2000000 10 0 ∷ []

abbrev pub targets : List Target
targets =
    ils_targets ++ fm_wb_targets ++ aviation_am_targets ++ aprs_targets ++ weather_radio_targets
    ++ maritime_targets ++ paging_targets ++ ism_targets ++ lte_targets ++ bluetooth_targets
    ++ ads_b_targets ++ acars_targets ++ vdl2_targets ++ ais_targets ++ dsc_targets ++ p25_targets
    ++ dmr_targets ++ pocsag_targets ++ flex_targets ++ css_targets ++ nxdn_targets ++ dstar_targets
    ++ eas_targets ++ noise_targets

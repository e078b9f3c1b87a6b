-- ===== src/Tests/Signals.antt =====
-- Features of a few signals, in signed millionths.
use analysis_app.Prelude.{String, true, List, [], ◌∷◌, ◌==◌, if◌then◌else◌}
use analysis_app.Prelude.Int.{ℤ, pos, ◌-ℤ◌}
use analysis_app.Prelude.Results.{Result, ok, raised}
use analysis_app.Float.Fixed.{fixed_float, lit_ℤ}
use analysis_app.Numpy.{Complex}
use analysis_app.Features.{SignalFeatures, no_features}
use analysis_app.Classifier.{ClassificationResult, classify}
use analysis_app.Protocol.Db.{protocol_db}
use analysis_app.Datasets.{IqSample}
use analysis_app.Harness.Sample.{Pipeline, Clock}

-- A burst of minimum-shift keying on a marine channel, 20 dB above the noise.
abbrev pub ais_burst : SignalFeatures ℤ
ais_burst = record no_features {
  snr_db = lit_ℤ 20 0;
  center_freq_hz = lit_ℤ 161975000 0;
  bandwidth_hz = lit_ℤ 25000 0;
  symbol_rate_sps = lit_ℤ 9600 0;
  sample_rate_sps = lit_ℤ 200000 0;
  fm_deviation_hz = lit_ℤ 2400 0;
  c40_real = lit_ℤ 1 1;
  c42 = pos 0 -ℤ lit_ℤ 10 1;
  is_burst = true;
}

-- The same signal, with an OFDM detection.
abbrev pub ofdm_signal : SignalFeatures ℤ
ofdm_signal = record ais_burst { ofdm_detected = true; ofdm_fft_size_est = 64 }

abbrev pub ais_result : ClassificationResult ℤ
ais_result = classify ais_burst

abbrev pub clock : Clock ℤ
clock = record { feat_start = pos 0; feat_end = pos 9; clf_start = pos 9; clf_end = pos 12 }

-- An extractor that raises on the samples at 0 Hz.
abbrev raising_extract : List (Complex ℤ) → ℤ → ℤ → Result (SignalFeatures ℤ)
raising_extract iq rate (pos n) = if n == 0 then raised "no carrier" else ok ais_burst
raising_extract iq rate freq = raised "negative frequency"

abbrev pub pipe : Pipeline ℤ
pipe = record { extract = raising_extract; db = protocol_db; base_name = λ s. s }

abbrev pub sample_of : String → ℤ → IqSample ℤ
sample_of label freq = record {
  iq = record { re = lit_ℤ 2 0; im = pos 0 } ∷ record { re = pos 0; im = lit_ℤ 2 0 } ∷ [];
  sample_rate = lit_ℤ 200000 0;
  center_freq = freq;
  ground_truth = label;
  snr_db = lit_ℤ 20 0;
  source_file = "capture";
  segment_idx = 0;
  extra = [];
}

-- ===== src/Harness/Sample.antt =====
-- tools/test_harness/harness.py: `classify_sample`, the whole pipeline on one sample.
use analysis_app.Prelude.{ℕ, String, Bool, List, [], ◌∷◌, if◌then◌else◌}
use analysis_app.Prelude.Text.{str_eq, upper, same, or_text}
use analysis_app.Prelude.Results.{Result, ok, ◌>>=◌}
use analysis_app.Float.{Float}
use analysis_app.Numpy.{Complex, Numpy}
use analysis_app.Features.{SignalFeatures}
use analysis_app.Classifier.{Hypothesis, ClassificationResult, classify}
use analysis_app.Classifier.Emitted.{detected}
use analysis_app.Protocol.Signature.{Signature}
use analysis_app.Protocol.Mapper
use analysis_app.Datasets.{IqSample, normalise}
use analysis_app.Harness.Labels.{canonical, family}

-- The dictionary that `classify_sample` returns.
pub record Row (F : Type 0) : Type 0 where
  pub source_file : String
  pub segment : ℕ
  pub ground_truth : String
  pub gt_canonical : String
  pub detected_mod : String
  pub exact_match : Bool
  pub family_match : Bool
  pub snr_db : F
  pub bandwidth_hz : F
  pub symbol_rate_sps : F
  pub is_burst : Bool
  pub ofdm_detected : Bool
  pub fhss_detected : Bool
  pub chirp_detected : Bool
  pub c40 : F
  pub c42 : F
  pub env_var_norm : F
  pub fm_dev_hz : F
  pub top_protocol : String
  pub top_confidence : F
  pub top_reasoning : String
  pub classified : Bool
  pub reject_reason : String
  pub latency_ms : F

-- What the harness is given: the extractor, which may raise, the protocol database, the last part
-- of a path, and the four readings of the clock for one sample.
pub record Pipeline (F : Type 0) : Type 0 where
  pub extract : List (Complex F) → F → F → Result (SignalFeatures F)
  pub db : List Signature
  pub base_name : String → String

pub record Clock (F : Type 0) : Type 0 where
  pub feat_start : F
  pub feat_end : F
  pub clf_start : F
  pub clf_end : F

unfoldable pub exact_match_of : String → String → Bool
exact_match_of gt_raw detected_mod =
    same (upper (canonical gt_raw)) (upper (canonical detected_mod))

unfoldable pub family_match_of : String → String → Bool
family_match_of gt_raw detected_mod =
    str_eq (family (canonical gt_raw)) (family (canonical detected_mod))

module _ {F : Type 0} ⦃fl : Float F⦄ where
  open fl use {lit, add, sub, mul, round}

  -- The result with its hypotheses, which only a classified signal gets.
  unfoldable pub classify_features : List Signature → SignalFeatures F → ClassificationResult F
  classify_features db f =
      let r = classify f in if r.classified then record r { hypotheses = Mapper.map db f r } else r

  abbrev pub top_system : List (Hypothesis F) → String
  top_system [] = ""
  top_system (h ∷ hs) = h.system

  abbrev pub top_confidence_of : List (Hypothesis F) → F
  top_confidence_of [] = lit 0 1
  top_confidence_of (h ∷ hs) = h.confidence

  abbrev pub top_reasoning_of : List (Hypothesis F) → String
  top_reasoning_of [] = ""
  top_reasoning_of (h ∷ hs) = h.reasoning

  -- ... or "UNCLASSIFIED"
  abbrev pub detected_or : ClassificationResult F → String
  detected_or r = or_text (detected r) "UNCLASSIFIED"

  unfoldable pub row_of : Pipeline F → Clock F → IqSample F → SignalFeatures F → Row F
  unfolding classify_features exact_match_of family_match_of
  row_of pipe clock sample f =
      let r = classify_features pipe.db f in
      let t_total = add (sub clock.feat_end clock.feat_start) (sub clock.clf_end clock.clf_start) in
      record {
        source_file = pipe.base_name sample.source_file;
        segment = sample.segment_idx;
        ground_truth = sample.ground_truth;
        gt_canonical = canonical sample.ground_truth;
        detected_mod = detected_or r;
        exact_match = exact_match_of sample.ground_truth (detected_or r);
        family_match = family_match_of sample.ground_truth (detected_or r);
        snr_db = round sample.snr_db 1;
        bandwidth_hz = round f.bandwidth_hz 0;
        symbol_rate_sps = round f.symbol_rate_sps 0;
        is_burst = f.is_burst;
        ofdm_detected = f.ofdm_detected;
        fhss_detected = f.fhss_detected;
        chirp_detected = f.chirp_detected;
        c40 = round f.c40_real 3;
        c42 = round f.c42 3;
        env_var_norm = round f.envelope_variance_norm 3;
        fm_dev_hz = round f.fm_deviation_hz 0;
        top_protocol = top_system r.hypotheses;
        top_confidence = round (top_confidence_of r.hypotheses) 3;
        top_reasoning = top_reasoning_of r.hypotheses;
        classified = r.classified;
        reject_reason = r.reject_reason;
        latency_ms = round (mul t_total (lit 1000 0)) 2;
      }

  unfoldable pub classify_sample :
      ⦃np : Numpy F⦄ → Pipeline F → Clock F → IqSample F → Result (Row F)
  unfolding row_of
  classify_sample pipe clock sample = do
    f ← pipe.extract (normalise sample.iq) sample.sample_rate sample.center_freq
    ok (row_of pipe clock sample f)

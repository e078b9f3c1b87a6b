-- ===== src/Protocol/Mapper.antt =====
-- tools/test_harness/classifier.py: `ProtocolMapper.map` and `_reasoning`. `list.sort` with a key is
-- a stable insertion sort.
pub mod Sort
pub mod Ranking
use analysis_app.Prelude.{String, Bool, List, [], ◌∷◌, ◌++◌, map as map_list, take, if◌then◌else◌}
use analysis_app.Prelude.Text.{concat, join_semicolon, or_text, is_named}
use analysis_app.Float.{Float}
use analysis_app.Features.{SignalFeatures}
use analysis_app.Classifier.{Hypothesis, ClassificationResult}
use analysis_app.Protocol.Signature.{Signature}
use analysis_app.Protocol.Score.{score}
use Sort.{sort}

-- parts.append(text) under a test
abbrev pub part_if : Bool → String → List String
part_if test text = if test then text ∷ [] else []

module _ {F : Type 0} ⦃fl : Float F⦄ where
  open fl use {lit, neg, div, lt, fixed, percent}

  unfoldable pub reasoning : SignalFeatures F → ClassificationResult F → String
  reasoning f r =
      let mod_name = or_text r.analog_modulation r.digital_modulation in
      join_semicolon (
        part_if (is_named mod_name) (concat ("modulation=" ∷ mod_name ∷ []))
        ++ (part_if (lt (lit 0 0) f.symbol_rate_sps)
              (concat ("sr=" ∷ fixed 1 (div f.symbol_rate_sps (lit 1000 0)) ∷ " ksps" ∷ []))
            ++ (part_if (lt (lit 0 0) f.bandwidth_hz)
                  (concat ("bw=" ∷ fixed 1 (div f.bandwidth_hz (lit 1000 0)) ∷ " kHz" ∷ []))
                ++ (part_if (lt (lit 0 0) f.center_freq_hz) (
                      concat ("cf=" ∷ fixed 3 (div f.center_freq_hz (lit 1000000 0)) ∷ " MHz" ∷ []))
                    ++ part_if r.is_burst (concat ("burst duty=" ∷ percent r.burst_duty ∷ []))))))

  -- min(score, 1.0)
  abbrev pub capped : F → F
  capped s = if lt (lit 10 1) s then lit 10 1 else s

  -- The loop of `map`: the pairs (score, signature) whose score exceeds 0.05, in database order.
  unfoldable pub scored :
      List Signature → SignalFeatures F → ClassificationResult F → List (F × Signature)
  scored [] f r = []
  scored (sig ∷ db) f r =
      let s = score sig f r (div f.center_freq_hz (lit 1000000 0)) in
      let rest = scored db f r in if lt (lit 5 2) s then (s, sig) ∷ rest else rest

  abbrev pub hypothesis : SignalFeatures F → ClassificationResult F → F × Signature → Hypothesis F
  hypothesis f r (s, sig) = record {
    system = sig.name;
    category = sig.category;
    confidence = capped s;
    reasoning = reasoning f r;
  }

  -- scores.sort(key=lambda x: -x[0])
  unfoldable pub ranked :
      List Signature → SignalFeatures F → ClassificationResult F → List (F × Signature)
  unfolding scored sort
  ranked db f r = sort (λ p. neg p.0) (scored db f r)

  unfoldable pub map :
      List Signature → SignalFeatures F → ClassificationResult F → List (Hypothesis F)
  unfolding ranked reasoning
  map db f r = map_list (hypothesis f r) (take 3 (ranked db f r))

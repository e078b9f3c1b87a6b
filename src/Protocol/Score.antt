-- ===== src/Protocol/Score.antt =====
-- tools/test_harness/classifier.py: `ProtocolMapper._score`, a weighted sum of four matches, times
-- the structural modifiers.
pub mod Bounds
use analysis_app.Prelude.{
  ℕ, ◌+◌, String, Bool, true, false, not, ◌&&◌, ◌||◌, Option, none, some, List, [], ◌∷◌, ltb, any,
  if◌then◌else◌,
}
use analysis_app.Prelude.Text.{upper, begins, within, or_text}
use analysis_app.Float.{Float}
use analysis_app.Features.{SignalFeatures}
use analysis_app.Classifier.{ClassificationResult}
use analysis_app.Protocol.Signature.{Signature, Band}

-- sig.get(key) is True, sig.get(key) is False
abbrev pub is_true : Option Bool → Bool
is_true none = false
is_true (some b) = b

abbrev pub is_false : Option Bool → Bool
is_false none = false
is_false (some b) = not b

abbrev pub is_nonempty {ℓ} : {A : Type ℓ} → List A → Bool
is_nonempty [] = false
is_nonempty (x ∷ xs) = true

module _ {F : Type 0} ⦃fl : Float F⦄ where
  open fl use {lit, neg, exp, pow, add, sub, mul, div, lt, le}

  abbrev pub in_band : F → Band → Bool
  in_band cf b = le (lit b.lo_digits b.lo_places) cf && le cf (lit b.hi_digits b.hi_places)

  unfoldable pub freq_score : Signature → F → F
  freq_score sig cf_mhz =
      if lt (lit 0 0) cf_mhz && is_nonempty sig.freq_bands_mhz
      then mul (lit 40 2) (if any (in_band cf_mhz) sig.freq_bands_mhz then lit 10 1 else lit 0 1)
      else mul (lit 40 2) (lit 5 1)

  -- (r.analog_modulation or r.digital_modulation).upper()
  abbrev pub detected_upper : ClassificationResult F → List ℕ
  detected_upper r = upper (or_text r.analog_modulation r.digital_modulation)

  -- The score with the modulation match added. Nothing is added where no modulation fits.
  unfoldable pub add_mod_score : Signature → ClassificationResult F → F → F
  add_mod_score sig r score =
      let found = detected_upper r in
      if is_nonempty sig.modulations
      then if any (λ m. begins found (upper m)) sig.modulations
        then add score (mul (lit 30 2) (lit 10 1))
        else if any (λ m. within (upper m) found || within found (upper m)) sig.modulations
        then add score (mul (lit 30 2) (lit 5 1))
        else score
      else add score (mul (lit 30 2) (lit 4 1))

  -- The Gaussian penalty outside a range. `**` of a float raises OverflowError where the distance is above
  -- about 1e154, which `pow` leaves out.
  unfoldable pub gauss : ℕ → ℕ → F → F
  gauss mn mx x =
      let mid = div (lit (mn + mx) 0) (lit 2 0) in
      let sigma = add (div (sub (lit mx 0) (lit mn 0)) (lit 2 0)) (lit 1 0) in
      exp (div (neg (pow (sub x mid) 2)) (mul (lit 2 0) (pow sigma 2)))

  -- The bandwidth and the symbol rate are matched by the same lines, with weight 0.15 each.
  unfoldable pub range_score : ℕ → ℕ → F → F
  range_score mn mx x =
      if ltb 0 mn && ltb 0 mx && lt (lit 0 0) x
      then if le (lit mn 0) x && le x (lit mx 0)
        then mul (lit 15 2) (lit 10 1)
        else mul (lit 15 2) (gauss mn mx x)
      else mul (lit 15 2) (lit 4 1)

  abbrev pub scaled_if : Bool → F → F → F
  scaled_if test factor score = if test then mul score factor else score

  unfoldable pub modify : Signature → ClassificationResult F → F → F
  modify sig r score = scaled_if (is_true sig.fhss && not r.is_fhss) (lit 4 1) (
      scaled_if (is_true sig.ofdm && not r.is_ofdm) (lit 4 1) (
        scaled_if (is_false sig.burst && r.is_burst) (lit 7 1)
          (scaled_if (is_true sig.burst && not r.is_burst) (lit 5 1) score)))

  -- The sum before the modifiers.
  unfoldable pub match_score : Signature → SignalFeatures F → ClassificationResult F → F → F
  unfolding freq_score add_mod_score range_score gauss
  match_score sig f r cf_mhz =
      let by_freq = add (lit 0 1) (freq_score sig cf_mhz) in
      let by_mod = add_mod_score sig r by_freq in
      let by_bw = add by_mod (range_score sig.bw_min_hz sig.bw_max_hz f.bandwidth_hz) in
      add by_bw (range_score sig.sr_min_sps sig.sr_max_sps f.symbol_rate_sps)

  unfoldable pub score : Signature → SignalFeatures F → ClassificationResult F → F → F
  unfolding match_score modify
  score sig f r cf_mhz = modify sig r (match_score sig f r cf_mhz)

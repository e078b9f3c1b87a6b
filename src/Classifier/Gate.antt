-- ===== src/Classifier/Gate.antt =====
-- When `ModulationClassifier.classify` classifies, when it rejects, and what a result then holds.
use analysis_app.Prelude.{
  ◌≡◌, refl, ◌∙◌, arith, Bool-cases, inl, inr, ℕ, String, Bool, true, false, not, ◌&&◌, ◌||◌, List,
  [], ◌∷◌, ltb, if◌then◌else◌,
}
use analysis_app.Prelude.Text.{is_named, append_named}
use analysis_app.Prelude.Assoc.{get_or}
use analysis_app.Float.{Float}
use analysis_app.Features.{SignalFeatures}
use analysis_app.Classifier.{
  ClassificationResult, snr_min_db, is_analog, classify_analog, classify_digital,
  classify_const_env, classify_varying, classify_deviating, classify, analog_result, digital_result,
  css_result, ofdm_result, fhss_result, rejected_result,
}

-- How many symbols each digital modulation has; 0 where no symbol rate is classified.
abbrev pub arities : List (String × ℕ)
arities =
    ("BPSK", 2)
    ∷ ("QPSK", 4)
    ∷ ("8PSK", 8)
    ∷ ("PSK", 2)
    ∷ ("FSK", 2)
    ∷ ("MSK/GMSK", 2)
    ∷ ("QAM16", 16)
    ∷ ("QAM32", 32)
    ∷ ("QAM64", 64)
    ∷ ("QAM256", 256)
    ∷ ("M-ASK/OOK", 2)
    ∷ []

abbrev pub arity : String → ℕ
arity name = get_or name arities 0

-- A digital decision has a name, and the number of symbols of that name.
record Sized (p : String × ℕ) : Type 0 where
  named : is_named p.0 ≡ true
  size : p.1 ≡ arity p.0

Sized-intro : (p : String × ℕ) → is_named p.0 ≡ true → p.1 ≡ arity p.0 → Sized p
Sized-intro p h k = record { named = h; size = k }

Sized-if : (b : Bool) (x y : String × ℕ) → Sized x → Sized y → Sized (if b then x else y)
Sized-if true x y p q = p
Sized-if false x y p q = q

ruleset sizing = (Sized-intro, Sized-if)

record NamedAnalog {F : Type 0} (p : String × F) : Type 0 where
  named : is_named p.0 ≡ true

NamedAnalog-intro : {F : Type 0} (p : String × F) → is_named p.0 ≡ true → NamedAnalog p
NamedAnalog-intro p h = record { named = h }

NamedAnalog-if :
    {F : Type 0} (b : Bool) (x y : String × F)
    → NamedAnalog x
    → NamedAnalog y
    → NamedAnalog (if b then x else y)
NamedAnalog-if true x y p q = p
NamedAnalog-if false x y p q = q

module _ {F : Type 0} ⦃fl : Float F⦄ where
  open fl use {lit, lt, mul, log2}

  Sized-deviating : (f : SignalFeatures F) → Sized (classify_deviating f)
  unfolding classify_deviating
  Sized-deviating f = search sizing depth 9

  Sized-const_env : (f : SignalFeatures F) → Sized (classify_const_env f)
  unfolding classify_const_env
  Sized-const_env f = search (sizing, Sized-deviating) depth 9

  Sized-varying : (f : SignalFeatures F) → Sized (classify_varying f)
  unfolding classify_varying
  Sized-varying f = search sizing depth 12

  Sized-digital : (f : SignalFeatures F) → Sized (classify_digital f)
  unfolding classify_digital
  Sized-digital f = search (sizing, Sized-const_env, Sized-varying)

  Sized-analog : (f : SignalFeatures F) → NamedAnalog (classify_analog f)
  unfolding classify_analog
  Sized-analog f = search (NamedAnalog-intro, NamedAnalog-if) depth 9

  analog_named : (f : SignalFeatures F) → is_named (classify_analog f).0 ≡ true
  analog_named f = (Sized-analog f).named

  -- What every result has in common, whichever return it comes from.
  record IsConsistent (r : ClassificationResult F) : Type 0 where
    exclusive : (is_named r.analog_modulation && is_named r.digital_modulation) ≡ false
    explained :
        (is_named r.analog_modulation || is_named r.digital_modulation)
        ≡ not (is_named r.reject_reason)
    sized : r.m_ary ≡ arity r.digital_modulation
    rated : r.bit_rate_bps ≡ (
        if ltb 1 r.m_ary && lt (lit 0 0) r.symbol_rate_sps
        then mul r.symbol_rate_sps (log2 (lit r.m_ary 0))
        else lit 0 0)

  IsConsistent-if :
      (b : Bool) (x y : ClassificationResult F)
      → IsConsistent x
      → IsConsistent y
      → IsConsistent (if b then x else y)
  IsConsistent-if true x y p q = p
  IsConsistent-if false x y p q = q

  IsConsistent-analog : (f : SignalFeatures F) → IsConsistent (analog_result f)
  IsConsistent-analog f = record {
    exclusive = rw (analog_named f);
    explained = rw (analog_named f);
    sized = refl;
    rated = refl;
  }

  IsConsistent-digital : (f : SignalFeatures F) → IsConsistent (digital_result f)
  IsConsistent-digital f = record {
    exclusive = refl;
    explained = (Sized-digital f).named;
    sized = (Sized-digital f).size;
    rated = refl;
  }

  IsConsistent-css : (f : SignalFeatures F) → IsConsistent (css_result f)
  IsConsistent-css f = record { exclusive = refl; explained = refl; sized = refl; rated = refl }

  IsConsistent-ofdm : (f : SignalFeatures F) → IsConsistent (ofdm_result f)
  IsConsistent-ofdm f = record { exclusive = refl; explained = refl; sized = refl; rated = refl }

  IsConsistent-fhss : (f : SignalFeatures F) → IsConsistent (fhss_result f)
  IsConsistent-fhss f = record { exclusive = refl; explained = refl; sized = refl; rated = refl }

  rejected_named : (f : SignalFeatures F) → is_named (rejected_result f).reject_reason ≡ true
  rejected_named f = append_named _ _ _

  IsConsistent-rejected : (f : SignalFeatures F) → IsConsistent (rejected_result f)
  IsConsistent-rejected f = record {
    exclusive = refl;
    explained = rw (rejected_named f);
    sized = refl;
    rated = refl;
  }

  classify-IsConsistent : (f : SignalFeatures F) → IsConsistent (classify f)
  unfolding classify
  classify-IsConsistent f =
      search
        (
          IsConsistent-if, IsConsistent-css, IsConsistent-ofdm, IsConsistent-fhss,
          IsConsistent-rejected, IsConsistent-analog, IsConsistent-digital,
        )
        depth 12

  -- On every branch of `classify`: at most one of the analog and the digital name is set, and none
  -- is set exactly when a reason for the rejection is given; the number of symbols is the one of
  -- the digital name; and the bit rate is the symbol rate times log2 of that number where both are
  -- positive and the number is above 1, and 0.0 otherwise.
  pub classify_layers :
      (f : SignalFeatures F)
      → let r = classify f in
        ((is_named r.analog_modulation && is_named r.digital_modulation) ≡ false)
        × ((is_named r.analog_modulation || is_named r.digital_modulation)
            ≡ not (is_named r.reject_reason))
        × (r.m_ary ≡ arity r.digital_modulation)
        × (r.bit_rate_bps ≡ (
            if ltb 1 r.m_ary && lt (lit 0 0) r.symbol_rate_sps
            then mul r.symbol_rate_sps (log2 (lit r.m_ary 0))
            else lit 0 0))
  classify_layers f =
      let c = classify-IsConsistent f in (c.exclusive, c.explained, c.sized, c.rated)

  -- `classify` accepts a signal exactly when no chirp, OFDM or hopping was detected and the SNR is
  -- not below 5 dB. It gives a reason for a rejection exactly when nothing was detected and the SNR
  -- is below 5 dB. The burst, hopping and TDMA flags are those of the features on every branch.
  pub classify_gate :
      (f : SignalFeatures F)
      → let r = classify f in
        let structural = f.chirp_detected || f.ofdm_detected || f.fhss_detected in
        (r.classified ≡ not (structural || lt f.snr_db snr_min_db))
        × (is_named r.reject_reason ≡ (not structural && lt f.snr_db snr_min_db))
        × (r.is_burst ≡ f.is_burst)
        × (r.is_fhss ≡ f.fhss_detected)
        × (r.is_tdma ≡ (f.is_burst && lt (lit 0 0) f.burst_period_ms))
  unfolding classify
  classify_gate f = elim (Bool-cases f.chirp_detected) [
    | inl chirp ↦ rw chirp (refl, refl, refl, refl, refl)
    | inr none_c ↦ rw none_c (elim (Bool-cases f.ofdm_detected) [
      | inl ofdm ↦ rw ofdm (refl, refl, refl, refl, refl)
      | inr none_o ↦ rw none_o (elim (Bool-cases f.fhss_detected) [
        | inl hop ↦ rw hop (refl, refl, refl, refl, refl)
        | inr none_h ↦ rw none_h (elim (Bool-cases (lt f.snr_db snr_min_db)) [
          | inl low ↦ rw low (refl, rejected_named f, refl, refl, refl)
          | inr enough ↦ rw enough (elim (Bool-cases (is_analog f)) [
            | inl am ↦ rw am (refl, refl, refl, refl, refl)
            | inr dig ↦ rw dig (refl, refl, refl, refl, refl)
          ])
        ])
      ])
    ])
  ]

  -- `classify` leaves the hypotheses to the mapper.
  pub hypotheses-classify : (f : SignalFeatures F) → (classify f).hypotheses ≡ []
  unfolding classify
  hypotheses-classify f = ground arith

  -- A structural detection names the modulation, whatever the SNR.
  pub classify_structural :
      (f : SignalFeatures F)
      → (f.chirp_detected || f.ofdm_detected || f.fhss_detected) ≡ true
      → (classify f).classified ≡ false
  classify_structural f h = (classify_gate f).0 ∙ rw h

-- ===== src/Classifier/Emitted.antt =====
-- Which modulation names `ModulationClassifier.classify` can report.
use analysis_app.Prelude.{
  ◌≡◌, refl, and_false_left, or_true_right, String, Bool, true, false, List, [], ◌∷◌, arith,
  if◌then◌else◌,
}
use analysis_app.Prelude.Text.{or_text, member}
use analysis_app.Float.{Float, IsOrdered}
use analysis_app.Float.Order.{not_below, not_above}
use analysis_app.Features.{SignalFeatures}
use analysis_app.Classifier.{
  ClassificationResult, am_env_thresh, const_env_thresh, is_analog, classify_analog,
  classify_digital, classify_const_env, classify_varying, classify_deviating, classify_carrier,
  classify,
}

-- r.analog_modulation or r.digital_modulation
abbrev pub detected : {F : Type 0} → ClassificationResult F → String
detected r = or_text r.analog_modulation r.digital_modulation

abbrev pub am_names : List String
am_names = "SSB_USB" ∷ "SSB_LSB" ∷ "AM_DSB_SC" ∷ "CW" ∷ "AM_DSB_LC" ∷ []

abbrev pub digital_names : List String
digital_names =
    "CSS" ∷ "OFDM" ∷ "FHSS" ∷ "BPSK" ∷ "QPSK" ∷ "8PSK" ∷ "PSK" ∷ "FSK" ∷ "MSK/GMSK" ∷ "FM_WB"
    ∷ "FM_NB" ∷ "QAM16" ∷ "QAM32" ∷ "QAM64" ∷ "QAM256" ∷ "UNKNOWN" ∷ []

-- The first part of a classification is one of the names.
record Named {A : Type 0} (names : List String) (p : String × A) : Type 0 where
  is_member : member p.0 names ≡ true

module _ {A : Type 0} {names : List String} where
  Named-intro : (p : String × A) → member p.0 names ≡ true → Named names p
  Named-intro p h = record { is_member = h }

  Named-if :
      (b : Bool) (x y : String × A)
      → Named names x
      → Named names y
      → Named names (if b then x else y)
  Named-if true x y p q = p
  Named-if false x y p q = q

  -- A branch whose test fails needs no name.
  Named-else :
      (b : Bool) (x y : String × A) → b ≡ false → Named names y → Named names (if b then x else y)
  Named-else true x y h q = cc
  Named-else false x y h q = q

ruleset naming = (Named-intro, Named-if)

weaken : (s : String) (names : List String) → member s names ≡ true → member s ("" ∷ names) ≡ true
weaken s names h = or_true_right _ _ h

module _ {F : Type 0} ⦃fl : Float F⦄ where
  open fl use {lit, lt}

  analog_name :
      (f : SignalFeatures F)
      → lt f.envelope_variance_norm const_env_thresh ≡ false
      → Named am_names (classify_analog f)
  unfolding classify_analog
  analog_name f h = Named-else _ _ _ h (search naming depth 9)

  deviating_name : (f : SignalFeatures F) → Named digital_names (classify_deviating f)
  unfolding classify_deviating
  deviating_name f = search naming depth 9

  const_env_name : (f : SignalFeatures F) → Named digital_names (classify_const_env f)
  unfolding classify_const_env
  const_env_name f = search (naming, deviating_name) depth 9

  varying_name :
      (f : SignalFeatures F)
      → lt (lit 3 1) f.envelope_variance_norm ≡ false
      → Named digital_names (classify_varying f)
  unfolding classify_varying
  varying_name f h = search (naming, Named-else, and_false_left, h) depth 12

  digital_name :
      (f : SignalFeatures F)
      → lt (lit 3 1) f.envelope_variance_norm ≡ false
      → Named digital_names (classify_digital f)
  unfolding classify_digital
  digital_name f h = search (naming, const_env_name f, varying_name f h)

  -- The two names in a result, each empty or from its list.
  record Reported (r : ClassificationResult F) : Type 0 where
    analog : member r.analog_modulation ("" ∷ am_names) ≡ true
    digital : member r.digital_modulation ("" ∷ digital_names) ≡ true

  Reported-plain :
      (r : ClassificationResult F)
      → member r.analog_modulation ("" ∷ am_names) ≡ true
      → member r.digital_modulation ("" ∷ digital_names) ≡ true
      → Reported r
  Reported-plain r a d = record { analog = a; digital = d }

  Reported-if :
      (b : Bool) (x y : ClassificationResult F)
      → (b ≡ true → Reported x)
      → (b ≡ false → Reported y)
      → Reported (if b then x else y)
  Reported-if true x y p q = p refl
  Reported-if false x y p q = q refl

  module _ (laws : IsOrdered F) where
    open laws use {lit_le}

    -- What `_is_analog` passes on is not of constant envelope.
    not_const_env :
        (f : SignalFeatures F)
        → is_analog f ≡ true
        → lt f.envelope_variance_norm const_env_thresh ≡ false
    not_const_env f h =
        not_below laws const_env_thresh am_env_thresh _ h (lit_le 8 2 12 2 (omega arith))

    -- What it leaves varies too little for the last test of `_classify_digital`.
    not_ask :
        (f : SignalFeatures F) → is_analog f ≡ false → lt (lit 3 1) f.envelope_variance_norm ≡ false
    not_ask f h = not_above laws am_env_thresh (lit 3 1) _ h (lit_le 12 2 3 1 (omega arith))

    Reported-carrier : (f : SignalFeatures F) → Reported (classify_carrier f)
    unfolding classify_carrier
    Reported-carrier f =
        Reported-if _ _ _
          (λ e. record {
            analog =
                weaken (classify_analog f).0 am_names (analog_name f (not_const_env f e)).is_member;
            digital = refl;
          })
          (λ e. record {
            analog = refl;
            digital =
                weaken (classify_digital f).0 digital_names
                  (digital_name f (not_ask f e)).is_member;
          })

    Reported-classify : (f : SignalFeatures F) → Reported (classify f)
    unfolding classify
    Reported-classify f = search (Reported-plain, Reported-if, Reported-carrier f) depth 12

    -- Under the laws of order, the analog name in a result is empty or one of five AM names, and
    -- the digital name is empty or one of sixteen: `classify` reports neither "PM" nor "M-ASK/OOK",
    -- and FM only as a digital modulation.
    pub classify_names :
        (f : SignalFeatures F)
        → (member (classify f).analog_modulation ("" ∷ am_names) ≡ true)
          × (member (classify f).digital_modulation ("" ∷ digital_names) ≡ true)
    classify_names f = ((Reported-classify f).analog, (Reported-classify f).digital)

-- ===== src/Tests/Classifying.antt =====
-- Runs of the classifier.
use analysis_app.Prelude.{◌≡◌, refl, true, false, ◌&&◌, ◌||◌, not, ◌∷◌, if◌then◌else◌, ltb}
use analysis_app.Prelude.Text.{is_named, member}
use analysis_app.Float.Fixed.{fixed_float, lit_ℤ, fixed-IsOrdered}
use analysis_app.Classifier.{classify, classify_const_env, classify_deviating}
use analysis_app.Classifier.Gate.{classify_layers, classify_gate, arity}
use analysis_app.Classifier.Emitted.{classify_names, am_names, digital_names}
use analysis_app.Tests.Signals.{ais_burst}

ais_is_msk : (classify ais_burst).digital_modulation ≡ "MSK/GMSK"
unfolding classify classify_const_env classify_deviating
ais_is_msk = refl

classify_layers_example :
    let r = classify ais_burst in
    ((is_named r.analog_modulation && is_named r.digital_modulation) ≡ false)
    × ((is_named r.analog_modulation || is_named r.digital_modulation)
        ≡ not (is_named r.reject_reason))
    × (r.m_ary ≡ arity r.digital_modulation)
    × (r.bit_rate_bps ≡ (
        if ltb 1 r.m_ary && fixed_float.lt (lit_ℤ 0 0) r.symbol_rate_sps
        then fixed_float.mul r.symbol_rate_sps (fixed_float.log2 (lit_ℤ r.m_ary 0))
        else lit_ℤ 0 0))
classify_layers_example = classify_layers ais_burst

classify_gate_example :
    ((classify ais_burst).classified ≡ true)
    × (is_named (classify ais_burst).reject_reason ≡ false)
    × ((classify ais_burst).is_burst ≡ true)
    × ((classify ais_burst).is_fhss ≡ false)
    × ((classify ais_burst).is_tdma ≡ false)
classify_gate_example = classify_gate ais_burst

classify_names_example :
    (member (classify ais_burst).analog_modulation ("" ∷ am_names) ≡ true)
    × (member (classify ais_burst).digital_modulation ("" ∷ digital_names) ≡ true)
classify_names_example = classify_names fixed-IsOrdered ais_burst

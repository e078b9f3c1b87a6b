-- ===== src/Harness/Verdicts.antt =====
-- What the rows of the harness can and cannot say.
use analysis_app.Prelude.{
  ◌≡◌, ◌&&◌, ◌≢◌, not-true, refl, String, Bool, true, false, not, ◌||◌, List, [], ◌∷◌, ◌++◌, all,
  arith, Bool-cases, inl, inr,
}
use analysis_app.Prelude.Text.{str_eq, eq_iff, upper, same, str_ne, or_text, member}
use analysis_app.Float.{Float, IsOrdered}
use analysis_app.Features.{SignalFeatures}
use analysis_app.Classifier.{classify}
use analysis_app.Classifier.Emitted.{am_names, digital_names, classify_names}
use analysis_app.Classifier.Gate.{classify_structural, hypotheses-classify}
use analysis_app.Protocol.Signature.{Signature}
use analysis_app.Datasets.{IqSample}
use analysis_app.Harness.Labels.{canonical, family}
use analysis_app.Harness.Sample.{
  Pipeline, Clock, classify_features, detected_or, exact_match_of, family_match_of, row_of,
}

-- A test that all listed texts pass, at a member.
all-member :
    (p : String → Bool) (s : String) (names : List String)
    → all p names ≡ true
    → member s names ≡ true
    → p s ≡ true
all-member p s [] h m = cc
all-member p s (t ∷ ts) h m = elim (Bool-cases (str_eq s t)) [
  | inl e ↦ rw ((eq_iff s t).0 e) (ground arith)
  | inr e ↦ all-member p s ts (ground arith) (ground arith)
]

-- Ground truths of RadioML that no reported modulation equals, and those of them whose family no
-- reported modulation has.
abbrev pub never_exact : List String
never_exact = "64QAM" ∷ "PAM4" ∷ "OOK" ∷ "4ASK" ∷ "8ASK" ∷ "AM-SSB" ∷ "AM-SSB-WC" ∷ []

abbrev pub never_family : List String
never_family = "64QAM" ∷ "PAM4" ∷ "OOK" ∷ "4ASK" ∷ "8ASK" ∷ []

-- Every text that can stand in a row as the detected modulation.
abbrev reportable : List String
reportable = "UNCLASSIFIED" ∷ (am_names ++ digital_names)

misses : (String → String → Bool) → List String → String → Bool
misses matches labels d = all (λ l. not (matches l d)) labels

exact_misses : all (misses exact_match_of never_exact) reportable ≡ true
unfolding misses exact_match_of canonical
exact_misses = refl

family_misses : all (misses family_match_of never_family) reportable ≡ true
unfolding misses family_match_of canonical family
family_misses = refl

not_both : (a b : Bool) → (a ≡ true → b ≡ false) → (a && b) ≡ false
not_both true b h = h refl
not_both false b h = refl

named : String → String → Bool
named a d = member (or_text (or_text a d) "UNCLASSIFIED") reportable

all_named : all (λ a. all (named a) ("" ∷ digital_names)) ("" ∷ am_names) ≡ true
unfolding named
all_named = refl

module _ {F : Type 0} ⦃fl : Float F⦄ where
  detected-classify_features :
      (db : List Signature) (f : SignalFeatures F)
      → detected_or (classify_features db f) ≡ detected_or (classify f)
  unfolding classify_features
  detected-classify_features db f = elim (Bool-cases (classify f).classified) [
    | inl e ↦ rw e
    | inr e ↦ rw e
  ]

  detected_reportable :
      IsOrdered F
      → (db : List Signature) (f : SignalFeatures F)
      → member (detected_or (classify_features db f)) reportable ≡ true
  unfolding named
  detected_reportable laws db f =
      let (analog, digital) = classify_names laws f in
      let a = (classify f).analog_modulation in
      rw detected-classify_features (
        all-member (named a) (classify f).digital_modulation ("" ∷ digital_names)
          (all-member (λ x. all (named x) ("" ∷ digital_names)) a ("" ∷ am_names) all_named analog)
          digital)

  -- Whatever the signal, the extractor and the database: a row for a sample whose ground truth is
  -- "64QAM", "PAM4", "OOK", "4ASK", "8ASK", "AM-SSB" or "AM-SSB-WC" is never an exact match, and for
  -- the first five it is no family match either.
  pub never_matches :
      IsOrdered F
      → (pipe : Pipeline F) (clock : Clock F) (sample : IqSample F) (f : SignalFeatures F)
      → let row = row_of pipe clock sample f in
        ((member sample.ground_truth never_exact && row.exact_match) ≡ false)
        × ((member sample.ground_truth never_family && row.family_match) ≡ false)
  unfolding row_of misses
  never_matches laws pipe clock sample f =
      let d = detected_or (classify_features pipe.db f) in
      let known = detected_reportable laws pipe.db f in
      let gt = sample.ground_truth in
      (
        not_both _ _ (λ m. not-true _ (
            all-member (λ l. not (exact_match_of l d)) gt never_exact
              (all-member (misses exact_match_of never_exact) d reportable exact_misses known) m)),
        not_both _ _ (λ m. not-true _ (
            all-member (λ l. not (family_match_of l d)) gt never_family
              (all-member (misses family_match_of never_family) d reportable family_misses known)
              m)),
      )

  -- A row whose chirp, OFDM or hopping flag is set is unclassified and names no protocol, whatever
  -- the SNR: the protocol database is not consulted for it.
  pub structural_unmapped :
      (pipe : Pipeline F) (clock : Clock F) (sample : IqSample F) (f : SignalFeatures F)
      → let row = row_of pipe clock sample f in
        (row.chirp_detected || row.ofdm_detected || row.fhss_detected) ≡ true
        → (row.classified ≡ false) × (row.top_protocol ≡ "") × (row.top_reasoning ≡ "")
  unfolding row_of
  structural_unmapped pipe clock sample f h =
      rw (classify_structural f h, hypotheses-classify f) (refl, refl, refl)

-- A ground truth that is in no table and differs from a reported name only by case is an exact
-- match, but no family match, unless it is spelled as the family itself.
pub case_mismatch :
    (label d : String)
    → canonical label ≡ label
    → family label ≡ label
    → label ≢ family (canonical d)
    → same (upper label) (upper (canonical d)) ≡ true
    → (exact_match_of label d ≡ true) × (family_match_of label d ≡ false)
unfolding exact_match_of family_match_of
case_mismatch label d c fam ne u = (rw c u, rw (c, fam) (str_ne _ _ ne))

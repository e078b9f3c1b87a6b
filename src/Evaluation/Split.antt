-- ===== src/Evaluation/Split.antt =====
-- tools/ml/evaluate.py: the split of a data set, and the report of `main` on it. numpy's generator of
-- permutations and the floor of a float that is not negative are arguments; the report of sklearn is
-- left out, which prints names of labels.
pub mod Chosen
use analysis_app.Prelude.{
  ℕ, ◌==◌, Bool, ◌&&◌, String, Option, none, some, List, [], ◌∷◌, length, take, map, replicate,
  if◌then◌else◌,
}
use analysis_app.Prelude.Results.{Result, ok, raised, ◌>>=◌, each}
use analysis_app.Features.Arrays.{where_from, zip_with}
use analysis_app.Float.{Float}
use analysis_app.Numpy.{Numpy}
use analysis_app.Evaluation.{Channels, onnx_predict}
use analysis_app.Evaluation.Masks.{masked, select, hits, accuracy}
use analysis_app.Evaluation.Labels.{label_of, is_some, known_label, dataset_to_model}

-- The arrays of the file, where the SNRs may be missing.
pub record TestData (F : Type 0) : Type 0 where
  pub x : List (Channels F)
  pub y : List ℕ
  pub snrs : Option (List F)
  pub classes : List String

pub record TestSplit (F : Type 0) : Type 0 where
  pub x : List (Channels F)
  pub y : List ℕ
  pub classes : List String
  pub snrs : List F

-- The samples, the accuracy, and for each tier its bounds, its accuracy and its samples.
pub record TestReport (F : Type 0) : Type 0 where
  pub samples : ℕ
  pub acc : F
  pub tiers : List (F × (F × (F × ℕ)))

module _ {F : Type 0} ⦃fl : Float F⦄ where
  open fl use {lit, mul, le}

  abbrev pub snrs_or_zeros : Option (List F) → List ℕ → List F
  snrs_or_zeros none y = replicate (length y) (lit 0 0)
  snrs_or_zeros (some snrs) y = snrs

  module _ (floor : F → ℕ) (permutation : ℕ → List ℕ) where
    -- idx[:n_test]
    abbrev pub test_places : ℕ → F → List ℕ
    test_places n test_fraction =
        let idx = permutation n in take (floor (mul (lit (length idx) 0) test_fraction)) idx

    unfoldable pub load_test_split : TestData F → F → F → Result (TestSplit F)
    unfolding masked select
    load_test_split d snr_min test_fraction =
        let snrs = snrs_or_zeros d.snrs d.y in
        let mask = map (λ s. le snr_min s) snrs in
        masked mask d.x >>= λ x. masked mask d.y >>= λ y. masked mask snrs >>= λ ss.
        let test_i = test_places (length x) test_fraction in
        select test_i x >>= λ x_t. select test_i y >>= λ y_t. select test_i ss >>= λ snrs_t.
        ok (record { x = x_t; y = y_t; classes = d.classes; snrs = snrs_t })

module _ {F : Type 0} ⦃fl : Float F⦄ ⦃np : Numpy F⦄ where
  open fl use {lit, neg, le, lt}

  -- the tiers of --snr-breakdown, in dB
  abbrev pub snr_tiers : List (F × F)
  snr_tiers =
      (neg (lit 20 0), lit 0 0)
      ∷ (lit 0 0, lit 10 0)
      ∷ (lit 10 0, lit 20 0)
      ∷ (lit 20 0, lit 100 0)
      ∷ []

  -- a tier without samples is left out
  unfoldable pub tier_accuracies :
      List F → List Bool → List (F × F) → Result (List (F × (F × (F × ℕ))))
  unfolding masked hits accuracy
  tier_accuracies snrs correct [] = ok []
  tier_accuracies snrs correct ((lo, hi) ∷ tiers) =
      let mask = map (λ s. le lo s && lt s hi) snrs in
      masked mask correct >>= λ of_tier. tier_accuracies snrs correct tiers >>= λ rest.
      ok (if hits mask == 0 then rest else (lo, (hi, (accuracy of_tier, hits mask))) ∷ rest)

  -- main with --snr-breakdown, after the split is loaded
  unfoldable pub test_report :
      (List (Channels F) → Result (List (List F)))
      → ℕ
      → List String
      → TestSplit F
      → Result (TestReport F)
  unfolding label_of dataset_to_model select onnx_predict accuracy tier_accuracies
  test_report run batch class_names d =
      let labels = dataset_to_model class_names 0 d.classes in
      let keep = where_from (λ l. is_some (label_of l labels)) 0 d.y in
      if length keep == 0
      then raised "SystemExit"
      else (select keep d.x >>= λ x_eval. select keep d.y >>= λ y_dataset.
          select keep d.snrs >>= λ snrs_eval.
          each (λ l. known_label (label_of l labels)) y_dataset >>= λ y_model.
          onnx_predict run batch x_eval >>= λ y_pred.
          let correct = zip_with ◌==◌ y_pred y_model in
          tier_accuracies snrs_eval correct snr_tiers >>= λ tiers.
          ok (record { samples = length d.x; acc = accuracy correct; tiers = tiers }))

-- ===== src/Evaluation/Gated.antt =====
-- tools/ml/ensemble_eval.py `hierarchical_argmax`, eval_holdout.py `_hierarchical_preds`: the class is
-- picked among those of the family that has the greatest probability.
pub mod Within
use analysis_app.Prelude.{
  ℕ, zero, suc, Bool, true, false, ◌==◌, String, List, [], ◌∷◌, map, if◌then◌else◌,
}
use analysis_app.Prelude.Int.{ℤ, pos, negsuc}
use analysis_app.Prelude.Results.{Result, ok, ◌>>=◌, each}
use analysis_app.Features.Arrays.{zip_with, range}
use analysis_app.Float.{Float}
use analysis_app.Numpy.{Numpy}
use analysis_app.FamilyMap.{class_to_family_idx, num_families}
use analysis_app.Evaluation.{Channels, batched, softmax}

abbrev pub has_index : ℕ → ℤ → Bool
has_index f (pos i) = i == f
has_index f (negsuc n) = false

module _ {F : Type 0} ⦃fl : Float F⦄ ⦃np : Numpy F⦄ where
  open fl use {lit, mul}

  -- family_mask[f]
  unfoldable pub family_mask : ℕ → List String → List F
  unfolding class_to_family_idx
  family_mask f model_classes =
      map (λ fi. if has_index f fi then lit 10 1 else lit 0 1) (class_to_family_idx model_classes)

  -- probs @ family_mask.T, for one sample
  unfoldable pub family_probs : List String → List F → List F
  unfolding family_mask
  family_probs model_classes probs =
      map (λ f. np.sum (zip_with mul probs (family_mask f model_classes))) (range num_families)

  unfoldable pub gated_class : List String → List F → Result ℕ
  unfolding family_probs family_mask
  gated_class model_classes probs = np.argmax (family_probs model_classes probs) >>= λ fi.
      np.argmax (zip_with mul probs (family_mask fi model_classes))

  unfoldable pub hierarchical_argmax : List (List F) → List String → Result (List ℕ)
  unfolding gated_class
  hierarchical_argmax probs model_classes = each (gated_class model_classes) probs

  unfoldable pub hierarchical_batch :
      (List (Channels F) → Result (List (List F)))
      → List String
      → List (Channels F)
      → Result (List ℕ)
  unfolding gated_class softmax
  hierarchical_batch run model_classes batch = run batch >>= λ logits.
      each softmax logits >>= λ probs. each (gated_class model_classes) probs

  unfoldable pub hierarchical_preds :
      (List (Channels F) → Result (List (List F)))
      → List (Channels F)
      → List String
      → Result (List ℕ)
  unfolding batched hierarchical_batch
  hierarchical_preds run xs model_classes = batched 512 (hierarchical_batch run model_classes) xs

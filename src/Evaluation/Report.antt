-- ===== src/Evaluation/Report.antt =====
-- tools/ml/eval_holdout.py: `evaluate`, with one pass; tools/ml/eval_hierarchical_chain.py: the end of
-- `main`.
pub mod Tallies
pub mod Classes
pub mod Returned
use analysis_app.Prelude.{
  ℕ, zero, suc, String, Bool, true, false, not, ◌==◌, Option, none, some, List, [], ◌∷◌, length,
  map, if◌then◌else◌,
}
use analysis_app.Prelude.Text.{str_eq}
use analysis_app.Prelude.Assoc.{put}
use analysis_app.Prelude.Results.{Result, ok, raised, ◌>>=◌, each}
use analysis_app.Features.Arrays.{index, zip_with}
use analysis_app.Float.{Float}
use analysis_app.Numpy.{Numpy}
use analysis_app.FamilyMap.{sorted_set}
use analysis_app.Evaluation.{Channels, unit_power, run_inference, run_probs}
use analysis_app.Evaluation.Masks.{masked, hits, accuracy, per_snr_of}
use analysis_app.Evaluation.Chain.{
  Holdout, ChainReport, Specialists, keep_mask, family_of_class, hard_routing,
}
use analysis_app.Evaluation.Soft.{top_families, fill_cache, soft_classes}
use analysis_app.Evaluation.Labels.{LabelMap, holdout_map, router_labels, known_mask, model_labels}
use analysis_app.Evaluation.Gated.{hierarchical_preds}

pub record HoldoutReport (F : Type 0) : Type 0 where
  pub total_samples : ℕ
  pub skipped_unknown : ℕ
  pub overall_acc : F
  pub per_class : List (String × F)
  pub per_snr : List (F × F)

-- correct[y_m == mi] of each class of the model, from index mi on
unfoldable pub class_flags :
    ℕ → List ℕ → List Bool → List String → Result (List (String × List Bool))
unfolding masked
class_flags mi y_m correct [] = ok []
class_flags mi y_m correct (cls ∷ classes) = masked (map (λ m. m == mi) y_m) correct >>= λ flags.
    class_flags (suc mi) y_m correct classes >>= λ rest. ok ((cls, flags) ∷ rest)

-- final_pred == true_class, where None is no class
abbrev pub is_right : Option String → String → Bool
is_right none c = false
is_right (some p) c = str_eq p c

module _ {F : Type 0} ⦃fl : Float F⦄ ⦃np : Numpy F⦄ where
  -- per_class[cls], where the class has samples
  unfoldable pub class_accuracies :
      List (String × List Bool) → List (String × F) → List (String × F)
  unfolding accuracy
  class_accuracies [] per_class = per_class
  class_accuracies ((cls, flags) ∷ rest) per_class =
      class_accuracies rest
        (if length flags == 0 then per_class else put cls (accuracy flags) per_class)

  unfoldable pub evaluate :
      (List (Channels F) → Result (List (List F)))
      → List String
      → Bool
      → Bool
      → Holdout F
      → Result (HoldoutReport F)
  unfolding holdout_map router_labels known_mask model_labels masked unit_power run_inference
      hierarchical_preds hits accuracy class_flags class_accuracies per_snr_of
  evaluate run model_classes hierarchical router d =
      let classes = if router then router_labels d.classes else d.classes in
      let hmap = holdout_map model_classes 0 classes in
      let mask = known_mask hmap d.y in
      masked mask d.x >>= λ x_f. masked mask d.snrs >>= λ snrs_f. model_labels hmap d.y >>= λ y_m.
      let xs = map unit_power x_f in
      (if hierarchical then hierarchical_preds run xs model_classes else run_inference run xs)
      >>= λ preds.
          let correct = zip_with ◌==◌ preds y_m in
          class_flags 0 y_m correct model_classes >>= λ flags.
          per_snr_of snrs_f correct >>= λ per_snr. ok (record {
            total_samples = hits mask;
            skipped_unknown = hits (map not mask);
            overall_acc = accuracy correct;
            per_class = class_accuracies flags [];
            per_snr = per_snr;
          })

  -- correct[true_class == cls], for the classes of the samples in their order
  unfoldable pub true_class_accuracies :
      List String → List Bool → List String → Result (List (String × F))
  unfolding masked accuracy
  true_class_accuracies true_class correct [] = ok []
  true_class_accuracies true_class correct (cls ∷ classes) =
      masked (map (λ c. str_eq c cls) true_class) correct >>= λ flags.
      true_class_accuracies true_class correct classes >>= λ rest. ok ((cls, accuracy flags) ∷ rest)

  -- the second stage: --soft-top-k of at most 1 is hard routing
  unfoldable pub routed_classes :
      List String
      → Specialists F
      → ℕ
      → F
      → List (List F)
      → List String
      → List (Channels F)
      → Result (List (Option String))
  unfolding hard_routing top_families fill_cache soft_classes
  routed_classes router_classes specialists soft_top_k threshold router_probs pred_family xs =
      let rows = map (λ p. (top_families soft_top_k p, p)) router_probs in
      if soft_top_k == 0
      then hard_routing specialists pred_family xs
      else if soft_top_k == 1
      then hard_routing specialists pred_family xs
      else (fill_cache router_classes specialists threshold rows xs router_classes [] >>= λ cache.
          soft_classes router_classes specialists soft_top_k threshold cache 0 rows)

  -- From the router's probabilities on: `keep`, and of the samples that are kept the channels, the
  -- SNRs, the classes and the families.
  unfoldable pub chain_report :
      List String
      → Specialists F
      → ℕ
      → F
      → List Bool
      → List (Channels F)
      → List F
      → List String
      → List String
      → List (List F)
      → Result (ChainReport F)
  unfolding routed_classes hits accuracy per_snr_of true_class_accuracies
  chain_report router_classes specialists soft_top_k threshold keep x_f snrs_f true_class
        true_family router_probs =
      each np.argmax router_probs >>= λ fam_idx_pred.
      each (index router_classes) fam_idx_pred >>= λ pred_family.
      routed_classes router_classes specialists soft_top_k threshold router_probs pred_family x_f
      >>= λ final_pred.
          let correct = zip_with is_right final_pred true_class in
          true_class_accuracies true_class correct (sorted_set true_class) >>= λ per_class.
          per_snr_of snrs_f correct >>= λ per_snr. ok (record {
            total_samples = hits keep;
            skipped_no_specialist = hits (map not keep);
            router_acc = accuracy (zip_with str_eq pred_family true_family);
            overall_acc = accuracy correct;
            per_class = per_class;
            per_snr = per_snr;
          })

  unfoldable pub evaluate_chain :
      (List (Channels F) → Result (List (List F)))
      → List String
      → Specialists F
      → ℕ
      → F
      → Holdout F
      → Result (ChainReport F)
  unfolding keep_mask masked family_of_class run_probs chain_report
  evaluate_chain router_run router_classes specialists soft_top_k threshold d =
      keep_mask specialists d.classes d.y >>= λ keep. masked keep d.x >>= λ x_f.
      masked keep d.y >>= λ y_f. masked keep d.snrs >>= λ snrs_f.
      each (index d.classes) y_f >>= λ true_class.
      each family_of_class true_class >>= λ true_family.
      run_probs router_run x_f >>= λ router_probs.
      chain_report router_classes specialists soft_top_k threshold keep x_f snrs_f true_class
        true_family router_probs

-- ===== src/Evaluation/Chain.antt =====
-- tools/ml/eval_hierarchical_chain.py: `main`, where a router picks the family of each sample, and the
-- specialist of the family its class.
pub mod Loaded
pub mod Routed
use analysis_app.Prelude.{
  ℕ, zero, suc, ◌<◌, String, Bool, true, false, not, Option, none, some, List, [], ◌∷◌, length, map,
  replicate, if◌then◌else◌,
}
use analysis_app.Prelude.Text.{str_eq}
use analysis_app.Prelude.Assoc.{lookup, put}
use analysis_app.Prelude.Results.{Result, ok, raised, ◌>>=◌, each}
use analysis_app.Features.Arrays.{index, where_from, zip_with}
use analysis_app.Float.{Float}
use analysis_app.Numpy.{Numpy}
use analysis_app.FamilyMap.{class_family, sorted_set}
use analysis_app.Evaluation.{Channels, run_argmax, run_probs}
use analysis_app.Evaluation.Masks.{masked, select, assign, hits, accuracy, per_snr_of}

-- specialist_sess[fam] and specialist_classes[fam]
pub record Specialist (F : Type 0) : Type 0 where
  pub run : List (Channels F) → Result (List (List F))
  pub classes : List String

abbrev pub Specialists : Type 0 → Type 0
Specialists F = List (String × Specialist F)

-- What is in a holdout file.
pub record Holdout (F : Type 0) : Type 0 where
  pub classes : List String
  pub x : List (Channels F)
  pub y : List ℕ
  pub snrs : List F

pub record ChainReport (F : Type 0) : Type 0 where
  pub total_samples : ℕ
  pub skipped_no_specialist : ℕ
  pub router_acc : F
  pub overall_acc : F
  pub per_class : List (String × F)
  pub per_snr : List (F × F)

module _ {F : Type 0} where
  -- the specialist of a family, where its model is there; its load may raise
  unfoldable pub load_specialist :
      String → Option (Result (Specialist F)) → Specialists F → Result (Specialists F)
  load_specialist fam none loaded = ok loaded
  load_specialist fam (some file) loaded = file >>= λ s. ok (put fam s loaded)

  -- for fam in router_classes, from the ones loaded on
  unfoldable pub load_specialists :
      (String → Option (Result (Specialist F)))
      → List String
      → Specialists F
      → Result (Specialists F)
  unfolding load_specialist
  load_specialists files [] loaded = ok loaded
  load_specialists files (fam ∷ fams) loaded =
      load_specialist fam (files fam) loaded >>= λ next. load_specialists files fams next

  -- CLASS_FAMILY.get(c) in specialist_sess
  unfoldable pub is_served : Specialists F → String → Bool
  is_served specialists c = elim (lookup c class_family) [
    | none ↦ false
    | some fam ↦ elim (lookup fam specialists) [ none ↦ false | some s ↦ true ]
  ]

  -- keep_mask, which is no mask of Booleans where there is no label
  unfoldable pub keep_mask : Specialists F → List String → List ℕ → Result (List Bool)
  unfolding is_served
  keep_mask specialists classes [] =
      raised "arrays used as indices must be of integer (or boolean) type"
  keep_mask specialists classes (l ∷ ls) =
      each (λ n. index classes n >>= λ c. ok (is_served specialists c)) (l ∷ ls)

-- CLASS_FAMILY[c]
unfoldable pub family_of_class : String → Result String
family_of_class c = elim (lookup c class_family) [ none ↦ raised c | some fam ↦ ok fam ]

module _ {F : Type 0} ⦃fl : Float F⦄ ⦃np : Numpy F⦄ where
  -- One turn of the loop over the specialists: the samples at the positions get its prediction.
  unfoldable pub route_at :
      List (Channels F)
      → Specialist F
      → List ℕ
      → List (Option String)
      → Result (List (Option String))
  unfolding select assign
  route_at xs s [] final_pred = ok final_pred
  route_at xs s (k ∷ ks) final_pred = select (k ∷ ks) xs >>= λ chosen.
      run_argmax s.run chosen >>= λ cls_idx_pred.
      each (index s.classes) cls_idx_pred >>= λ names. assign (k ∷ ks) (map some names) final_pred

  unfoldable pub route_family :
      List String
      → List (Channels F)
      → String × Specialist F
      → List (Option String)
      → Result (List (Option String))
  unfolding route_at
  route_family pred_family xs (fam, s) final_pred =
      route_at xs s (where_from (λ p. str_eq p fam) 0 pred_family) final_pred

  unfoldable pub route_families :
      List String
      → List (Channels F)
      → Specialists F
      → List (Option String)
      → Result (List (Option String))
  unfolding route_family
  route_families pred_family xs [] final_pred = ok final_pred
  route_families pred_family xs (e ∷ specialists) final_pred =
      route_family pred_family xs e final_pred >>= λ next.
      route_families pred_family xs specialists next

  -- --soft-top-k 1, on an array of None
  unfoldable pub hard_routing :
      Specialists F → List String → List (Channels F) → Result (List (Option String))
  unfolding route_families
  hard_routing specialists pred_family xs =
      route_families pred_family xs specialists (replicate (length xs) none)

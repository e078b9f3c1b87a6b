-- ===== src/Evaluation/Labels.antt =====
-- tools/ml/eval_holdout.py, ensemble_eval.py, eval_class_snr.py, evaluate.py: the labels of a holdout
-- set, as labels of the model. A label is a number that is not negative.
pub mod Kept
use analysis_app.Prelude.{
  ℕ, zero, suc, String, Bool, true, false, ◌==◌, Option, none, some, List, [], ◌∷◌, map,
  if◌then◌else◌,
}
use analysis_app.Prelude.Text.{str_eq}
use analysis_app.Prelude.Assoc.{get_or, lookup, put}
use analysis_app.Prelude.Results.{Result, ok, raised, ◌>>=◌, each}
use analysis_app.FamilyMap.{class_family}
use analysis_app.Evaluation.Masks.{masked}
use analysis_app.Evaluation.Soft.{position}

-- A dictionary from labels to labels.
abbrev pub LabelMap : Type 0
LabelMap = List (ℕ × ℕ)

-- m.get(l), and l in m
unfoldable pub label_of : ℕ → LabelMap → Option ℕ
label_of l [] = none
label_of l ((k, v) ∷ m) = let later = label_of l m in if k == l then some v else later

abbrev pub is_some : {A : Type 0} → Option A → Bool
is_some none = false
is_some (some a) = true

-- for hi, cls in enumerate(holdout_classes), from hi on: the index in the model, where it has the class
unfoldable pub label_entry : ℕ → Option ℕ → LabelMap → LabelMap
label_entry hi none m = m
label_entry hi (some mi) m = (hi, mi) ∷ m

unfoldable pub holdout_map : List String → ℕ → List String → LabelMap
unfolding label_entry position
holdout_map model_classes hi [] = []
holdout_map model_classes hi (cls ∷ classes) =
    label_entry hi (position cls model_classes) (holdout_map model_classes (suc hi) classes)

-- evaluate.py: {n: i for i, n in enumerate(class_names)}, where the last of equal names counts
unfoldable pub model_map : ℕ → List String → List (String × ℕ) → List (String × ℕ)
model_map i [] m = m
model_map i (n ∷ names) m = model_map (suc i) names (put n i m)

unfoldable pub dataset_to_model : List String → ℕ → List String → LabelMap
unfolding label_entry model_map
dataset_to_model class_names di [] = []
dataset_to_model class_names di (dc ∷ classes) =
    label_entry di (lookup dc (model_map 0 class_names []))
      (dataset_to_model class_names (suc di) classes)

-- --router: the classes of the holdout set as families
unfoldable pub router_labels : List String → List String
router_labels classes = map (λ c. get_or c class_family c) classes

-- np.isin(y_raw, list(hmap.keys()))
unfoldable pub known_mask : LabelMap → List ℕ → List Bool
unfolding label_of
known_mask hmap y = map (λ l. is_some (label_of l hmap)) y

-- hmap[h]
abbrev pub known_label : Option ℕ → Result ℕ
known_label none = raised "KeyError"
known_label (some m) = ok m

-- [hmap[h] for h in y_raw[mask]]
unfoldable pub model_labels : LabelMap → List ℕ → Result (List ℕ)
unfolding label_of known_mask masked
model_labels hmap y =
    masked (known_mask hmap y) y >>= λ y_h. each (λ h. known_label (label_of h hmap)) y_h

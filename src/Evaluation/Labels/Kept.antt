-- ===== src/Evaluation/Labels/Kept.antt =====
-- The labels that are kept, and what they become.
use analysis_app.Prelude.{
  ℕ, zero, suc, ◌+◌, ◌<◌, ◌≡◌, refl, ap, ◌∙◌, if◌then◌else◌, inl, inr, ◌⊎◌, String, true, false,
  ◌==◌, Option, none, some, List, [], ◌∷◌, get_elem?, arith, Bool-cases, Option-cases,
}
use analysis_app.Prelude.Text.{str_eq, eq_iff, str_ne_sym, member}
use analysis_app.Evaluation.Soft.{position}
use analysis_app.Evaluation.Labels.{LabelMap, label_of, label_entry, holdout_map}

-- The position of a text in a list, where it is in the list.
pub position-cases :
    (x : String) (xs : List String)
    → ((position x xs ≡ none) × (member x xs ≡ false))
      ⊎ ((i : ℕ) × (position x xs ≡ some i) × (get_elem? xs i ≡ some x))
unfolding position
position-cases x [] = inl (refl, refl)
position-cases x (y ∷ ys) = elim (Bool-cases (str_eq y x)) [
  | inl e ↦ inr (0, rw e refl, ap some ((eq_iff y x).0 e))
  | inr e ↦ elim (position-cases x ys) [
    | inl (n, m) ↦ inl (rw (e, n) refl, rw (str_ne_sym y x e) m)
    | inr (i, p, g) ↦ inr (suc i, rw (e, p) refl, g)
  ]
]

-- The index of a class in the model, where there is a class and the model has it.
abbrev pub class_position : List String → Option String → Option ℕ
class_position model_classes none = none
class_position model_classes (some c) = position c model_classes

module _ (model_classes : List String) where
  label_of-label_entry :
      (l hi : ℕ) (o : Option ℕ) (m : LabelMap)
      → label_of l m ≡ none
      → label_of l (label_entry hi o m) ≡ (if hi == l then o else none)
  unfolding label_of label_entry
  label_of-label_entry l hi none m h = elim (Bool-cases (hi == l)) [
    | inl e ↦ rw (e, h) refl
    | inr e ↦ rw (e, h) refl
  ]
  label_of-label_entry l hi (some v) m h = rw h refl

  label_of-skip :
      (l hi : ℕ) (o : Option ℕ) (m : LabelMap)
      → (hi == l) ≡ false
      → label_of l (label_entry hi o m) ≡ label_of l m
  unfolding label_of label_entry
  label_of-skip l hi none m h = refl
  label_of-skip l hi (some v) m h = rw h refl

  label_of-before :
      (l hi : ℕ) (classes : List String)
      → l < hi
      → label_of l (holdout_map model_classes hi classes) ≡ none
  unfolding holdout_map label_of
  label_of-before l hi [] h = refl
  label_of-before l hi (c ∷ classes) h =
      let apart : (hi == l) ≡ false = ground (arith, h) in
      label_of-skip l hi (position c model_classes) (holdout_map model_classes (suc hi) classes)
        apart
      ∙ label_of-before l (suc hi) classes (omega (arith, h))

  label_of-from :
      (k hi : ℕ) (classes : List String)
      → label_of (hi + k) (holdout_map model_classes hi classes)
        ≡ class_position model_classes (get_elem? classes k)
  unfolding holdout_map label_of
  label_of-from k hi [] = refl
  label_of-from zero hi (c ∷ classes) =
      let e : hi + zero ≡ hi = omega arith in
      let t : (hi == hi) ≡ true = ground arith in
      rw e (
        label_of-label_entry hi hi (position c model_classes)
          (holdout_map model_classes (suc hi) classes)
          (label_of-before hi (suc hi) classes (omega arith))
        ∙ rw t refl)
  label_of-from (suc k) hi (c ∷ classes) =
      let e : hi + suc k ≡ suc hi + k = omega arith in
      let apart : (hi == (suc hi + k)) ≡ false = ground arith in
      rw e (
        label_of-skip (suc hi + k) hi (position c model_classes)
          (holdout_map model_classes (suc hi) classes) apart
        ∙ label_of-from k (suc hi) classes)

  -- For every label of a holdout set: either it is kept, and then it stands for a class of the holdout
  -- set, and its label for the model stands for the same class there; or it is not kept, and then it is
  -- beyond the classes of the holdout set, or its class is not a class of the model.
  pub holdout_map_lem :
      (classes : List String) (l : ℕ)
      → ((c : String) × (m : ℕ) × (get_elem? classes l ≡ some c)
          × (label_of l (holdout_map model_classes 0 classes) ≡ some m)
          × (get_elem? model_classes m ≡ some c))
        ⊎ ((label_of l (holdout_map model_classes 0 classes) ≡ none)
            × ((get_elem? classes l ≡ none)
                ⊎ ((c : String) × (get_elem? classes l ≡ some c)
                    × (member c model_classes ≡ false))))
  holdout_map_lem classes l =
      let found : label_of l (holdout_map model_classes 0 classes)
          ≡ class_position model_classes (get_elem? classes l) =
        let e : l ≡ 0 + l = omega arith in
        ap (λ k. label_of k (holdout_map model_classes 0 classes)) e ∙ label_of-from l 0 classes in
      elim (Option-cases (get_elem? classes l)) [
        | inl e ↦ inr (rw e at found, inl e)
        | inr (c, e) ↦ elim (position-cases c model_classes) [
          | inl (n, m) ↦ inr (rw (e, n) at found, inr (c, e, m))
          | inr (i, p, g) ↦ inl (c, i, e, rw (e, p) at found, g)
        ]
      ]

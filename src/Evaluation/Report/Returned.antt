-- ===== src/Evaluation/Report/Returned.antt =====
-- The flat evaluation of a holdout set returns.
use analysis_app.Prelude.{
  ℕ, suc, ◌+◌, ◌<◌, ◌≡◌, refl, ap, ◌∙◌, sym, inl, inr, String, Bool, true, false, ◌==◌, List, [],
  ◌∷◌, length, length-map, map, All, arith, Option-cases, if◌then◌else◌,
}
use analysis_app.Prelude.Results.{Result, ok, each, length-each, Returns, Returns-each}
use analysis_app.Features.Arrays.{zip_with}
use analysis_app.Features.Arrays.Shapes.{length-zip_with}
use analysis_app.Float.{Float}
use analysis_app.Numpy.{Numpy, IsShaped}
use analysis_app.Evaluation.{Channels, unit_power, run_inference}
use analysis_app.Evaluation.Batches.{IsRowwise, run_probs_lem}
use analysis_app.Evaluation.Masks.{masked, hits, per_snr_of}
use analysis_app.Evaluation.Chain.{Holdout}
use analysis_app.Evaluation.Labels.{
  LabelMap, label_of, is_some, known_label, holdout_map, router_labels, known_mask, model_labels,
}
use analysis_app.Evaluation.Report.{HoldoutReport, evaluate}
use analysis_app.Evaluation.Report.Classes.{class_flags-from}
use analysis_app.Evaluation.Report.Tallies.{hits-not}

Returns-masked :
    {A : Type 0} (mask : List Bool) (xs : List A)
    → length mask ≡ length xs
    → (ys : List A) × (masked mask xs ≡ ok ys) × (length ys ≡ hits mask)
unfolding masked hits
Returns-masked [] [] h = ([], refl, refl)
Returns-masked [] (x ∷ xs) h = absurd (omega (arith, h))
Returns-masked (b ∷ mask) [] h = absurd (omega (arith, h))
Returns-masked (true ∷ mask) (x ∷ xs) h =
    let (ys, e, n) = Returns-masked mask xs (omega (arith, h)) in (x ∷ ys, rw e refl, ap suc n)
Returns-masked (false ∷ mask) (x ∷ xs) h =
    let (ys, e, n) = Returns-masked mask xs (omega (arith, h)) in (ys, rw e refl, n)

every : {A : Type 0} (P : A → Type 0) (xs : List A) → ((x : A) → P x) → All P xs
every P [] h = tt
every P (x ∷ xs) h = (h x, every P xs h)

-- The labels that are kept are labels of the model.
Returns-model_labels :
    (hmap : LabelMap) (y : List ℕ)
    → (y_m : List ℕ) × (model_labels hmap y ≡ ok y_m) × (length y_m ≡ hits (known_mask hmap y))
unfolding model_labels known_mask masked hits
Returns-model_labels hmap [] = ([], refl, refl)
Returns-model_labels hmap (l ∷ y) =
    let (y_m, e, n) = Returns-model_labels hmap y in
    let (y_h, d, k) =
      Returns-masked (known_mask hmap y) y (length-map (λ l. is_some (label_of l hmap)) y) in
    let labels : each (λ h. known_label (label_of h hmap)) y_h ≡ ok y_m = rw d at e in
    elim (Option-cases (label_of l hmap)) [
      | inl c ↦ (y_m, rw (c, d, labels) refl, rw c n)
      | inr (m, c) ↦ (m ∷ y_m, rw (c, d, c, labels) refl, rw c (ap suc n))
    ]

module _ {F : Type 0} ⦃fl : Float F⦄ ⦃np : Numpy F⦄ where
  Returns-per_snr_of :
      (snrs : List F) (correct : List Bool)
      → length snrs ≡ length correct
      → Returns (per_snr_of snrs correct)
  unfolding per_snr_of
  Returns-per_snr_of snrs correct h = Returns-each _ (np.unique snrs) (
      every _ (np.unique snrs) (λ snr.
        let (cs, e, n) =
          Returns-masked (map (λ s. fl.eq s snr) snrs) correct
            (length-map (λ s. fl.eq s snr) snrs ∙ h) in
        rw e (_, refl)))

  module _ (shapes : IsShaped F) (run : List (Channels F) → Result (List (List F)))
      (scores : Channels F → List F) where
    Returns-run_inference :
        (xs : List (Channels F))
        → IsRowwise run scores
        → ((x : Channels F) → 0 < length (scores x))
        → 0 < length xs
        → (preds : List ℕ) × (run_inference run xs ≡ ok preds) × (length preds ≡ length xs)
    Returns-run_inference xs rowwise some_score some_sample =
        let class_alone : Channels F → Result ℕ = λ x. np.argmax (scores x) in
        let (preds, e) = Returns-each class_alone xs (
          every (λ x. Returns (class_alone x)) xs
            (λ x. let (i, d, below) = shapes.argmax_some (scores x) (some_score x) in (i, d))) in
        (
          preds,
          (run_probs_lem run scores xs rowwise some_sample).1 ∙ e,
          length-each class_alone xs preds e,
        )

    -- The labels of a holdout set that the model has.
    abbrev pub mask_of : List String → Bool → Holdout F → List Bool
    mask_of model_classes router d =
        known_mask
          (holdout_map model_classes 0 (if router then router_labels d.classes else d.classes)) d.y

    -- For a holdout set of as many samples and SNRs as labels, of which the model has at least one, and a
    -- session that scores each sample by itself and gives some score: the flat evaluation returns a report,
    -- on the samples whose label the model has, and the others are skipped; together they are all labels.
    pub Returns-evaluate :
        (model_classes : List String) (router : Bool) (d : Holdout F)
        → IsRowwise run scores
        → ((x : Channels F) → 0 < length (scores x))
        → length d.y ≡ length d.x
        → length d.y ≡ length d.snrs
        → 0 < hits (mask_of model_classes router d)
        → (r : HoldoutReport F) × (evaluate run model_classes false router d ≡ ok r)
          × (r.total_samples ≡ hits (mask_of model_classes router d))
          × (r.total_samples + r.skipped_unknown ≡ length d.y)
    unfolding evaluate known_mask
    Returns-evaluate model_classes router d rowwise some_score same_x same_snrs some_known =
        let hmap : LabelMap =
          holdout_map model_classes 0 (if router then router_labels d.classes else d.classes) in
        let mask = known_mask hmap d.y in
        let all_y : length mask ≡ length d.y = length-map (λ l. is_some (label_of l hmap)) d.y in
        let (x_f, e1, n1) = Returns-masked mask d.x (all_y ∙ same_x) in
        let (snrs_f, e2, n2) = Returns-masked mask d.snrs (all_y ∙ same_snrs) in
        let (y_m, e3, n3) = Returns-model_labels hmap d.y in
        let m = length-map unit_power x_f in
        let (preds, e4, n4) =
          Returns-run_inference (map unit_power x_f) rowwise some_score
            (omega (arith, m, n1, some_known)) in
        let correct = zip_with ◌==◌ preds y_m in
        let n5 : length correct ≡ hits mask =
          omega (arith, length-zip_with ◌==◌ preds y_m, n3, n4, m, n1) in
        let (flags, e5, hits_of, samples_of) =
          class_flags-from 0 y_m correct model_classes (n3 ∙ sym n5) in
        let (per_snr, e6) = Returns-per_snr_of snrs_f correct (n2 ∙ sym n5) in
        rw (e1, e2, e3, e4, e5, e6) (_, refl, refl, hits-not mask ∙ all_y)

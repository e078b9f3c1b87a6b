-- ===== src/Evaluation/Report/Tallies.antt =====
-- The numbers of a report add up.
use analysis_app.Prelude.{
  ℕ, suc, ◌+◌, ◌<◌, ◌≡◌, refl, ap, ◌∙◌, sym, String, Bool, true, false, not, ◌==◌, List, [], ◌∷◌,
  length, length-map, map, arith, if◌then◌else◌,
}
use analysis_app.Prelude.Results.{
  Result, ok, ◌>>=◌, each, bind_ok, ok-injective, absurd_raised, length-each, Raises,
}
use analysis_app.Features.Arrays.{index, zip_with}
use analysis_app.Float.{Float}
use analysis_app.Numpy.{Numpy}
use analysis_app.Evaluation.{Channels, unit_power, run_inference, run_probs}
use analysis_app.Evaluation.Batches.{Raises-run_inference, Raises-run_probs}
use analysis_app.Evaluation.Masks.{masked, hits, per_snr_of}
use analysis_app.Evaluation.Chain.{
  Holdout, ChainReport, Specialists, is_served, keep_mask, family_of_class,
}
use analysis_app.FamilyMap.{sorted_set}
use analysis_app.Evaluation.Labels.{
  label_of, is_some, holdout_map, router_labels, known_mask, model_labels,
}
use analysis_app.Evaluation.Report.{
  HoldoutReport, class_flags, evaluate, routed_classes, is_right, true_class_accuracies,
  chain_report, evaluate_chain,
}

-- Every place of a mask is kept or skipped.
pub hits-not : (mask : List Bool) → hits mask + hits (map not mask) ≡ length mask
unfolding hits
hits-not [] = omega arith
hits-not (true ∷ mask) = omega (arith, hits-not mask)
hits-not (false ∷ mask) = omega (arith, hits-not mask)

-- A mask keeps as many elements as it has places that are true.
pub length-masked :
    {A : Type 0} (mask : List Bool) (xs ys : List A)
    → masked mask xs ≡ ok ys
    → length ys ≡ hits mask
unfolding masked hits
length-masked [] [] ys h = let e : [] ≡ ys = ok-injective h in rw (← e) refl
length-masked [] (x ∷ xs) ys h = absurd_raised h
length-masked (b ∷ mask) [] ys h = absurd_raised h
length-masked (true ∷ mask) (x ∷ xs) ys h =
    let (rest, e, k) = bind_ok (masked mask xs) (λ rest. ok (x ∷ rest)) ys h in
    let same : (x ∷ rest) ≡ ys = ok-injective k in
    rw (← same) (ap suc (length-masked mask xs rest e))
length-masked (false ∷ mask) (x ∷ xs) ys h =
    let (rest, e, k) = bind_ok (masked mask xs) (λ rest. ok rest) ys h in
    let same : rest ≡ ys = ok-injective k in rw (← same) (length-masked mask xs rest e)

-- A list that is as long as a number is not empty, if some call raises on the empty list.
some_kept :
    {A B : Type 0} (f : List A → Result B) (xs : List A) (b : B) (n : ℕ)
    → length xs ≡ n
    → Raises (f [])
    → f xs ≡ ok b
    → 0 < n
some_kept f [] b n h (t, e) k = absurd_raised (sym e ∙ k)
some_kept f (x ∷ xs) b n h r k = omega (arith, h)

module _ {F : Type 0} ⦃fl : Float F⦄ ⦃np : Numpy F⦄
    (run : List (Channels F) → Result (List (List F))) where
  -- Where the flat evaluation of a holdout set returns a report, the samples that it reports and those
  -- that it skips are together the labels of the set, and it reports at least one: with none that is
  -- kept, the inference raises.
  pub evaluate_lem :
      (model_classes : List String) (router : Bool) (d : Holdout F) (r : HoldoutReport F)
      → evaluate run model_classes false router d ≡ ok r
      → (r.total_samples + r.skipped_unknown ≡ length d.y) × (0 < r.total_samples)
  unfolding evaluate known_mask
  evaluate_lem model_classes router d r h =
      let hmap =
        holdout_map model_classes 0 (if router then router_labels d.classes else d.classes) in
      let mask = known_mask hmap d.y in
      let (x_f, e1, h1) = bind_ok (masked mask d.x) _ r h in
      let (snrs_f, e2, h2) = bind_ok (masked mask d.snrs) _ r h1 in
      let (y_m, e3, h3) = bind_ok (model_labels hmap d.y) _ r h2 in
      let (preds, e4, h4) = bind_ok (run_inference run (map unit_power x_f)) _ r h3 in
      let (flags, e5, h5) =
        bind_ok (class_flags 0 y_m (zip_with ◌==◌ preds y_m) model_classes) _ r h4 in
      let (per_snr, e6, h6) = bind_ok (per_snr_of snrs_f (zip_with ◌==◌ preds y_m)) _ r h5 in
      let same = ok-injective h6 in
      rw (← same) (
        hits-not mask ∙ length-map (λ l. is_some (label_of l hmap)) d.y,
        some_kept (λ xs. run_inference run xs) (map unit_power x_f) preds (hits mask)
            (length-map unit_power x_f ∙ length-masked mask d.x x_f e1) (Raises-run_inference run)
            e4,
      )

module _ {F : Type 0} where
  length-keep_mask :
      (specialists : Specialists F) (classes : List String) (y : List ℕ) (mask : List Bool)
      → keep_mask specialists classes y ≡ ok mask
      → length mask ≡ length y
  unfolding keep_mask
  length-keep_mask specialists classes [] mask h = absurd_raised h
  length-keep_mask specialists classes (l ∷ ls) mask h =
      length-each (λ n. index classes n >>= λ c. ok (is_served specialists c)) (l ∷ ls) mask h

module _ {F : Type 0} ⦃fl : Float F⦄ ⦃np : Numpy F⦄ (router_classes : List String)
    (specialists : Specialists F) (soft_top_k : ℕ) (threshold : F) where
  chain_report-hits :
      (keep : List Bool) (x_f : List (Channels F)) (snrs_f : List F)
      (true_class true_family : List String) (router_probs : List (List F)) (r : ChainReport F)
      → chain_report router_classes specialists soft_top_k threshold keep x_f snrs_f true_class
          true_family router_probs
        ≡ ok r
      → (r.total_samples ≡ hits keep) × (r.skipped_no_specialist ≡ hits (map not keep))
  unfolding chain_report
  chain_report-hits keep x_f snrs_f true_class true_family router_probs r h =
      let (fam_idx_pred, e7, h7) = bind_ok (each np.argmax router_probs) _ r h in
      let (pred_family, e8, h8) = bind_ok (each (index router_classes) fam_idx_pred) _ r h7 in
      let (final_pred, e9, h9) =
        bind_ok
          (routed_classes router_classes specialists soft_top_k threshold router_probs pred_family
            x_f)
          _ r h8 in
      let correct = zip_with is_right final_pred true_class in
      let (per_class, e10, h10) =
        bind_ok (true_class_accuracies true_class correct (sorted_set true_class)) _ r h9 in
      let (per_snr, e11, h11) = bind_ok (per_snr_of snrs_f correct) _ r h10 in
      let same = ok-injective h11 in rw (← same) (refl, refl)

  -- Where the evaluation of the router and its specialists returns a report, with hard or with soft
  -- routing, the samples that it reports and those that it skips are together the labels of the set, and
  -- it reports at least one.
  pub evaluate_chain_lem :
      (router_run : List (Channels F) → Result (List (List F))) (d : Holdout F) (r : ChainReport F)
      → evaluate_chain router_run router_classes specialists soft_top_k threshold d ≡ ok r
      → (r.total_samples + r.skipped_no_specialist ≡ length d.y) × (0 < r.total_samples)
  unfolding evaluate_chain
  evaluate_chain_lem router_run d r h =
      let (keep, e0, h0) = bind_ok (keep_mask specialists d.classes d.y) _ r h in
      let (x_f, e1, h1) = bind_ok (masked keep d.x) _ r h0 in
      let (y_f, e2, h2) = bind_ok (masked keep d.y) _ r h1 in
      let (snrs_f, e3, h3) = bind_ok (masked keep d.snrs) _ r h2 in
      let (true_class, e4, h4) = bind_ok (each (index d.classes) y_f) _ r h3 in
      let (true_family, e5, h5) = bind_ok (each family_of_class true_class) _ r h4 in
      let (router_probs, e6, h6) = bind_ok (run_probs router_run x_f) _ r h5 in
      let (total, skipped) =
        chain_report-hits keep x_f snrs_f true_class true_family router_probs r h6 in
      rw (total, skipped)
        (
          hits-not keep ∙ length-keep_mask specialists d.classes d.y keep e0,
          some_kept (λ xs. run_probs router_run xs) x_f router_probs (hits keep)
              (length-masked keep d.x x_f e1) (Raises-run_probs router_run) e6,
        )

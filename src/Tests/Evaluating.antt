-- ===== src/Tests/Evaluating.antt =====
-- Runs of the evaluation scripts.
use analysis_app.Prelude.{
  ℕ, ◌≡◌, refl, ◌+◌, ◌<◌, ◌⊎◌, String, Bool, true, false, Option, none, some, List, [], ◌∷◌,
  get_elem?, map, All, if◌then◌else◌, here, there, arith,
}
use analysis_app.Prelude.Int.{ℤ, pos, negsuc}
use analysis_app.Prelude.Text.{member, str_eq}
use analysis_app.Prelude.Results.{Result, ok, raised, each, Raises, ok-injective}
use analysis_app.Features.Arrays.{index}
use analysis_app.Float.Fixed.{fixed_float, fixed-IsOrdered, lit_ℤ}
use analysis_app.Numpy.Fixed.{fixed_numpy, fixed-IsShaped}
use analysis_app.FamilyMap.{family_idx, class_to_family_idx}
use analysis_app.Evaluation.{Channels, run_argmax, onnx_predict, class_snr_preds}
use analysis_app.Evaluation.Batches.{class_of, run_argmax_lem}
use analysis_app.Evaluation.Masks.{hits}
use analysis_app.Evaluation.Chain.{
  Specialist, Specialists, Holdout, ChainReport, load_specialists, hard_routing,
}
use analysis_app.Evaluation.Chain.Routed.{route_alone, unrouted, hard_routing_refines}
use analysis_app.Evaluation.Soft.{position, Choice, Cache, ask_families}
use analysis_app.Evaluation.Soft.Confident.{IsAnswer, ask_families-IsAnswer}
use analysis_app.Evaluation.Labels.{known_mask, label_entry, label_of, holdout_map}
use analysis_app.Evaluation.Labels.Kept.{holdout_map_lem}
use analysis_app.Evaluation.Gated.{has_index, gated_class, family_probs, family_mask}
use analysis_app.Evaluation.Gated.Within.{gated_class_lem}
use analysis_app.Evaluation.Report.{HoldoutReport, class_flags, evaluate, evaluate_chain}
use analysis_app.Evaluation.Report.Classes.{all_hits, all_samples, class_flags_lem}
use analysis_app.Evaluation.Report.Tallies.{evaluate_chain_lem}
use analysis_app.Evaluation.Report.Returned.{mask_of, Returns-evaluate}

abbrev at_point : ℤ → ℤ → Channels ℤ
at_point a b = record { i = a ∷ []; q = b ∷ [] }

-- Scores for two classes.
abbrev two_scores : Channels ℤ → List ℤ
two_scores x = fixed_numpy.sum x.i ∷ fixed_numpy.sum x.q ∷ []

abbrev two_run : List (Channels ℤ) → Result (List (List ℤ))
two_run b = ok (map two_scores b)

abbrev points : List (Channels ℤ)
points = at_point (lit_ℤ 1 0) (lit_ℤ 2 0) ∷ at_point (lit_ℤ 3 0) (lit_ℤ 4 0) ∷ []

run_argmax_lem_example :
    (run_argmax two_run points ≡ each (class_of two_run two_scores) points)
    × (onnx_predict two_run 1 points ≡ each (class_of two_run two_scores) points)
    × (class_snr_preds two_run points ≡ each (class_of two_run two_scores) points)
    × Raises (run_argmax two_run [])
run_argmax_lem_example =
    run_argmax_lem two_run two_scores points 1 (λ b. refl) (omega arith) (omega arith)

abbrev psk_specialist : Specialist ℤ
psk_specialist = record { run = two_run; classes = "BPSK" ∷ "QPSK" ∷ [] }

abbrev only_psk : Specialists ℤ
only_psk = ("PSK", psk_specialist) ∷ []

-- Only the model of one family is there.
abbrev psk_file : String → Option (Result (Specialist ℤ))
psk_file fam = if str_eq fam "PSK" then some (ok psk_specialist) else none

abbrev with_families : List (String × Channels ℤ)
with_families =
    ("PSK", at_point (lit_ℤ 1 0) (lit_ℤ 2 0)) ∷ ("FM", at_point (lit_ℤ 3 0) (lit_ℤ 4 0)) ∷ []

abbrev scores_of : Specialist ℤ → Channels ℤ → List ℤ
scores_of s x = two_scores x

hard_routing_refines_example :
    (final_pred : List (Option String)) × (hard_routing only_psk
        (map (λ s. s.0) with_families)
        (map (λ s. s.1) with_families)
      ≡ ok final_pred)
    × (each (route_alone scores_of only_psk unrouted) with_families ≡ ok final_pred)
unfolding load_specialists
hard_routing_refines_example =
    hard_routing_refines scores_of fixed-IsShaped psk_file ("FM" ∷ "PSK" ∷ []) only_psk
      with_families refl ((λ b. refl, λ x. refl, omega arith), tt)

abbrev psk_cache : Cache ℤ
psk_cache = ("PSK", (lit_ℤ 7 1 ∷ lit_ℤ 3 1 ∷ []) ∷ []) ∷ []

abbrev undecided : Choice ℤ
undecided = record { best_cls = none; best_conf = negsuc 999999 }

abbrev decided : Choice ℤ
decided = record { best_cls = some "BPSK"; best_conf = lit_ℤ 7 1 }

ask_families-IsAnswer_example :
    (ci : ℕ) × (conf : ℤ) × IsAnswer fixed-IsOrdered psk_specialist
      (lit_ℤ 7 1 ∷ lit_ℤ 3 1 ∷ [])
      ci
      conf
    × (fixed_float.lt (lit_ℤ 7 1) conf ≡ false)
unfolding ask_families
ask_families-IsAnswer_example =
    ask_families-IsAnswer fixed-IsOrdered ("FM" ∷ "PSK" ∷ []) only_psk psk_cache 0 (0 ∷ 1 ∷ [])
      undecided decided 1 psk_specialist (lit_ℤ 7 1 ∷ lit_ℤ 3 1 ∷ []) refl refl (there here)
      ("PSK", _, refl, refl, refl, refl)

abbrev psk_classes : List String
psk_classes = "BPSK" ∷ "QPSK" ∷ []

abbrev fm_and_psk : List String
fm_and_psk = "FM_NB" ∷ "QPSK" ∷ []

holdout_map_lem_example :
    ((c : String) × (m : ℕ) × (get_elem? fm_and_psk 1 ≡ some c)
      × (label_of 1 (holdout_map psk_classes 0 fm_and_psk) ≡ some m)
      × (get_elem? psk_classes m ≡ some c))
    ⊎ ((label_of 1 (holdout_map psk_classes 0 fm_and_psk) ≡ none)
        × ((get_elem? fm_and_psk 1 ≡ none)
            ⊎ ((c : String) × (get_elem? fm_and_psk 1 ≡ some c) × (member c psk_classes ≡ false))))
holdout_map_lem_example = holdout_map_lem psk_classes fm_and_psk 1

abbrev bpsk_probs : List ℤ
bpsk_probs = lit_ℤ 7 1 ∷ lit_ℤ 3 1 ∷ []

-- The first of the gated probabilities.
first_is_most :
    (i : ℕ) (v : ℤ)
    → 0 ≡ i
    → index (lit_ℤ 7 1 ∷ pos 0 ∷ []) i ≡ ok v
    → All (λ x. fixed_float.lt v x ≡ false) (lit_ℤ 7 1 ∷ pos 0 ∷ [])
first_is_most i v e k =
    let at_first : ok (lit_ℤ 7 1) ≡ ok v = rw (← e) at k in
    rw (← ok-injective at_first) (refl, (refl, tt))

gated_class_lem_example : has_index 0 (family_idx "AM_DSB") ≡ true
unfolding gated_class family_probs family_mask class_to_family_idx family_idx
gated_class_lem_example =
    gated_class_lem ("AM_DSB" ∷ "QPSK" ∷ []) bpsk_probs 0 0 0 "AM_DSB" "AM_DSB" (lit_ℤ 7 1)
      (lit_ℤ 7 1) refl refl ((refl, refl), ((refl, refl), tt)) (refl, refl) (refl, refl) refl refl
      (λ i v e k. first_is_most i v (ok-injective e) k)

class_flags_lem_example :
    (flags : List (String × List Bool)) × (class_flags 0
        (1 ∷ 0 ∷ 1 ∷ [])
        (true ∷ false ∷ false ∷ [])
        psk_classes
      ≡ ok flags)
    × (all_hits flags ≡ hits (true ∷ false ∷ false ∷ []))
    × (all_samples flags ≡ 3)
class_flags_lem_example =
    class_flags_lem (1 ∷ 0 ∷ 1 ∷ []) (true ∷ false ∷ false ∷ []) psk_classes refl
      (omega arith, (omega arith, (omega arith, tt)))

abbrev psk_holdout : Holdout ℤ
psk_holdout = record {
  classes = "BPSK" ∷ "FM_NB" ∷ [];
  x = points;
  y = 0 ∷ 1 ∷ [];
  snrs = lit_ℤ 10 0 ∷ lit_ℤ 20 0 ∷ [];
}

Returns-evaluate_example :
    (r : HoldoutReport ℤ) × (evaluate two_run psk_classes false false psk_holdout ≡ ok r)
    × (r.total_samples
        ≡ hits (mask_of fixed-IsShaped two_run two_scores psk_classes false psk_holdout))
    × (r.total_samples + r.skipped_unknown ≡ 2)
unfolding hits known_mask label_of holdout_map label_entry position
Returns-evaluate_example =
    Returns-evaluate fixed-IsShaped two_run two_scores psk_classes false psk_holdout (λ b. refl)
      (λ x. omega arith) refl refl (omega arith)

abbrev chain_of : Result (ChainReport ℤ) → ChainReport ℤ
chain_of (ok r) = r
chain_of (raised e) = record {
  total_samples = 0;
  skipped_no_specialist = 0;
  router_acc = pos 0;
  overall_acc = pos 0;
  per_class = [];
  per_snr = [];
}

abbrev chained_report : Result (ChainReport ℤ)
unfolding evaluate_chain
chained_report = evaluate_chain two_run ("PSK" ∷ "FM" ∷ []) only_psk 2 (pos 0) psk_holdout

evaluate_chain_lem_example :
    ((chain_of chained_report).total_samples + (chain_of chained_report).skipped_no_specialist ≡ 2)
    × (0 < (chain_of chained_report).total_samples)
unfolding evaluate_chain
evaluate_chain_lem_example =
    evaluate_chain_lem ("PSK" ∷ "FM" ∷ []) only_psk 2 (pos 0) two_run psk_holdout
      (chain_of chained_report) refl

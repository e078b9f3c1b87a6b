-- ===== src/Tests/Averaging.antt =====
-- A run of the ensemble and of the phase_rotated passes.
use analysis_app.Prelude.{ℕ, ◌≡◌, refl, length-replicate, List, [], ◌∷◌, map, replicate, arith}
use analysis_app.Prelude.Int.{ℤ, pos}
use analysis_app.Prelude.Results.{ok, each}
use analysis_app.Float.Fixed.{fixed_float, lit_ℤ}
use analysis_app.Numpy.Fixed.{fixed_numpy}
use analysis_app.Evaluation.{Channels}
use analysis_app.Evaluation.Averaged.{zeros, averaged, run_inference_tta, ensemble_probs}
use analysis_app.Evaluation.Averaged.Batchless.{rowwise}
use analysis_app.Evaluation.Averaged.Passes.{added_rotated, added_sessions, ensemble_probs_lem}

abbrev by_channel : Channels ℤ → List ℤ
by_channel x = fixed_numpy.sum x.i ∷ fixed_numpy.sum x.q ∷ []

abbrev by_other : Channels ℤ → List ℤ
by_other x = fixed_numpy.sum x.q ∷ fixed_numpy.sum x.i ∷ []

abbrev two_signals : List (Channels ℤ)
two_signals =
    record { i = lit_ℤ 1 0 ∷ []; q = lit_ℤ 2 0 ∷ [] }
    ∷ record { i = lit_ℤ 3 0 ∷ []; q = lit_ℤ 1 0 ∷ [] }
    ∷ []

abbrev no_angles : ℕ → List ℤ
no_angles t = replicate 2 (pos 0)

ensemble_probs_lem_example :
    (ensemble_probs no_angles two_signals 2 (map rowwise (by_channel ∷ by_other ∷ [])) 3
      ≡ ok (
          averaged 6
            (added_sessions no_angles two_signals 3 (by_channel ∷ by_other ∷ []) 0 (zeros 2 2))))
    × (run_inference_tta no_angles two_signals (rowwise by_channel) 2 3
        ≡ each fixed_numpy.argmax (added_rotated no_angles two_signals by_channel 3 0 (zeros 2 2)))
ensemble_probs_lem_example =
    ensemble_probs_lem no_angles two_signals 2 (omega arith) (λ t. length-replicate 2 (pos 0)) 3
      by_channel (by_other ∷ []) ((λ x. refl), ((λ x. refl), tt))

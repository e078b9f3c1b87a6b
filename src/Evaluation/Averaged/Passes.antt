-- ===== src/Evaluation/Averaged/Passes.antt =====
-- The passes of `run_inference` and the sessions of `ensemble_probs`.
use analysis_app.Prelude.{
  ℕ, zero, suc, ◌+◌, ◌*◌, ◌<◌, ◌≡◌, refl, ◌∙◌, sym, inl, inr, ltb, max, Bool, true, false,
  Bool-cases, List, [], ◌∷◌, length, length-map, length-replicate, map, All, replicate,
  if◌then◌else◌, arith,
}
use analysis_app.Prelude.Results.{ok, each}
use analysis_app.Features.Arrays.{zip_with}
use analysis_app.Features.Arrays.Shapes.{length-zip_with}
use analysis_app.Float.{Float}
use analysis_app.Numpy.{Numpy}
use analysis_app.Evaluation.{Channels}
use analysis_app.Evaluation.Averaged.{
  zeros, phase_rotated, sum_rotated, run_inference_tta, session_passes, sum_sessions, averaged,
  ensemble_probs,
}
use analysis_app.Evaluation.Averaged.Spliced.{HasWidth}
use analysis_app.Evaluation.Averaged.Batchless.{rowwise, added, added-HasWidth, sum_pass_lem}

-- The sums after rotated passes, after a session and after sessions, without batches.
module _ {F : Type 0} ⦃fl : Float F⦄ ⦃np : Numpy F⦄ (theta : ℕ → List F)
    (xs : List (Channels F)) where
  abbrev pub added_rotated : (Channels F → List F) → ℕ → ℕ → List (List F) → List (List F)
  added_rotated scores zero t rows = rows
  added_rotated scores (suc passes) t rows =
      added_rotated scores passes (suc t) (added scores (zip_with phase_rotated (theta t) xs) rows)

  abbrev pub added_session : ℕ → (Channels F → List F) → ℕ → List (List F) → List (List F)
  added_session tta scores t rows =
      if ltb 1 tta then added_rotated scores tta t rows else added scores xs rows

  abbrev pub added_sessions : ℕ → List (Channels F → List F) → ℕ → List (List F) → List (List F)
  added_sessions tta [] t rows = rows
  added_sessions tta (scores ∷ sessions) t rows =
      added_sessions tta sessions (t + max 1 tta) (added_session tta scores t rows)

  -- Sums of the right shape.
  abbrev IsShaped : ℕ → List (List F) → Type 0
  IsShaped width rows = All (HasWidth width) rows × (length rows ≡ length xs)

  zeros-IsShaped : (width : ℕ) → IsShaped width (zeros (length xs) width)
  zeros-IsShaped width =
      (same (length xs), length-replicate (length xs) (replicate width (fl.lit 0 0)))
    where
      same : (n : ℕ) → All (HasWidth width) (replicate n (replicate width (fl.lit 0 0)))
      same zero = tt
      same (suc n) = (length-replicate width (fl.lit 0 0), same n)

  module _ (width : ℕ) (wide : 1 < width) (turned : (t : ℕ) → length (theta t) ≡ length xs) where
    rotated_lem :
        (again : Bool) (scores : Channels F → List F)
        → ((x : Channels F) → length (scores x) ≡ width)
        → (passes t : ℕ) (f : Bool) (rows : List (List F)) → IsShaped width rows
        → (g : Bool) × (sum_rotated theta xs again
              (rowwise scores)
              passes
              t
              (record { fresh = f; width = width; rows = rows })
            ≡ ok (record { fresh = g; width = width; rows = added_rotated scores passes t rows }))
          × IsShaped width (added_rotated scores passes t rows)
    unfolding sum_rotated
    rotated_lem again scores scored zero t f rows shape = (f, refl, shape)
    rotated_lem again scores scored (suc passes) t f rows (alike, n) =
        let turn = zip_with phase_rotated (theta t) xs in
        let whole : length turn ≡ length xs =
          omega (arith, length-zip_with phase_rotated (theta t) xs, turned t) in
        let (g, e) =
          sum_pass_lem width wide scores scored again turn rows alike (n ∙ sym whole) f in
        let (alike', m) = added-HasWidth width wide scores scored turn rows alike (n ∙ sym whole) in
        let (h, d, shape) =
          rotated_lem again scores scored passes (suc t) g (added scores turn rows)
            (alike', m ∙ whole) in
        (h, rw e d, shape)

    session_lem :
        (tta : ℕ) (scores : Channels F → List F)
        → ((x : Channels F) → length (scores x) ≡ width)
        → (t : ℕ) (f : Bool) (rows : List (List F)) → IsShaped width rows
        → (g : Bool) × (session_passes theta xs tta
              (rowwise scores)
              t
              (record { fresh = f; width = width; rows = rows })
            ≡ ok (record { fresh = g; width = width; rows = added_session tta scores t rows }))
          × IsShaped width (added_session tta scores t rows)
    unfolding session_passes
    session_lem tta scores scored t f rows (alike, n) = elim (Bool-cases (ltb 1 tta)) [
      | inl e ↦ rw e (rotated_lem false scores scored tta t true rows (alike, n))
      | inr e ↦
          let (g, d) = sum_pass_lem width wide scores scored false xs rows alike n true in
          rw e (g, d, added-HasWidth width wide scores scored xs rows alike n)
    ]

    sessions_lem :
        (tta : ℕ) (sessions : List (Channels F → List F))
        → All (λ scores. (x : Channels F) → length (scores x) ≡ width) sessions
        → (t : ℕ) (f : Bool) (rows : List (List F)) → IsShaped width rows
        → (g : Bool) × (sum_sessions theta xs tta
              (map rowwise sessions)
              t
              (record { fresh = f; width = width; rows = rows })
            ≡ ok (record { fresh = g; width = width; rows = added_sessions tta sessions t rows }))
    unfolding sum_sessions
    sessions_lem tta [] scored t f rows shape = (f, refl)
    sessions_lem tta (scores ∷ sessions) (scored, more) t f rows shape =
        let (g, e, shape') = session_lem tta scores scored t f rows shape in
        let (h, d) =
          sessions_lem tta sessions more (t + max 1 tta) g (added_session tta scores t rows)
            shape' in
        (h, rw e d)

    -- Where every session scores each sample by itself, with the same number of classes, more than one,
    -- which the first session names, and there is an angle for each sample in each pass: the ensemble's
    -- probabilities are the sums, sample by sample and without batches, of the softmax of the scores over
    -- the passes of all sessions, divided by the number of the passes; and `run_inference` with rotated
    -- passes returns the places of the greatest sums of its one session.
    pub ensemble_probs_lem :
        (tta : ℕ) (scores : Channels F → List F) (sessions : List (Channels F → List F))
        → All (λ s. (x : Channels F) → length (s x) ≡ width) (scores ∷ sessions)
        → (ensemble_probs theta xs width (map rowwise (scores ∷ sessions)) tta
            ≡ ok (
                averaged
                  (suc (length sessions) * max 1 tta)
                  (added_sessions tta (scores ∷ sessions) 0 (zeros (length xs) width))))
          × (run_inference_tta theta xs (rowwise scores) width tta
              ≡ each np.argmax (added_rotated scores tta 0 (zeros (length xs) width)))
    unfolding ensemble_probs run_inference_tta
    ensemble_probs_lem tta scores sessions (scored, more) =
        let (g, e) =
          sessions_lem tta (scores ∷ sessions) (scored, more) 0 true (zeros (length xs) width)
            (zeros-IsShaped width) in
        let (h, d, shape) =
          rotated_lem true scores scored tta 0 true (zeros (length xs) width)
            (zeros-IsShaped width) in
        (rw (e, length-map rowwise sessions) refl, rw d refl)

-- ===== src/Evaluation/Averaged.antt =====
-- tools/ml/eval_holdout.py, `run_inference` with more than one pass, and tools/ml/ensemble_eval.py,
-- `ensemble_probs`: the probabilities of rotated samples, summed in batches. The angles that the
-- generator draws, one for each sample, are given by the number of the pass.
pub mod Batchless
pub mod Spliced
pub mod Passes
use analysis_app.Prelude.{
  ℕ, zero, suc, ◌+◌, ◌*◌, ltb, ◌==◌, max, Bool, true, false, ◌&&◌, List, [], ◌∷◌, ◌++◌, length,
  take, drop, map, replicate, if◌then◌else◌,
}
use analysis_app.Prelude.Results.{Result, ok, raised, ◌>>=◌, each}
use analysis_app.Features.Arrays.{slice, zip_with}
use analysis_app.Float.{Float}
use analysis_app.Numpy.{Numpy}
use analysis_app.Evaluation.{Channels, batch_starts, softmax}

-- avg with its shape[1], and whether the next batch looks at that: each batch of `run_inference` does, and
-- the first of a session in `ensemble_probs`.
pub record Sums (F : Type 0) : Type 0 where
  pub fresh : Bool
  pub width : ℕ
  pub rows : List (List F)

abbrev pub first_width : {F : Type 0} → List (List F) → ℕ
first_width [] = 0
first_width (row ∷ rows) = length row

module _ {F : Type 0} ⦃fl : Float F⦄ where
  abbrev pub zeros : ℕ → ℕ → List (List F)
  zeros n width = replicate n (replicate width (fl.lit 0 0))

  -- an array in place, for rows of the same shape
  unfoldable pub add_rows : List (List F) → List (List F) → Result (List (List F))
  add_rows [] [] = ok []
  add_rows (a ∷ rows) (r ∷ probs) = add_rows rows probs >>= λ rest.
      if length a == length r
      then ok (zip_with fl.add a r ∷ rest)
      else raised "operands could not be broadcast together"
  add_rows _ _ = raised "operands could not be broadcast together"

  -- avg[i : i + BATCH] += rows
  unfoldable pub add_at : ℕ → List (List F) → List (List F) → Result (List (List F))
  unfolding add_rows
  add_at i probs avg = add_rows (slice i (i + 512) avg) probs >>= λ sums.
      ok (take i avg ++ (sums ++ drop (i + 512) avg))

module _ {F : Type 0} ⦃fl : Float F⦄ ⦃np : Numpy F⦄ where
  open fl use {lit, add, sub, mul, div}

  unfoldable pub phase_rotated : F → Channels F → Channels F
  phase_rotated theta x =
      let c = np.cis theta in
      record {
        i = zip_with (λ a b. sub (mul a c.re) (mul b c.im)) x.i x.q;
        q = zip_with (λ a b. add (mul a c.im) (mul b c.re)) x.i x.q;
      }

  -- avg / n_passes
  abbrev pub averaged : ℕ → List (List F) → List (List F)
  averaged passes rows = map (λ row. map (λ a. div a (lit passes 0)) row) rows

  module _ (again : Bool) (run : List (Channels F) → Result (List (List F)))
      (xs : List (Channels F)) where
    unfoldable pub sum_batch : ℕ → Sums F → Result (Sums F)
    unfolding softmax add_at
    sum_batch i s = run (slice i (i + 512) xs) >>= λ logits. each softmax logits >>= λ probs.
        let n = first_width logits in
        let narrow = s.fresh && s.width == 1 in
        add_at i probs (if narrow then zeros (length xs) n else s.rows) >>= λ rows.
        ok (record { fresh = again; width = if narrow then n else s.width; rows = rows })

    unfoldable pub sum_batches : List ℕ → Sums F → Result (Sums F)
    unfolding sum_batch
    sum_batches [] s = ok s
    sum_batches (i ∷ starts) s = sum_batch i s >>= λ t. sum_batches starts t

    unfoldable pub sum_pass : Sums F → Result (Sums F)
    unfolding sum_batches batch_starts
    sum_pass s = batch_starts 512 (length xs) >>= λ starts. sum_batches starts s

  module _ (theta : ℕ → List F) (xs : List (Channels F)) where
    -- so many passes, from number t on, over rotated samples
    unfoldable pub sum_rotated :
        Bool → (List (Channels F) → Result (List (List F))) → ℕ → ℕ → Sums F → Result (Sums F)
    unfolding sum_pass phase_rotated
    sum_rotated again run zero t s = ok s
    sum_rotated again run (suc passes) t s =
        sum_pass again run (zip_with phase_rotated (theta t) xs) s >>= λ u.
        sum_rotated again run passes (suc t) u

    -- run_inference for tta > 1; `declared` is the width that the session names, or 1
    unfoldable pub run_inference_tta :
        (List (Channels F) → Result (List (List F))) → ℕ → ℕ → Result (List ℕ)
    unfolding sum_rotated
    run_inference_tta run declared tta =
        sum_rotated true run tta 0
          (record { fresh = true; width = declared; rows = zeros (length xs) declared })
        >>= λ s. each np.argmax s.rows

    -- the passes of one session, t passes into the run
    unfoldable pub session_passes :
        ℕ → (List (Channels F) → Result (List (List F))) → ℕ → Sums F → Result (Sums F)
    unfolding sum_rotated sum_pass
    session_passes tta run t s =
        let opened = record s { fresh = true } in
        if ltb 1 tta then sum_rotated false run tta t opened else sum_pass false run xs opened

    unfoldable pub sum_sessions :
        ℕ → List (List (Channels F) → Result (List (List F))) → ℕ → Sums F → Result (Sums F)
    unfolding session_passes
    sum_sessions tta [] t s = ok s
    sum_sessions tta (run ∷ runs) t s =
        session_passes tta run t s >>= λ u. sum_sessions tta runs (t + max 1 tta) u

    -- sessions[0] names the width
    unfoldable pub ensemble_probs :
        ℕ → List (List (Channels F) → Result (List (List F))) → ℕ → Result (List (List F))
    unfolding sum_sessions
    ensemble_probs declared [] tta = raised "list index out of range"
    ensemble_probs declared (run ∷ runs) tta =
        sum_sessions tta (run ∷ runs) 0
          (record { fresh = true; width = declared; rows = zeros (length xs) declared })
        >>= λ s. ok (averaged (suc (length runs) * max 1 tta) s.rows)

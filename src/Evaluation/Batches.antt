-- ===== src/Evaluation/Batches.antt =====
-- Inference in batches gives what inference on one sample at a time gives.
use native.Mathlib.Nat.{lt-div-mul-add, div-eq_of_lt}
use analysis_app.Prelude.{
  ℕ, zero, suc, ◌+◌, ◌*◌, ◌/◌, ◌≤◌, ◌<◌, ◌≡◌, refl, ap, ◌∙◌, sym, inl, inr, List, [], ◌∷◌, length,
  map, arith,
}
use analysis_app.Prelude.Results.{
  Result, ok, ◌>>=◌, Result-cases, each, each_same, each-map, each-append, Raises,
}
use analysis_app.Features.Arrays.{slice, range, range_from}
use analysis_app.Features.Arrays.Chunks.{concat_all, chunk_of, concat-chunks, take_more}
use analysis_app.Float.{Float}
use analysis_app.Numpy.{Numpy}
use analysis_app.Evaluation.{
  Channels, batch_starts, concatenate, batched, unit_power, softmax, argmax_batch, probs_batch,
  plain_batch, run_argmax, run_probs, onnx_predict, run_inference, class_snr_preds,
}

module _ {A B : Type 0} (g : A → Result B) where
  each-concat_all :
      (xss : List (List A))
      → (each (each g) xss >>= λ yss. ok (concat_all yss)) ≡ each g (concat_all xss)
  each-concat_all [] = refl
  each-concat_all (xs ∷ xss) =
      rw (each-append g xs (concat_all xss), ← each-concat_all xss)
        (elim (Result-cases (each g xs)) [
          | inr (t, e) ↦ rw e
          | inl (us, e) ↦
              rw e
                (elim (Result-cases (each (each g) xss)) [ inl (v, c) ↦ rw c | inr (t, c) ↦ rw c ])
        ])

  each-concatenate :
      (xs : List A) (xss : List (List A))
      → (each (each g) (xs ∷ xss) >>= concatenate) ≡ each g (concat_all (xs ∷ xss))
  unfolding concatenate
  each-concatenate xs xss = sym step ∙ each-concat_all (xs ∷ xss)
    where
      step :
          (each (each g) (xs ∷ xss) >>= λ yss. ok (concat_all yss))
          ≡ (each (each g) (xs ∷ xss) >>= concatenate)
      step = elim (Result-cases (each g xs)) [
        | inr (t, e) ↦ rw e
        | inl (us, e) ↦
            rw e (elim (Result-cases (each (each g) xss)) [ inl (v, c) ↦ rw c | inr (t, c) ↦ rw c ])
      ]

  -- As many batches as there are cover the list.
  chunks_cover :
      (step : ℕ) (xs : List A)
      → concat_all (map (chunk_of (suc step) xs) (range ((length xs + step) / suc step))) ≡ xs
  chunks_cover step xs =
      let n : ℕ = (length xs + step) / suc step in
      let start : 0 * suc step ≡ 0 = omega arith in
      let enough : length xs ≤ n * suc step =
        omega (arith, lt-div-mul-add {a = length xs + step} {b = suc step} (omega arith)) in
      concat-chunks (suc step) xs 0 n ∙ rw start (take_more (n * suc step) xs enough)

  batches_of :
      (step : ℕ) (f : List A → Result (List B)) (xs : List A)
      → ((b : List A) → f b ≡ each g b)
      → (ks : List ℕ)
      → each (λ i. f (slice i (i + suc step) xs)) (map (λ k. k * suc step) ks)
        ≡ each (each g) (map (chunk_of (suc step) xs) ks)
  batches_of step f xs h ks =
      each-map (λ i. f (slice i (i + suc step) xs)) (λ k. k * suc step) ks
      ∙ each_same (λ k. f (chunk_of (suc step) xs k)) (λ k. each g (chunk_of (suc step) xs k)) ks
          (λ k. h (chunk_of (suc step) xs k))
      ∙ sym (each-map (each g) (chunk_of (suc step) xs) ks)

  -- A loop over batches, where a batch is done by doing each of its elements.
  pub batched-each :
      (step : ℕ) (f : List A → Result (List B)) (xs : List A)
      → 0 < step
      → 0 < length xs
      → ((b : List A) → f b ≡ each g b)
      → batched step f xs ≡ each g xs
  unfolding batched batch_starts
  batched-each zero f xs h k same = absurd (omega (arith, h))
  batched-each (suc step) f xs h k same = some_batch ((length xs + step) / suc step) refl
    where
      some_batch :
          (n : ℕ)
          → n ≡ (length xs + step) / suc step
          → (each (λ i. f (slice i (i + suc step) xs)) (map (λ k. k * suc step) (range n))
              >>= concatenate)
            ≡ each g xs
      some_batch zero e =
          let l : length xs + step < zero * suc step + suc step =
            rw e (lt-div-mul-add {a = length xs + step} {b = suc step} (omega arith)) in
          absurd (omega (arith, k, l))
      some_batch (suc n) e = rw (batches_of step f xs same (range (suc n))) (
          each-concatenate (chunk_of (suc step) xs 0)
            (map (chunk_of (suc step) xs) (range_from 1 n))
          ∙ ap (each g) (
              ap (λ m. concat_all (map (chunk_of (suc step) xs) (range m))) e
              ∙ chunks_cover step xs))

module _ {A B : Type 0} where
  -- Without an element there is no batch, and `np.concatenate` refuses.
  pub Raises-batched : (step : ℕ) (f : List A → Result (List B)) → Raises (batched step f [])
  unfolding batched batch_starts concatenate
  Raises-batched zero f = (_, refl)
  Raises-batched (suc step) f = no_batch ((0 + step) / suc step) (div-eq_of_lt (omega arith))
    where
      no_batch :
          (n : ℕ)
          → n ≡ 0
          → Raises (
              each (λ i. f (slice i (i + suc step) [])) (map (λ k. k * suc step) (range n))
              >>= concatenate)
      no_batch n e = rw e (_, refl)

module _ {F : Type 0} ⦃fl : Float F⦄ ⦃np : Numpy F⦄
    (run : List (Channels F) → Result (List (List F))) (scores : Channels F → List F) where
  -- The session scores a sample the same in every batch.
  abbrev pub IsRowwise : Type 0
  IsRowwise = (b : List (Channels F)) → run b ≡ ok (map scores b)

  -- The class of one sample.
  abbrev pub class_of : Channels F → Result ℕ
  class_of x = np.argmax (scores (unit_power x))

  argmax_batch-each : IsRowwise → (b : List (Channels F)) → argmax_batch run b ≡ each class_of b
  unfolding argmax_batch
  argmax_batch-each h b = rw (h (map unit_power b)) (
      each-map np.argmax scores (map unit_power b)
      ∙ each-map (λ x. np.argmax (scores x)) unit_power b)

  -- For a session that scores each sample by itself, and at least one sample, `run_argmax` returns
  -- what taking the class of one normalised sample after the other returns, exceptions included; so do
  -- `class_snr_preds` and, for every batch size that is not zero, `onnx_predict`. Without a sample
  -- `run_argmax` raises.
  pub run_argmax_lem :
      (xs : List (Channels F)) (batch_size : ℕ)
      → IsRowwise
      → 0 < length xs
      → 0 < batch_size
      → (run_argmax run xs ≡ each class_of xs)
        × (onnx_predict run batch_size xs ≡ each class_of xs)
        × (class_snr_preds run xs ≡ each class_of xs)
        × Raises (run_argmax run [])
  unfolding run_argmax onnx_predict class_snr_preds
  run_argmax_lem xs batch_size h some_sample k = (
    batched-each class_of 512 (argmax_batch run) xs (omega arith) some_sample (argmax_batch-each h),
    batched-each class_of batch_size (argmax_batch run) xs k some_sample (argmax_batch-each h),
    batched-each class_of 1024 (argmax_batch run) xs (omega arith) some_sample
        (argmax_batch-each h),
    Raises-batched 512 (argmax_batch run),
  )

  -- The probabilities of one sample.
  abbrev pub probs_of : Channels F → Result (List F)
  probs_of x = softmax (scores (unit_power x))

  -- For such a session and at least one sample, `run_probs` returns the softmax of each normalised
  -- sample's scores, and `run_inference` the class of each sample as it is.
  pub run_probs_lem :
      (xs : List (Channels F))
      → IsRowwise
      → 0 < length xs
      → (run_probs run xs ≡ each probs_of xs)
        × (run_inference run xs ≡ each (λ x. np.argmax (scores x)) xs)
  unfolding run_probs run_inference probs_batch plain_batch
  run_probs_lem xs h some_sample = (
    batched-each probs_of 512 (probs_batch run) xs (omega arith) some_sample (λ b.
        rw (h (map unit_power b)) (
          each-map softmax scores (map unit_power b)
          ∙ each-map (λ x. softmax (scores x)) unit_power b)),
    batched-each (λ x. np.argmax (scores x)) 512 (plain_batch run) xs (omega arith) some_sample
        (λ b. rw (h b) (each-map np.argmax scores b)),
  )

module _ {F : Type 0} ⦃fl : Float F⦄ ⦃np : Numpy F⦄
    (run : List (Channels F) → Result (List (List F))) where
  pub Raises-run_inference : Raises (run_inference run [])
  unfolding run_inference
  Raises-run_inference = Raises-batched 512 (plain_batch run)

  pub Raises-run_probs : Raises (run_probs run [])
  unfolding run_probs
  Raises-run_probs = Raises-batched 512 (probs_batch run)

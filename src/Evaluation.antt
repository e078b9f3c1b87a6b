-- ===== src/Evaluation.antt =====
-- tools/ml/eval_hierarchical_chain.py, eval_holdout.py, evaluate.py, eval_class_snr.py: the samples of
-- a holdout set, their normalisation, and inference in batches. A session, `sess.run` of onnxruntime,
-- is the argument `run`: a row of scores for each sample of a batch.
pub mod Batches
pub mod Masks
pub mod Chain
pub mod Soft
pub mod Labels
pub mod Gated
pub mod Report
pub mod Split
pub mod Averaged
use analysis_app.Prelude.{
  ℕ, zero, suc, ◌+◌, ◌-◌, ◌*◌, ◌/◌, Bool, List, [], ◌∷◌, length, map, if◌then◌else◌,
}
use analysis_app.Prelude.Results.{Result, ok, raised, ◌>>=◌, each}
use analysis_app.Features.Arrays.{slice, range, zip_with}
use analysis_app.Features.Arrays.Chunks.{concat_all}
use analysis_app.Float.{Float}
use analysis_app.Numpy.{Numpy}

-- A sample X[n]: the rows X[n, 0] and X[n, 1].
pub record Channels (F : Type 0) : Type 0 where
  pub i : List F
  pub q : List F

-- range(0, n, step)
unfoldable pub batch_starts : ℕ → ℕ → Result (List ℕ)
batch_starts zero n = raised "range() arg 3 must not be zero"
batch_starts (suc step) n = ok (map (λ k. k * suc step) (range ((n + step) / suc step)))

-- np.concatenate
unfoldable pub concatenate : {B : Type 0} → List (List B) → Result (List B)
concatenate [] = raised "need at least one array to concatenate"
concatenate (xs ∷ xss) = ok (concat_all (xs ∷ xss))

-- for i in range(0, len(X), step): parts.append(f(X[i:i + step])), and the parts together
unfoldable pub batched : {A B : Type 0} → ℕ → (List A → Result (List B)) → List A → Result (List B)
unfolding batch_starts concatenate
batched step f xs = batch_starts step (length xs) >>= λ starts.
    each (λ i. f (slice i (i + step) xs)) starts >>= concatenate

module _ {F : Type 0} ⦃fl : Float F⦄ ⦃np : Numpy F⦄ where
  open fl use {lit, add, sub, div, sqrt, exp, pow}

  -- the mean of I^2 + Q^2, from below 1e-9 on taken to be that
  unfoldable pub mean_power : Channels F → F
  mean_power x = np.maximum (np.mean (zip_with (λ a b. add (pow a 2) (pow b 2)) x.i x.q)) (lit 1 9)

  unfoldable pub unit_power : Channels F → Channels F
  unfolding mean_power
  unit_power x = record {
    i = map (λ a. div a (sqrt (mean_power x))) x.i;
    q = map (λ a. div a (sqrt (mean_power x))) x.q;
  }

  -- logits.max(axis=1) of a row, and the exponentials over their sum
  unfoldable pub softmax : List F → Result (List F)
  softmax [] = raised "zero-size array to reduction operation maximum which has no identity"
  softmax (l ∷ ls) =
      let es = map (λ x. exp (sub x (np.max (l ∷ ls)))) (l ∷ ls) in
      ok (map (λ e. div e (np.sum es)) es)

  module _ (run : List (Channels F) → Result (List (List F))) where
    unfoldable pub argmax_batch : List (Channels F) → Result (List ℕ)
    unfolding unit_power
    argmax_batch batch = run (map unit_power batch) >>= λ logits. each np.argmax logits

    -- eval_hierarchical_chain.py
    unfoldable pub run_argmax : List (Channels F) → Result (List ℕ)
    unfolding batched argmax_batch
    run_argmax xs = batched 512 argmax_batch xs

    unfoldable pub probs_batch : List (Channels F) → Result (List (List F))
    unfolding unit_power softmax
    probs_batch batch = run (map unit_power batch) >>= λ logits. each softmax logits

    unfoldable pub run_probs : List (Channels F) → Result (List (List F))
    unfolding batched probs_batch
    run_probs xs = batched 512 probs_batch xs

    -- evaluate.py, whose option --batch is any number
    unfoldable pub onnx_predict : ℕ → List (Channels F) → Result (List ℕ)
    unfolding batched argmax_batch
    onnx_predict batch_size xs = batched batch_size argmax_batch xs

    -- eval_holdout.py, with one pass: the samples are normalised by then
    unfoldable pub plain_batch : List (Channels F) → Result (List ℕ)
    plain_batch batch = run batch >>= λ logits. each np.argmax logits

    unfoldable pub run_inference : List (Channels F) → Result (List ℕ)
    unfolding batched plain_batch
    run_inference xs = batched 512 plain_batch xs

    -- eval_class_snr.py
    unfoldable pub class_snr_preds : List (Channels F) → Result (List ℕ)
    unfolding batched argmax_batch
    class_snr_preds xs = batched 1024 argmax_batch xs

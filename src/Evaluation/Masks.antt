-- ===== src/Evaluation/Masks.antt =====
-- Boolean masks, positions and means, as the evaluation scripts use them.
pub mod Positions
use analysis_app.Prelude.{
  ℕ, zero, suc, String, Bool, true, false, Option, none, some, List, [], ◌∷◌, length, map,
  if◌then◌else◌,
}
use analysis_app.Prelude.Text.{str_eq}
use analysis_app.Prelude.Assoc.{put}
use analysis_app.Prelude.Results.{Result, ok, raised, ◌>>=◌, each}
use analysis_app.Features.Arrays.{index}
use analysis_app.Float.{Float}
use analysis_app.Numpy.{Numpy}

module _ {A : Type 0} where
  -- xs[mask], for a mask of Booleans
  unfoldable pub masked : List Bool → List A → Result (List A)
  masked [] [] = ok []
  masked (b ∷ bs) (x ∷ xs) = masked bs xs >>= λ rest. ok (if b then x ∷ rest else rest)
  masked _ _ = raised "boolean index did not match indexed array"

  -- xs[idx], for positions
  unfoldable pub select : List ℕ → List A → Result (List A)
  select idx xs = each (index xs) idx

  unfoldable pub put_at : ℕ → A → List A → Result (List A)
  put_at i a [] = raised "index is out of bounds"
  put_at zero a (x ∷ xs) = ok (a ∷ xs)
  put_at (suc i) a (x ∷ xs) = put_at i a xs >>= λ rest. ok (x ∷ rest)

  -- xs[idx] = values, of as many values as positions
  unfoldable pub assign : List ℕ → List A → List A → Result (List A)
  unfolding put_at
  assign [] [] xs = ok xs
  assign (i ∷ idx) (a ∷ values) xs = put_at i a xs >>= λ ys. assign idx values ys
  assign _ _ xs = raised "shape mismatch"

-- mask.sum(): the number of places that are true
unfoldable pub hits : List Bool → ℕ
hits [] = 0
hits (b ∷ bs) = let rest = hits bs in if b then suc rest else rest

module _ {F : Type 0} ⦃fl : Float F⦄ ⦃np : Numpy F⦄ where
  -- correct.mean()
  unfoldable pub accuracy : List Bool → F
  unfolding hits
  accuracy correct = fl.div (fl.lit (hits correct) 0) (fl.lit (length correct) 0)

  -- for snr in sorted(np.unique(snrs)): the accuracy of the samples of that SNR
  unfoldable pub per_snr_of : List F → List Bool → Result (List (F × F))
  unfolding accuracy masked
  per_snr_of snrs correct =
      each (λ snr. masked (map (λ s. fl.eq s snr) snrs) correct >>= λ cs. ok (snr, accuracy cs))
        (np.unique snrs)

-- ===== src/Tests/Augmenting.antt =====
-- A run of the augmentation.
use analysis_app.Prelude.{
  ℕ, zero, suc, ◌<◌, ◌≡◌, refl, none, List, [], ◌∷◌, length, length-replicate, replicate, All,
  arith,
}
use analysis_app.Prelude.Int.{ℤ, pos}
use analysis_app.Prelude.Results.{ok}
use analysis_app.Features.Arrays.Chunks.{concat_all}
use analysis_app.Float.Fixed.{fixed_float}
use analysis_app.Numpy.Fixed.{fixed_numpy, fixed-IsShaped}
use analysis_app.Datasets.Npz.{Npz}
use analysis_app.Augment.{AugmentDraws, augment}
use analysis_app.Augment.Copied.{AreDraws, HasLength, augment_lem}
use analysis_app.Tests.Loading.{quiet, quiet-IsSound}

abbrev same_draws : AugmentDraws ℤ
same_draws = record {
  chosen = λ c n. replicate n 3;
  snr_jitter = λ c i. pos 7;
  channel = λ c i. quiet;
}

threes_below : (n : ℕ) → All (λ k. k < 5) (replicate n 3)
threes_below zero = tt
threes_below (suc n) = (omega arith, threes_below n)

same_draws-AreDraws : AreDraws ℤ same_draws
same_draws-AreDraws = record {
  length-chosen = λ c n. length-replicate n 3;
  chosen_below = λ c n. threes_below n;
  channel-IsSound = λ c i. quiet-IsSound;
}

abbrev two_samples : Npz ℤ
two_samples = record {
  x =
      (pos 1 ∷ (pos 2 ∷ []), pos 3 ∷ (pos 4 ∷ []))
      ∷ ((pos 5 ∷ (pos 6 ∷ []), pos 7 ∷ (pos 8 ∷ [])) ∷ []);
  y = pos 0 ∷ (pos 1 ∷ []);
  snrs = none;
  classes = "BPSK" ∷ ("QPSK" ∷ []);
}

augment_lem_example :
    (out : Npz ℤ) × (augment same_draws two_samples 3 ≡ ok out)
    × (out.classes ≡ two_samples.classes)
    × (out.y ≡ concat_all (replicate 4 two_samples.y))
    × (made : List (List (List ℤ × List ℤ))) × (out.x ≡ concat_all (two_samples.x ∷ made))
    × (length made ≡ 3)
    × All (λ c. (length c ≡ 2) × All (HasLength 2) c) made
augment_lem_example =
    augment_lem fixed-IsShaped refl 2 (omega arith) same_draws same_draws-AreDraws two_samples 3
      ((refl, refl), ((refl, refl), tt))

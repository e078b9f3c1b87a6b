-- ===== src/Tests/Generating.antt =====
-- A run of the generator of synthetic data sets.
use analysis_app.Prelude.{
  ℕ, zero, suc, ◌<◌, ◌≡◌, refl, some, List, [], ◌∷◌, length-replicate, replicate, All, arith,
}
use analysis_app.Prelude.Int.{ℤ, pos}
use analysis_app.Prelude.Results.{ok}
use analysis_app.Float.Fixed.{fixed_float}
use analysis_app.Numpy.Fixed.{fixed_numpy, fixed-IsShaped}
use analysis_app.Datasets.{IqSample}
use analysis_app.Datasets.Generators.{Draws, Tools}
use analysis_app.Datasets.Synthetic.{generate_synthetic}
use analysis_app.Datasets.Generators.Lengths.{IsDrawn}
use analysis_app.Datasets.Synthetic.Counted.{keys_of, AreSamples, generate_synthetic_lem}

abbrev plain_tools : Tools ℤ
plain_tools = record { ifft = λ xs. xs; floor = λ x. 2048; ten_to = λ x. pos 1000000 }

abbrev first_draws : Draws ℤ
first_draws = record {
  places = λ k n. replicate n 0;
  ofdm_places = λ k n. replicate n 0;
  bits = λ n. replicate n 1;
  audio = λ n. replicate n (pos 0);
  noise_re = λ n. replicate n (pos 0);
  noise_im = λ n. replicate n (pos 0);
}

zeros_below : (k n : ℕ) → 0 < k → All (λ p. p < k) (replicate n 0)
zeros_below k zero h = tt
zeros_below k (suc n) h = (h, zeros_below k n h)

first_draws-IsDrawn : IsDrawn ℤ first_draws
first_draws-IsDrawn = record {
  length-places = λ k n. length-replicate n 0;
  places_below = λ k n h. zeros_below k n h;
  length-ofdm_places = λ k n. length-replicate n 0;
  ofdm_places_below = λ k n. zeros_below 4 n (omega arith);
  length-bits = λ n. length-replicate n 1;
  length-audio = λ n. length-replicate n (pos 0);
  length-noise_re = λ n. length-replicate n (pos 0);
  length-noise_im = λ n. length-replicate n (pos 0);
}

generate_synthetic_lem_example :
    (ss : List (IqSample ℤ)) × (generate_synthetic plain_tools
        (λ idx. first_draws)
        1024
        5
        (pos 0 ∷ [])
        (some ("QAM16" ∷ "WIFI" ∷ "OFDM" ∷ []))
      ≡ ok ss)
    × AreSamples 1024 0 (keys_of 5 (pos 0 ∷ []) ("QAM16" ∷ "WIFI" ∷ "OFDM" ∷ [])) ss
generate_synthetic_lem_example =
    generate_synthetic_lem fixed-IsShaped plain_tools (λ xs. refl) (omega arith)
      (λ idx. first_draws) (λ idx. first_draws-IsDrawn) 1024 (omega arith) 5 (pos 0 ∷ [])
      (some ("QAM16" ∷ "WIFI" ∷ "OFDM" ∷ []))

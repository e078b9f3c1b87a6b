-- ===== src/Datasets/Raw/RoundTrip.antt =====
-- Interleaved values, as a recording holds them, and the samples read back.
use analysis_app.Prelude.{◌≡◌, refl, ap, true, List, [], ◌∷◌, length, length-map, map, arith, ◌==◌}
use analysis_app.Prelude.Results.{ok}
use analysis_app.Numpy.{Complex}
use analysis_app.Features.Arrays.{zip_with}
use analysis_app.Datasets.Raw.{combined, deinterleaved, iq_value, evens, odds}

module _ {F : Type 0} where
  -- I0, Q0, I1, Q1, ...
  abbrev pub interleaved : List (Complex F) → List F
  interleaved [] = []
  interleaved (c ∷ cs) = c.re ∷ (c.im ∷ interleaved cs)

  evens-interleaved : (iq : List (Complex F)) → evens (interleaved iq) ≡ map (λ c. c.re) iq
  evens-interleaved [] = refl
  evens-interleaved (c ∷ cs) = ap (λ t. c.re ∷ t) (evens-interleaved cs)

  odds-interleaved : (iq : List (Complex F)) → odds (interleaved iq) ≡ map (λ c. c.im) iq
  odds-interleaved [] = refl
  odds-interleaved (c ∷ cs) = ap (λ t. c.im ∷ t) (odds-interleaved cs)

  zip_parts :
      (iq : List (Complex F)) → zip_with iq_value (map (λ c. c.re) iq) (map (λ c. c.im) iq) ≡ iq
  zip_parts [] = refl
  zip_parts (c ∷ cs) = ap (λ t. c ∷ t) (zip_parts cs)

  pub combined_parts :
      (iq : List (Complex F)) → combined (map (λ c. c.re) iq) (map (λ c. c.im) iq) ≡ ok iq
  unfolding combined
  combined_parts [] = refl
  combined_parts (c ∷ []) = refl
  combined_parts (c ∷ (d ∷ cs)) =
      let n = length-map (λ (x : Complex F). x.re) cs in
      let m = length-map (λ (x : Complex F). x.im) cs in
      let test : (length (map (λ (x : Complex F). x.re) cs)
            == length (map (λ (x : Complex F). x.im) cs))
          ≡ true =
        ground (arith, n, m) in
      rw (test, zip_parts cs) refl

  -- Reading interleaved values gives back the samples that were interleaved, for every array.
  pub deinterleaved-interleaved : (iq : List (Complex F)) → deinterleaved (interleaved iq) ≡ ok iq
  deinterleaved-interleaved iq = rw (evens-interleaved iq, odds-interleaved iq) (combined_parts iq)

-- ===== src/Evaluation/Split/Chosen.antt =====
-- The samples of the split keep their labels and SNRs.
use analysis_app.Prelude.{
  ℕ, zero, suc, ◌<◌, ◌≡◌, refl, ap, ◌∙◌, inl, inr, Bool, true, some, List, [], ◌∷◌, length,
  length-map, map, min, All, In, here, there, Bool-cases, All-weaken, All-take, length-take,
}
use mathlib.Core.List.{map-map}
use analysis_app.Prelude.Results.{ok, ◌>>=◌, each, bind_ok}
use analysis_app.Features.Arrays.{index, filter}
use analysis_app.Features.Arrays.Shapes.{index-All}
use analysis_app.Float.{Float}
use analysis_app.Evaluation.{Channels}
use analysis_app.Evaluation.Masks.{masked, select}
use analysis_app.Evaluation.Split.{TestData, test_places, load_test_split}

module _ {A : Type 0} (p : A → Bool) where
  masked-map :
      {B : Type 0} (f : A → B) (ts : List A)
      → masked (map p ts) (map f ts) ≡ ok (map f (filter p ts))
  unfolding masked
  masked-map f [] = refl
  masked-map f (t ∷ ts) = elim (Bool-cases (p t)) [
    | inl e ↦ rw (e, masked-map f ts) refl
    | inr e ↦ rw (e, masked-map f ts) refl
  ]

  filter-All : (ts : List A) → All (λ t. In t ts × (p t ≡ true)) (filter p ts)
  filter-All [] = tt
  filter-All (t ∷ ts) =
      let later =
        All-weaken (λ u. In u ts × (p u ≡ true)) (λ u. In u (t ∷ ts) × (p u ≡ true)) (filter p ts)
          (λ u (m, e). (there m, e)) (filter-All ts) in
      elim (Bool-cases (p t)) [ inl e ↦ rw e ((here, e), later) | inr e ↦ rw e later ]

index-map :
    {A B : Type 0} (f : A → B) (us : List A) (i : ℕ) (a : A)
    → index us i ≡ ok a
    → index (map f us) i ≡ ok (f a)
index-map f [] i a h = cc
index-map f (u ∷ us) zero a h = let same : u ≡ a = cc in ap (λ b. ok (f b)) same
index-map f (u ∷ us) (suc i) a h = index-map f us i a h

select-map :
    {A B : Type 0} (f : A → B) (us : List A) (idx : List ℕ) (vs : List A)
    → select idx us ≡ ok vs
    → select idx (map f us) ≡ ok (map f vs)
unfolding select
select-map f us [] vs h = let none_of : [] ≡ vs = cc in ap (λ ws. ok (map f ws)) none_of
select-map f us (i ∷ idx) vs h =
    let (a, e, later) =
      bind_ok (index us i) (λ y. each (index us) idx >>= λ ys. ok (y ∷ ys)) vs h in
    let (ws, d, whole) = bind_ok (each (index us) idx) (λ ys. ok (a ∷ ys)) vs later in
    let same : (a ∷ ws) ≡ vs = cc in
    rw (index-map f us i a e, select-map f us idx ws d) (ap (λ zs. ok (map f zs)) same)

select_lem :
    {A : Type 0} (P : A → Type 0) (us : List A) (idx : List ℕ)
    → All (λ i. i < length us) idx
    → All P us
    → (vs : List A) × (select idx us ≡ ok vs) × All P vs × (length vs ≡ length idx)
unfolding select
select_lem P us [] h ps = ([], refl, tt, refl)
select_lem P us (i ∷ idx) (h, hs) ps =
    let (a, e, q) = index-All P us i h ps in
    let (vs, d, qs, n) = select_lem P us idx hs ps in (a ∷ vs, rw (e, d) refl, (q, qs), ap suc n)

-- A sample with its label and its SNR.
abbrev pub Row : Type 0 → Type 0
Row F = Channels F × (ℕ × F)

abbrev pub loud : {F : Type 0} ⦃fl : Float F⦄ → F → List (Row F) → List (Row F)
loud ⦃fl⦄ snr_min ts = filter (λ t. fl.le snr_min t.1.1) ts

module _ {F : Type 0} ⦃fl : Float F⦄ (floor : F → ℕ) (permutation : ℕ → List ℕ)
    (length-permutation : (n : ℕ) → length (permutation n) ≡ n)
    (permutation_below : (n : ℕ) → All (λ i. i < n) (permutation n)) where
  -- For a permutation of the numbers below the one asked for, and a data set whose arrays are the columns
  -- of rows of a sample, its label and its SNR: the split is loaded. Its arrays are the columns of rows,
  -- which are those at the first places of the permutation among the rows whose SNR is not below the
  -- minimum, so that each sample keeps its label and its SNR; and there are as many as the fraction says,
  -- rounded down, or all.
  pub load_test_split_lem :
      (d : TestData F) (snr_min test_fraction : F) (ts : List (Row F))
      → d.x ≡ map (λ t. t.0) ts
      → d.y ≡ map (λ t. t.1.0) ts
      → d.snrs ≡ some (map (λ t. t.1.1) ts)
      → (us : List (Row F)) × (select
            (test_places floor permutation (length (loud snr_min ts)) test_fraction)
            (loud snr_min ts)
          ≡ ok us)
        × All (λ u. In u ts × (fl.le snr_min u.1.1 ≡ true)) us
        × (length us
            ≡ min
                (floor (fl.mul (fl.lit (length (loud snr_min ts)) 0) test_fraction))
                (length (loud snr_min ts)))
        × (load_test_split floor permutation d snr_min test_fraction
            ≡ ok (record {
              x = map (λ u. u.0) us;
              y = map (λ u. u.1.0) us;
              classes = d.classes;
              snrs = map (λ u. u.1.1) us;
            }))
  unfolding load_test_split
  load_test_split_lem d snr_min test_fraction ts of_x of_y of_snrs =
      let kept = loud snr_min ts in
      let p : Row F → Bool = λ t. fl.le snr_min t.1.1 in
      let idx = test_places floor permutation (length kept) test_fraction in
      let whole = length-permutation (length kept) in
      let below =
        All-take (λ i. i < length kept)
          (floor (fl.mul (fl.lit (length (permutation (length kept))) 0) test_fraction))
          (permutation (length kept)) (permutation_below (length kept)) in
      let (us, e, each_of, n) =
        select_lem (λ u. In u ts × (fl.le snr_min u.1.1 ≡ true)) kept idx below (filter-All p ts) in
      let mask = map-map (λ s. fl.le snr_min s) (λ (t : Row F). t.1.1) ts in
      (
        us,
        e,
        each_of,
        n ∙ length-take _ (permutation (length kept)) ∙ rw whole refl,
        rw
            (
              of_x,
              of_y,
              of_snrs,
              mask,
              masked-map p (λ t. t.0) ts,
              masked-map p (λ t. t.1.0) ts,
              masked-map p (λ t. t.1.1) ts,
              length-map (λ (t : Row F). t.0) kept,
              select-map (λ (u : Row F). u.0) kept idx us e,
              select-map (λ (u : Row F). u.1.0) kept idx us e,
              select-map (λ (u : Row F). u.1.1) kept idx us e,
            )
            refl,
      )

-- ===== src/Evaluation/Averaged/Batchless.antt =====
-- The sums of probabilities do not depend on the batches.
use native.Mathlib.Nat.{lt-div-mul-add}
use analysis_app.Prelude.{
  ℕ, zero, suc, ◌+◌, ◌-◌, ◌*◌, ◌/◌, ◌≤◌, ◌<◌, ◌≡◌, refl, ap, ◌∙◌, sym, Bool, true, false, ◌&&◌,
  ◌==◌, List, [], ◌∷◌, ◌++◌, length, length-map, take, drop, map, All, append-nil, arith,
}
use analysis_app.Prelude.Results.{Result, ok, each}
use analysis_app.Features.Arrays.{slice, range_from, zip_with}
use analysis_app.Features.Arrays.Shapes.{length-zip_with}
use analysis_app.Features.Arrays.Chunks.{take_more}
use analysis_app.Float.{Float}
use analysis_app.Numpy.{Numpy}
use analysis_app.Evaluation.{Channels, batch_starts, softmax}
use analysis_app.Evaluation.Averaged.{Sums, sum_batch, sum_batches, sum_pass}
use analysis_app.Evaluation.Averaged.Spliced.{HasWidth, add_at_lem, map-take, map-drop}

and_false : (a b : Bool) → b ≡ false → (a && b) ≡ false
and_false true b h = h
and_false false b h = refl

drop_all : {A : Type 0} (n : ℕ) (xs : List A) → length xs ≤ n → drop n xs ≡ []
drop_all zero [] h = refl
drop_all zero (x ∷ xs) h = absurd (omega (arith, h))
drop_all (suc n) [] h = refl
drop_all (suc n) (x ∷ xs) h = drop_all n xs (omega (arith, h))

module _ {F : Type 0} ⦃fl : Float F⦄ ⦃np : Numpy F⦄ where
  -- A session that scores each sample by itself.
  abbrev pub rowwise : (Channels F → List F) → List (Channels F) → Result (List (List F))
  rowwise scores batch = ok (map scores batch)

  -- The softmax of scores, of which there are some.
  abbrev pub soft : List F → List F
  soft ls =
      let es = map (λ x. fl.exp (fl.sub x (np.max ls))) ls in map (λ e. fl.div e (np.sum es)) es

  length-soft : (ls : List F) → length (soft ls) ≡ length ls
  length-soft ls =
      length-map _ (map (λ x. fl.exp (fl.sub x (np.max ls))) ls)
      ∙ length-map (λ x. fl.exp (fl.sub x (np.max ls))) ls

  softmax_some : (ls : List F) → 0 < length ls → softmax ls ≡ ok (soft ls)
  unfolding softmax
  softmax_some [] h = absurd (omega (arith, h))
  softmax_some (l ∷ ls) h = refl

  -- The sums with the probabilities of each sample.
  abbrev pub added : (Channels F → List F) → List (Channels F) → List (List F) → List (List F)
  added scores xs rows = zip_with (zip_with fl.add) rows (map (λ x. soft (scores x)) xs)

  module _ (width : ℕ) (wide : 1 < width) (scores : Channels F → List F)
      (scored : (x : Channels F) → length (scores x) ≡ width) where
    each-softmax :
        (xs : List (Channels F)) → each softmax (map scores xs) ≡ ok (map (λ x. soft (scores x)) xs)
    each-softmax [] = refl
    each-softmax (x ∷ xs) =
        rw (softmax_some (scores x) (omega (arith, scored x, wide)), each-softmax xs) refl

    all_wide : (xs : List (Channels F)) → All (HasWidth width) (map (λ x. soft (scores x)) xs)
    all_wide [] = tt
    all_wide (x ∷ xs) = (length-soft (scores x) ∙ scored x, all_wide xs)

    pub added-HasWidth :
        (xs : List (Channels F)) (rows : List (List F))
        → All (HasWidth width) rows
        → length rows ≡ length xs
        → All (HasWidth width) (added scores xs rows) × (length (added scores xs rows) ≡ length xs)
    added-HasWidth [] [] h n = (tt, refl)
    added-HasWidth [] (r ∷ rows) h n = absurd (omega (arith, n))
    added-HasWidth (x ∷ xs) [] h n = absurd (omega (arith, n))
    added-HasWidth (x ∷ xs) (r ∷ rows) (h, hs) n =
        let (rest, m) = added-HasWidth xs rows hs (omega (arith, n)) in
        let one = length-zip_with fl.add r (soft (scores x)) in
        ((omega (arith, one, h, length-soft (scores x), scored x), rest), ap suc m)

    module _ (again : Bool) (xs : List (Channels F)) (rows : List (List F))
        (alike : All (HasWidth width) rows) (n : length rows ≡ length xs) where
      -- The sums of the first places done, those of the others to do.
      abbrev done : Bool → ℕ → Sums F
      done f i = record {
        fresh = f;
        width = width;
        rows = take i (added scores xs rows) ++ drop i rows;
      }

      sum_batch_lem :
          (f : Bool) (i : ℕ)
          → sum_batch again (rowwise scores) xs i (done f i) ≡ ok (done again (i + 512))
      unfolding sum_batch
      sum_batch_lem f i =
          let narrow : (f && width == 1) ≡ false =
            and_false f (width == 1) (ground (arith, wide)) in
          let ps = map (λ x. soft (scores x)) xs in
          let here =
            map-take (λ x. soft (scores x)) (i + 512 - i) (drop i xs)
            ∙ ap (take (i + 512 - i)) (map-drop (λ x. soft (scores x)) i xs) in
          let summed =
            add_at_lem width i rows ps alike (all_wide xs)
              (n ∙ sym (length-map (λ x. soft (scores x)) xs)) in
          rw (each-softmax (slice i (i + 512) xs), here, narrow, summed) refl

      sum_batches_lem :
          (f : Bool) (a m : ℕ)
          → (g : Bool) × (sum_batches again
                (rowwise scores)
                xs
                (map (λ k. k * 512) (range_from a m))
                (done f (a * 512))
              ≡ ok (done g ((a + m) * 512)))
      unfolding sum_batches
      sum_batches_lem f a zero = let same : a + 0 ≡ a = omega arith in (f, rw same refl)
      sum_batches_lem f a (suc m) =
          let next : a * 512 + 512 ≡ suc a * 512 = omega arith in
          let last : a + suc m ≡ suc a + m = omega arith in
          let (g, e) = sum_batches_lem again (suc a) m in
          (g, rw (sum_batch_lem f (a * 512), next, last) e)

      pub sum_pass_lem :
          (f : Bool)
          → (g : Bool) × (sum_pass again
                (rowwise scores)
                xs
                (record { fresh = f; width = width; rows = rows })
              ≡ ok (record { fresh = g; width = width; rows = added scores xs rows }))
      unfolding sum_pass batch_starts
      sum_pass_lem f =
          let count : ℕ = (length xs + 511) / 512 in
          let (g, e) = sum_batches_lem f 0 count in
          let (wide_rows, m) = added-HasWidth xs rows alike n in
          let enough : length xs ≤ (0 + count) * 512 =
            omega (arith, lt-div-mul-add {a = length xs + 511} {b = 512} (omega arith)) in
          let rest = drop_all ((0 + count) * 512) rows (omega (arith, n, enough)) in
          let all_of =
            take_more ((0 + count) * 512) (added scores xs rows) (omega (arith, m, enough)) in
          (g, e ∙ rw (all_of, rest, append-nil (added scores xs rows)) refl)

-- ===== src/Evaluation/Averaged/Spliced.antt =====
-- A list of sums, of which the first are done.
use analysis_app.Prelude.{
  ℕ, zero, suc, ◌+◌, ◌-◌, ◌≡◌, refl, ap, ◌∙◌, sym, true, ◌==◌, List, [], ◌∷◌, ◌++◌, length,
  length-take, length-drop, All-take, take, drop, map, All, append_assoc, arith,
}
use analysis_app.Prelude.Results.{ok}
use analysis_app.Features.Arrays.{slice, zip_with}
use analysis_app.Features.Arrays.Shapes.{length-zip_with}
use analysis_app.Features.Arrays.Chunks.{drop-drop, take-take-drop}
use analysis_app.Float.{Float}
use analysis_app.Evaluation.Averaged.{add_rows, add_at}

module _ {A : Type 0} where
  take-splice :
      (i : ℕ) (gs rs : List A) → length gs ≡ length rs → take i (take i gs ++ drop i rs) ≡ take i gs
  take-splice zero gs rs h = refl
  take-splice (suc i) [] [] h = refl
  take-splice (suc i) [] (r ∷ rs) h = absurd (omega (arith, h))
  take-splice (suc i) (g ∷ gs) [] h = absurd (omega (arith, h))
  take-splice (suc i) (g ∷ gs) (r ∷ rs) h = ap (λ t. g ∷ t) (take-splice i gs rs (omega (arith, h)))

  drop-splice :
      (i : ℕ) (gs rs : List A) → length gs ≡ length rs → drop i (take i gs ++ drop i rs) ≡ drop i rs
  drop-splice zero gs rs h = refl
  drop-splice (suc i) [] [] h = refl
  drop-splice (suc i) [] (r ∷ rs) h = absurd (omega (arith, h))
  drop-splice (suc i) (g ∷ gs) [] h = absurd (omega (arith, h))
  drop-splice (suc i) (g ∷ gs) (r ∷ rs) h = drop-splice i gs rs (omega (arith, h))

take-zip_with :
    {A B C : Type 0} (f : A → B → C) (n : ℕ) (xs : List A) (ys : List B)
    → length xs ≡ length ys
    → take n (zip_with f xs ys) ≡ zip_with f (take n xs) (take n ys)
take-zip_with f zero xs ys h = refl
take-zip_with f (suc n) [] ys h = refl
take-zip_with f (suc n) (x ∷ xs) [] h = refl
take-zip_with f (suc n) (x ∷ xs) (y ∷ ys) h =
    ap (λ t. f x y ∷ t) (take-zip_with f n xs ys (omega (arith, h)))

drop-zip_with :
    {A B C : Type 0} (f : A → B → C) (n : ℕ) (xs : List A) (ys : List B)
    → length xs ≡ length ys
    → drop n (zip_with f xs ys) ≡ zip_with f (drop n xs) (drop n ys)
drop-zip_with f zero xs ys h = refl
drop-zip_with f (suc n) [] [] h = refl
drop-zip_with f (suc n) [] (y ∷ ys) h = absurd (omega (arith, h))
drop-zip_with f (suc n) (x ∷ xs) [] h = absurd (omega (arith, h))
drop-zip_with f (suc n) (x ∷ xs) (y ∷ ys) h = drop-zip_with f n xs ys (omega (arith, h))

pub map-take :
    {A B : Type 0} (f : A → B) (n : ℕ) (xs : List A) → map f (take n xs) ≡ take n (map f xs)
map-take f zero xs = refl
map-take f (suc n) [] = refl
map-take f (suc n) (x ∷ xs) = ap (λ t. f x ∷ t) (map-take f n xs)

pub map-drop :
    {A B : Type 0} (f : A → B) (n : ℕ) (xs : List A) → map f (drop n xs) ≡ drop n (map f xs)
map-drop f zero xs = refl
map-drop f (suc n) [] = refl
map-drop f (suc n) (x ∷ xs) = map-drop f n xs

All-drop : {A : Type 0} (P : A → Type 0) (n : ℕ) (xs : List A) → All P xs → All P (drop n xs)
All-drop P zero xs h = h
All-drop P (suc n) [] h = tt
All-drop P (suc n) (x ∷ xs) (h, hs) = All-drop P n xs hs

module _ {F : Type 0} ⦃fl : Float F⦄ where
  abbrev pub HasWidth : ℕ → List F → Type 0
  HasWidth width row = length row ≡ width

  add_rows_lem :
      (width : ℕ) (avg probs : List (List F))
      → All (HasWidth width) avg
      → All (HasWidth width) probs
      → length avg ≡ length probs
      → add_rows avg probs ≡ ok (zip_with (zip_with fl.add) avg probs)
  unfolding add_rows
  add_rows_lem width [] [] h g n = refl
  add_rows_lem width [] (r ∷ probs) h g n = absurd (omega (arith, n))
  add_rows_lem width (a ∷ avg) [] h g n = absurd (omega (arith, n))
  add_rows_lem width (a ∷ avg) (r ∷ probs) (h, hs) (g, gs) n =
      let same : (length a == length r) ≡ true = ground (arith, h, g) in
      rw (add_rows_lem width avg probs hs gs (omega (arith, n)), same) refl

  -- The rows of a batch, where those before it are done: then those up to its end are done.
  pub add_at_lem :
      (width i : ℕ) (avg probs : List (List F))
      → All (HasWidth width) avg
      → All (HasWidth width) probs
      → length avg ≡ length probs
      → add_at i
          (slice i (i + 512) probs)
          (take i (zip_with (zip_with fl.add) avg probs) ++ drop i avg)
        ≡ ok (take (i + 512) (zip_with (zip_with fl.add) avg probs) ++ drop (i + 512) avg)
  unfolding add_at
  add_at_lem width i avg probs h g n =
      let sums = zip_with (zip_with fl.add) avg probs in
      let whole : length sums ≡ length avg =
        length-zip_with (zip_with fl.add) avg probs ∙ omega (arith, n) in
      let size : i + 512 - i ≡ 512 = omega arith in
      let spliced = take i sums ++ drop i avg in
      let from_here : drop i spliced ≡ drop i avg = drop-splice i sums avg whole in
      let later : drop (i + 512) spliced ≡ drop (i + 512) avg =
        sym (drop-drop i 512 spliced) ∙ ap (drop 512) from_here ∙ drop-drop i 512 avg in
      let sized : length (drop i avg) ≡ length (drop i probs) =
        omega (arith, n, length-drop i avg, length-drop i probs) in
      let cut : length (take 512 (drop i avg)) ≡ length (take 512 (drop i probs)) =
        omega (arith, sized, length-take 512 (drop i avg), length-take 512 (drop i probs)) in
      let added =
        add_rows_lem width (take 512 (drop i avg)) (take 512 (drop i probs))
          (All-take (HasWidth width) 512 (drop i avg) (All-drop (HasWidth width) i avg h))
          (All-take (HasWidth width) 512 (drop i probs) (All-drop (HasWidth width) i probs g))
          cut in
      let of_batch : zip_with (zip_with fl.add) (take 512 (drop i avg)) (take 512 (drop i probs))
          ≡ take 512 (drop i sums) =
        sym (
          ap (take 512) (drop-zip_with (zip_with fl.add) i avg probs n)
          ∙ take-zip_with (zip_with fl.add) 512 (drop i avg) (drop i probs) sized) in
      rw (size, from_here, added, of_batch, take-splice i sums avg whole, later)
        (ap ok (
          sym (append_assoc (take i sums) (take 512 (drop i sums)) (drop (i + 512) avg))
          ∙ ap (λ t. t ++ drop (i + 512) avg) (take-take-drop i 512 sums)))

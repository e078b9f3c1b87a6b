-- ===== src/Features/Arrays/Chunks.antt =====
-- A list cut at every so many elements, and put together again.
use analysis_app.Prelude.{
  ℕ, zero, suc, ◌+◌, ◌-◌, ◌*◌, ◌≤◌, ◌≡◌, refl, ap, ◌∙◌, sym, List, [], ◌∷◌, ◌++◌, length, take,
  drop, map, replicate, length-append, length-replicate, arith,
}
use analysis_app.Features.Arrays.{slice, range_from}

-- np.concatenate of a list of arrays that is not empty
abbrev pub concat_all {ℓ} : {A : Type ℓ} → List (List A) → List A
concat_all [] = []
concat_all (xs ∷ xss) = xs ++ concat_all xss

module _ {A : Type 0} where
  pub take-take-drop : (n k : ℕ) (xs : List A) → take n xs ++ take k (drop n xs) ≡ take (n + k) xs
  take-take-drop zero k xs = ap (λ m. take m xs) (omega arith)
  take-take-drop (suc n) zero [] = let e : suc n + zero ≡ suc n = omega arith in rw e
  take-take-drop (suc n) (suc k) [] = let e : suc n + suc k ≡ suc (n + suc k) = omega arith in rw e
  take-take-drop (suc n) k (x ∷ xs) =
      let e : suc n + k ≡ suc (n + k) = omega arith in
      rw e (ap (λ t. x ∷ t) (take-take-drop n k xs))

  pub drop-drop : (n k : ℕ) (xs : List A) → drop k (drop n xs) ≡ drop (n + k) xs
  drop-drop zero k xs = ap (λ m. drop m xs) (omega arith)
  drop-drop (suc n) zero [] = let e : suc n + zero ≡ suc n = omega arith in rw e
  drop-drop (suc n) (suc k) [] = let e : suc n + suc k ≡ suc (n + suc k) = omega arith in rw e
  drop-drop (suc n) k (x ∷ xs) =
      let e : suc n + k ≡ suc (n + k) = omega arith in rw e (drop-drop n k xs)

  -- The i-th chunk of a length.
  abbrev pub chunk_of : ℕ → List A → ℕ → List A
  chunk_of len xs i = slice (i * len) (i * len + len) xs

  pub concat-chunks :
      (len : ℕ) (xs : List A) (a n : ℕ)
      → concat_all (map (chunk_of len xs) (range_from a n)) ≡ take (n * len) (drop (a * len) xs)
  concat-chunks len xs a zero = let e : 0 * len ≡ 0 = omega arith in rw e
  concat-chunks len xs a (suc n) =
      let one : a * len + len - a * len ≡ len = omega arith in
      let next : (suc a) * len ≡ a * len + len = omega arith in
      let all_of : suc n * len ≡ len + n * len = omega arith in
      ap (λ c. chunk_of len xs a ++ c) (concat-chunks len xs (suc a) n)
      ∙ rw (one, next, all_of)
          (ap (λ c. take len (drop (a * len) xs) ++ take (n * len) c)
              (sym (drop-drop (a * len) len xs))
            ∙ take-take-drop len (n * len) (drop (a * len) xs))

  pub take_more : (n : ℕ) (xs : List A) → length xs ≤ n → take n xs ≡ xs
  take_more zero [] h = refl
  take_more zero (x ∷ xs) h = absurd (omega (arith, h))
  take_more (suc n) [] h = refl
  take_more (suc n) (x ∷ xs) h = ap (λ t. x ∷ t) (take_more n xs (omega (arith, h)))

-- np.repeat(xs, sps)
abbrev pub repeated : {A : Type 0} → ℕ → List A → List A
repeated sps xs = concat_all (map (replicate sps) xs)

pub length-repeated :
    {A : Type 0} (sps : ℕ) (xs : List A) → length (repeated sps xs) ≡ length xs * sps
length-repeated sps [] = omega arith
length-repeated sps (x ∷ xs) =
    let each_of : length (repeated sps (x ∷ xs))
        ≡ length (replicate sps x) + length (repeated sps xs) =
      length-append (replicate sps x) (repeated sps xs) in
    let next : suc (length xs) * sps ≡ sps + length xs * sps = omega arith in
    omega (arith, each_of, next, length-replicate sps x, length-repeated sps xs)

pub length-tiled :
    {A : Type 0} (m : ℕ) (xs : List A) → length (concat_all (replicate m xs)) ≡ m * length xs
length-tiled zero xs = omega arith
length-tiled (suc m) xs =
    let next : suc m * length xs ≡ length xs + m * length xs = omega arith in
    omega (arith, next, length-append xs (concat_all (replicate m xs)), length-tiled m xs)

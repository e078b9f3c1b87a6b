-- ===== src/Features/Arrays/Shapes.antt =====
-- The lengths of slices, and indices that are in range.
use analysis_app.Prelude.{
  ℕ, zero, suc, ◌+◌, ◌-◌, ◌≤◌, ◌<◌, min, ◌≡◌, refl, ap, ◌∙◌, map, length-map, Bool, List, [], ◌∷◌,
  length, drop, length-take, length-drop, arith, if-each, All, All-weaken,
}
use analysis_app.Prelude.Results.{ok, Returns, each}
use analysis_app.Float.{Float}
use analysis_app.Features.Arrays.{
  slice, index, where_from, last_of, zip_with, range_from, range, arange, clear_first,
}

pub Returns-index : {A : Type 0} (xs : List A) (i : ℕ) → i < length xs → Returns (index xs i)
Returns-index [] i h = absurd (omega (arith, h))
Returns-index (x ∷ xs) zero h = (x, refl)
Returns-index (x ∷ xs) (suc i) h = Returns-index xs i (omega (arith, h))

-- An index in range, of a list whose elements all have a property.
pub index-All :
    {A : Type 0} (P : A → Type 0) (xs : List A) (i : ℕ)
    → i < length xs
    → All P xs
    → (a : A) × (index xs i ≡ ok a) × P a
index-All P [] i h ps = absurd (omega (arith, h))
index-All P (x ∷ xs) zero h (p, ps) = (x, refl, p)
index-All P (x ∷ xs) (suc i) h (p, ps) = index-All P xs i (omega (arith, h)) ps

-- As many elements as places, each of them in range.
pub each-index :
    {A : Type 0} (xs : List A) (is : List ℕ)
    → All (λ i. i < length xs) is
    → (ys : List A) × (each (index xs) is ≡ ok ys) × (length ys ≡ length is)
each-index xs [] h = ([], refl, refl)
each-index xs (i ∷ is) (h, hs) =
    let (y, e) = Returns-index xs i h in
    let (ys, d, n) = each-index xs is hs in (y ∷ ys, rw (e, d) refl, ap suc n)

pub length-slice :
    {A : Type 0} (a b : ℕ) (xs : List A) → b ≤ length xs → length (slice a b xs) ≡ b - a
length-slice a b xs h = omega (arith, length-take (b - a) (drop a xs), length-drop a xs, h)

-- The positions that `where_from` finds are positions of the list.
pub where_from-below :
    {A : Type 0} (p : A → Bool) (i : ℕ) (xs : List A)
    → All (λ j. j < i + length xs) (where_from p i xs)
where_from-below p i [] = tt
where_from-below p i (x ∷ xs) =
    let rest =
      All-weaken (λ j. j < suc i + length xs) (λ j. j < i + length (x ∷ xs))
        (where_from p (suc i) xs) (λ j h. omega (arith, h)) (where_from-below p (suc i) xs) in
    if-each (All (λ j. j < i + length (x ∷ xs))) (p x) (λ e. (omega arith, rest)) (λ e. rest)

pub All-last_of :
    {A : Type 0} (P : A → Type 0) (x : A) (xs : List A) → P x → All P xs → P (last_of x xs)
All-last_of P x [] h hs = h
All-last_of P x (y ∷ ys) h (k, ks) = All-last_of P y ys k ks

pub length-zip_with :
    {A B C : Type 0} (f : A → B → C) (xs : List A) (ys : List B)
    → length (zip_with f xs ys) ≡ min (length xs) (length ys)
length-zip_with f [] ys = omega arith
length-zip_with f (x ∷ xs) [] = omega arith
length-zip_with f (x ∷ xs) (y ∷ ys) = omega (arith, length-zip_with f xs ys)

pub length-range_from : (a n : ℕ) → length (range_from a n) ≡ n
length-range_from a zero = refl
length-range_from a (suc n) = ap suc (length-range_from (suc a) n)

pub length-map-arange :
    {F A : Type 0} ⦃fl : Float F⦄ (f : F → A) (n : ℕ) → length (map f (arange n)) ≡ n
length-map-arange ⦃fl = fl⦄ f n =
    length-map f (arange n) ∙ length-map (λ i. fl.lit i 0) (range n) ∙ length-range_from 0 n

-- Clearing the first element of an array that is not empty.
pub Returns-clear_first :
    {F : Type 0} ⦃fl : Float F⦄ (xs : List F)
    → 0 < length xs
    → (ys : List F) × (clear_first xs ≡ ok ys) × (length ys ≡ length xs)
Returns-clear_first [] h = absurd (omega (arith, h))
Returns-clear_first (x ∷ xs) h = (_, refl, refl)

pub range_from-below : (a n : ℕ) → All (λ i. i < a + n) (range_from a n)
range_from-below a zero = tt
range_from-below a (suc n) = (
  omega arith,
  All-weaken (λ i. i < suc a + n) (λ i. i < a + suc n) (range_from (suc a) n)
      (λ i h. omega (arith, h)) (range_from-below (suc a) n),
)

pub slice_empty : {A : Type 0} (a b : ℕ) (xs : List A) → b ≤ a → slice a b xs ≡ []
slice_empty a b xs h = let none : b - a ≡ 0 = omega (arith, h) in rw none

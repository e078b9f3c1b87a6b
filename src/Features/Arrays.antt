-- ===== src/Features/Arrays.antt =====
-- Slices, indices and elementwise operations, as the source writes them on arrays.
pub mod Shapes
pub mod Chunks
use analysis_app.Prelude.{
  ℕ, zero, suc, ◌+◌, ◌-◌, ◌*◌, ◌/◌, Bool, true, false, List, [], ◌∷◌, ◌++◌, length, take, drop,
  if◌then◌else◌, map,
}
use analysis_app.Prelude.Results.{Result, ok, raised}
use analysis_app.Float.{Float}
use analysis_app.Numpy.{Complex, Numpy}

module _ {ℓ} {A : Type ℓ} where
  -- xs[a:b] for a <= b
  abbrev pub slice : ℕ → ℕ → List A → List A
  slice a b xs = take (b - a) (drop a xs)

  -- xs[:-1]
  abbrev pub but_last : List A → List A
  but_last xs = take (length xs - 1) xs

  -- xs[i], for i >= 0
  abbrev pub index : List A → ℕ → Result A
  index [] i = raised "index is out of bounds"
  index (x ∷ xs) zero = ok x
  index (x ∷ xs) (suc i) = index xs i

  abbrev pub reverse_onto : List A → List A → List A
  reverse_onto [] ys = ys
  reverse_onto (x ∷ xs) ys = reverse_onto xs (x ∷ ys)

  -- xs[::-1]
  abbrev pub reverse : List A → List A
  reverse xs = reverse_onto xs []

  -- xs[mask], the mask a test on the elements
  abbrev pub filter : (A → Bool) → List A → List A
  filter p [] = []
  filter p (x ∷ xs) = let rest = filter p xs in if p x then x ∷ rest else rest

  -- np.where(mask)[0], from position i on
  abbrev pub where_from : (A → Bool) → ℕ → List A → List ℕ
  where_from p i [] = []
  where_from p i (x ∷ xs) = let rest = where_from p (suc i) xs in if p x then i ∷ rest else rest

  -- the last element, [-1], of a list that begins with the given one
  abbrev pub last_of : A → List A → A
  last_of x [] = x
  last_of x (y ∷ ys) = last_of y ys

abbrev pub zip_with {ℓ κ μ} :
    {A : Type ℓ} {B : Type κ} {C : Type μ} → (A → B → C) → List A → List B → List C
zip_with f [] ys = []
zip_with f (x ∷ xs) [] = []
zip_with f (x ∷ xs) (y ∷ ys) = f x y ∷ zip_with f xs ys

-- range(a, a + n)
abbrev pub range_from : ℕ → ℕ → List ℕ
range_from a zero = []
range_from a (suc n) = a ∷ range_from (suc a) n

abbrev pub range : ℕ → List ℕ
range n = range_from 0 n

module _ {F : Type 0} ⦃fl : Float F⦄ where
  open fl use {lit, div}

  -- np.arange(n)
  abbrev pub arange : ℕ → List F
  arange n = map (λ i. lit i 0) (range n)

  abbrev pub of_real : F → Complex F
  of_real x = record { re = x; im = lit 0 0 }

  -- xs[0] = 0
  abbrev pub clear_first : List F → Result (List F)
  clear_first [] = raised "index 0 is out of bounds"
  clear_first (x ∷ xs) = ok (lit 0 0 ∷ xs)

  -- d=1.0/sr, by which fftfreq then divides: both divisions are those of Python's own floats, and 1.0/sr
  -- is 0.0 where the sample rate is infinite
  abbrev pub reciprocal : F → Result F
  reciprocal sr =
      if fl.eq sr (lit 0 0)
      then raised "float division by zero"
      else if fl.eq (div (lit 10 1) sr) (lit 0 0)
      then raised "float division by zero"
      else ok (div (lit 10 1) sr)

-- ===== src/Numpy/Fixed.antt =====
-- A concrete `Numpy` on which the examples run, over the signed millionths: crude functions of the
-- right shape, and its laws.
use analysis_app.Prelude.{
  ℕ, zero, suc, ◌+◌, ◌≡◌, refl, ◌<◌, List, [], ◌∷◌, length, replicate, length-replicate, map, any,
  if◌then◌else◌, arith,
}
use analysis_app.Prelude.Int.{ℤ, pos, pos_part, neg_part, quot, ◌+ℤ◌, ◌-ℤ◌, ltb_ℤ}
use analysis_app.Prelude.Results.{Result, ok, raised}
use analysis_app.Features.Arrays.{range}
use analysis_app.Numpy.{Complex, Numpy, IsShaped}
use analysis_app.Float.Fixed.{fixed_float, lit_ℤ}

abbrev total : List ℤ → ℤ
total [] = pos 0
total (x ∷ xs) = x +ℤ total xs

abbrev mean_of : List ℤ → ℤ
mean_of [] = pos 0
mean_of (x ∷ xs) = quot (total (x ∷ xs)) (length (x ∷ xs))

abbrev greatest : List ℤ → ℤ
greatest [] = pos 0
greatest (x ∷ xs) = let rest = greatest xs in if ltb_ℤ x rest then rest else x

abbrev first_index : List ℤ → Result ℕ
first_index [] = raised "attempt to get argmax of an empty sequence"
first_index (x ∷ xs) = ok 0

abbrev welch_of : List (Complex ℤ) → ℤ → ℕ → Result (List ℤ × List ℤ)
welch_of xs fs zero = raised "nperseg must be a positive integer"
welch_of xs fs (suc n) = ok (replicate (suc n) fs, replicate (suc n) (lit_ℤ 1 0))

-- a value at the last of its places
abbrev different : List ℤ → List ℤ
different [] = []
different (x ∷ xs) =
    let rest = different xs in if any (λ y. fixed_float.eq x y) xs then rest else x ∷ rest

instance abbrev pub fixed_numpy : Numpy ℤ
fixed_numpy = record {
  pi = lit_ℤ 314159 5;
  log = λ x. x;
  clip = λ x lo hi. if ltb_ℤ x lo then lo else if ltb_ℤ hi x then hi else x;
  maximum = λ x y. if ltb_ℤ x y then y else x;
  abs = λ c. pos (pos_part c.re + neg_part c.re + pos_part c.im + neg_part c.im);
  angle = λ c. c.im;
  conj = λ c. record { re = c.re; im = pos 0 -ℤ c.im };
  over = λ c x. record { re = fixed_float.div c.re x; im = fixed_float.div c.im x };
  scale = λ x c. record { re = fixed_float.mul x c.re; im = fixed_float.mul x c.im };
  times = λ c d. record { re = fixed_float.mul c.re d.re; im = fixed_float.mul c.im d.im };
  plus = λ c d. record { re = c.re +ℤ d.re; im = c.im +ℤ d.im };
  minus = λ c d. record { re = c.re -ℤ d.re; im = c.im -ℤ d.im };
  power = λ c n. c;
  cis = λ x. record { re = lit_ℤ 1 0; im = x };
  mean = mean_of;
  mean_complex =
      λ cs. record { re = mean_of (map (λ c. c.re) cs); im = mean_of (map (λ c. c.im) cs) };
  std = λ xs. pos 0;
  var = λ xs. pos 0;
  sum = total;
  max = greatest;
  min = greatest;
  median = mean_of;
  percentile = λ xs q. greatest xs;
  argmax = first_index;
  sort = λ xs. xs;
  argsort = λ xs. range (length xs);
  unique = different;
  unwrap = λ xs. xs;
  cumsum = λ xs. xs;
  fft = λ xs. xs;
  fftfreq = λ n d. replicate n d;
  fftshift = λ xs. xs;
  welch = welch_of;
  correlate_full = λ xs ys. xs;
  find_peaks = λ xs h d. [];
  polyfit_line = λ t y. ok (pos 0, pos 0);
  polyval_line = λ c t. t;
}

first_index_some :
    (xs : List ℤ) → 0 < length xs → (i : ℕ) × (first_index xs ≡ ok i) × (i < length xs)
first_index_some [] h = absurd (omega (arith, h))
first_index_some (x ∷ xs) h = (0, refl, h)

welch_of_some :
    (xs : List (Complex ℤ)) (fs : ℤ) (n : ℕ)
    → 0 < n
    → (p : List ℤ × List ℤ) × (welch_of xs fs n ≡ ok p) × (length p.0 ≡ n) × (length p.1 ≡ n)
welch_of_some xs fs zero h = absurd (omega (arith, h))
welch_of_some xs fs (suc n) h =
    (_, refl, length-replicate (suc n) fs, length-replicate (suc n) (lit_ℤ 1 0))

pub fixed-IsShaped : IsShaped ℤ
fixed-IsShaped = record {
  length-sort = λ xs. refl;
  length-cumsum = λ xs. refl;
  length-fft = λ xs. refl;
  length-fftfreq = λ n d. length-replicate n d;
  length-fftshift = λ xs. refl;
  argmax_some = first_index_some;
  argmax_none = (_, refl);
  welch_some = λ xs fs n h k. welch_of_some xs fs n h;
}

-- ===== src/Float/Arithmetic.antt =====
-- What IEEE 754 says of the arithmetic, as far as the scoring of protocols relies on it: the
-- operations are monotone on numbers that are not negative, and exact on small integers and halves. The
-- bounds keep every value but the arguments finite, and every factor from being rounded to 0.
use analysis_app.Prelude.{ℕ, ◌+◌, ◌-◌, ◌*◌, ◌^◌, ◌≤◌, ◌<◌, ◌≡◌, true}
use analysis_app.Float.Laws.{Float}

abbrev pub Nonneg : {F : Type 0} ⦃fl : Float F⦄ → F → Type 0
Nonneg ⦃fl⦄ x = fl.le (fl.lit 0 0) x ≡ true

pub record IsArithmetic (F : Type 0) ⦃fl : Float F⦄ : Type 0 where
  pub add_nonneg : (a b : F) → Nonneg a → Nonneg b → Nonneg (fl.add a b)
  pub add_mono :
      (a b c d : F)
      → Nonneg a
      → Nonneg c
      → fl.le a b ≡ true
      → fl.le c d ≡ true
      → fl.le (fl.add a c) (fl.add b d) ≡ true
  pub add_grows : (a b : F) → Nonneg a → Nonneg b → fl.le a (fl.add a b) ≡ true
  -- a weight times a value between 0 and 1
  pub weigh :
      (m e : ℕ) (g : F)
      → m ≤ 10 ^ 9
      → Nonneg g
      → fl.le g (fl.lit 10 1) ≡ true
      → Nonneg (fl.mul (fl.lit m e) g)
        × (fl.le (fl.mul (fl.lit m e) g) (fl.mul (fl.lit m e) (fl.lit 10 1)) ≡ true)
  -- a factor between 0 and 1
  pub shrink :
      (s : F) (m e : ℕ)
      → 0 < m
      → m ≤ 10 ^ e
      → e ≤ 9
      → Nonneg s
      → Nonneg (fl.mul s (fl.lit m e)) × (fl.le (fl.mul s (fl.lit m e)) s ≡ true)
  pub exp_range :
      (y : F)
      → fl.le y (fl.lit 0 0) ≡ true
      → Nonneg (fl.exp y) × (fl.le (fl.exp y) (fl.lit 10 1) ≡ true)
  pub div_nonpos :
      (y d : F)
      → fl.le y (fl.lit 0 0) ≡ true
      → fl.le (fl.lit 1 0) d ≡ true
      → fl.le d (fl.lit (10 ^ 22) 0) ≡ true
      → fl.le (fl.div y d) (fl.lit 0 0) ≡ true
  pub neg_nonpos : (y : F) → Nonneg y → fl.le (fl.neg y) (fl.lit 0 0) ≡ true
  -- the square of a distance that is below about 1e150, so that it does not overflow
  pub square_nonneg :
      (x : F) (m : ℕ)
      → Nonneg x
      → fl.le x (fl.lit (10 ^ 150) 0) ≡ true
      → m ≤ 10 ^ 11
      → Nonneg (fl.pow (fl.sub x (fl.lit m 1)) 2)
  -- integers and halves below 10^9
  pub sub_exact :
      (a b : ℕ) → b ≤ a → a ≤ 10 ^ 9 → fl.sub (fl.lit a 0) (fl.lit b 0) ≡ fl.lit (a - b) 0
  pub half_exact : (n : ℕ) → n ≤ 2 * 10 ^ 9 → fl.div (fl.lit n 0) (fl.lit 2 0) ≡ fl.lit (5 * n) 1
  pub add_one_exact :
      (n : ℕ) → n ≤ 2 * 10 ^ 9 → fl.add (fl.lit (5 * n) 1) (fl.lit 1 0) ≡ fl.lit (5 * (n + 2)) 1
  -- twice the square of a half of an integer that is neither below 1 nor large
  pub square_range :
      (n : ℕ)
      → 2 ≤ n
      → n ≤ 3 * 10 ^ 9
      → (fl.le (fl.lit 1 0) (fl.mul (fl.lit 2 0) (fl.pow (fl.lit (5 * n) 1) 2)) ≡ true)
        × (fl.le (fl.mul (fl.lit 2 0) (fl.pow (fl.lit (5 * n) 1) 2)) (fl.lit (10 ^ 22) 0) ≡ true)

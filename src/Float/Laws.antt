-- ===== src/Float/Laws.antt =====
-- The interface to `float`, and the laws of its order.
use analysis_app.Prelude.{ℕ, ◌*◌, ◌^◌, ◌≤◌, String, ◌≡◌, ◌⊎◌, Bool, true, false}

pub record Float (F : Type 0) : Type 0 where
  pub lit : ℕ → ℕ → F
  pub neg : F → F
  pub abs : F → F
  pub exp : F → F
  pub sqrt : F → F
  pub log2 : F → F
  pub log10 : F → F
  pub pow : F → ℕ → F
  pub add : F → F → F
  pub sub : F → F → F
  pub mul : F → F → F
  pub div : F → F → F
  pub lt : F → F → Bool
  pub le : F → F → Bool
  pub eq : F → F → Bool
  pub round : F → ℕ → F
  pub fixed : ℕ → F → String
  pub percent : F → String

-- What IEEE 754 says of the comparisons. NaN is the value that is not `<=` itself; the order is
-- total away from it. Rounding a numeral is monotone.
pub record IsOrdered (F : Type 0) ⦃fl : Float F⦄ : Type 0 where
  pub lt_irrefl : (x : F) → fl.lt x x ≡ false
  pub le_of_lt : (x y : F) → fl.lt x y ≡ true → fl.le x y ≡ true
  pub le_trans : (x y z : F) → fl.le x y ≡ true → fl.le y z ≡ true → fl.le x z ≡ true
  pub lt_of_lt_le : (x y z : F) → fl.lt x y ≡ true → fl.le y z ≡ true → fl.lt x z ≡ true
  pub lt_of_le_lt : (x y z : F) → fl.le x y ≡ true → fl.lt y z ≡ true → fl.lt x z ≡ true
  pub num_of_le : (x y : F) → fl.le x y ≡ true → (fl.le x x ≡ true) × (fl.le y y ≡ true)
  pub lt_or_ge :
      (x y : F) → fl.le x x ≡ true → fl.le y y ≡ true → (fl.lt x y ≡ true) ⊎ (fl.le y x ≡ true)
  pub neg_lt : (x y : F) → fl.lt (fl.neg x) (fl.neg y) ≡ fl.lt y x
  pub lit_le :
      (m e m' e' : ℕ) → m * 10 ^ e' ≤ m' * 10 ^ e → fl.le (fl.lit m e) (fl.lit m' e') ≡ true

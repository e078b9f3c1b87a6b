-- ===== src/Float/Order.antt =====
-- Consequences of the laws of order.
use analysis_app.Prelude.{◌≡◌, inl, inr, true, false, Bool-cases}
use analysis_app.Float.Laws.{Float, IsOrdered}

module _ {F : Type 0} ⦃fl : Float F⦄ (laws : IsOrdered F) where
  open fl use {lt, le}
  open laws use {lt_irrefl, lt_of_lt_le, lt_of_le_lt, le_of_lt, lt_or_ge, num_of_le}

  -- What lies above a bound does not lie below a smaller one.
  pub not_below : (a b x : F) → lt b x ≡ true → le a b ≡ true → lt x a ≡ false
  not_below a b x h k = elim (Bool-cases (lt x a)) [
    | inl e ↦ cc (lt_of_lt_le x b x (lt_of_lt_le x a b e k) (le_of_lt b x h), lt_irrefl x)
    | inr e ↦ e
  ]

  -- What does not exceed a bound does not exceed a larger one.
  pub not_above : (a b x : F) → lt a x ≡ false → le a b ≡ true → lt b x ≡ false
  not_above a b x h k = elim (Bool-cases (lt b x)) [
    | inl e ↦ cc (lt_of_le_lt a b x k e)
    | inr e ↦ e
  ]

  pub lt_asymm : (x y : F) → lt x y ≡ true → le y x ≡ false
  lt_asymm x y h = elim (Bool-cases (le y x)) [
    | inl e ↦ cc (lt_of_lt_le x y x h e, lt_irrefl x)
    | inr e ↦ e
  ]

-- ===== src/Float/Fixed.antt =====
-- A concrete `Float` on which the examples run: signed millionths, with rounding towards zero.
-- The elementary functions are crude ones of the right shape.
use native.Mathlib.Nat.{
  le-div_iff_mul-le, mul-le-mul_right, div-mul-le_self, one-le-pow, le_of_mul-le-mul_right,
}
use analysis_app.Float.Laws.{Float, IsOrdered}
use analysis_app.Prelude.{
  ℕ, zero, suc, ◌&&◌, ◌+◌, ◌*◌, ◌/◌, ◌^◌, ◌≤◌, ◌<◌, String, ◌≡◌, true, arith, ltb, ◌==◌,
  if◌then◌else◌,
}
use analysis_app.Prelude.Int.{
  ℤ, pos, negsuc, pos_part, neg_part, quot, ◌+ℤ◌, ◌-ℤ◌, ◌*ℤ◌, ltb_ℤ, leb_ℤ,
}

abbrev pub unit : ℕ
unit = 10 ^ 6

abbrev magnitude : ℤ → ℕ
magnitude a = pos_part a + neg_part a

-- how often n can be divided by b before it is below `stop`
abbrev divisions : ℕ → ℕ → ℕ → ℕ → ℕ
divisions zero b stop n = 0
divisions (suc fuel) b stop n =
    let rest = divisions fuel b stop (n / b) in if ltb n stop then 0 else suc rest

abbrev signed_div : ℤ → ℤ → ℤ
signed_div a (pos n) = quot (a *ℤ pos unit) n
signed_div a (negsuc n) = quot (pos 0 -ℤ (a *ℤ pos unit)) (suc n)

abbrev exp_of : ℤ → ℤ
exp_of (pos n) = pos (unit + n)
exp_of (negsuc n) = pos (unit * unit / (unit + suc n))

abbrev log_base : ℕ → ℤ → ℤ
log_base b a = pos (unit * divisions 64 b (b * unit) (pos_part a))

abbrev text_of : ℤ → String
text_of (pos n) = if n == 0 then "zero" else "positive"
text_of (negsuc n) = "negative"

abbrev pub lit_ℤ : ℕ → ℕ → ℤ
lit_ℤ m e = pos (m * unit / 10 ^ e)

abbrev power : ℤ → ℕ → ℤ
power a zero = pos unit
power a (suc n) = quot (a *ℤ power a n) unit

instance abbrev pub fixed_float : Float ℤ
fixed_float = record {
  lit = lit_ℤ;
  neg = λ a. pos 0 -ℤ a;
  abs = λ a. pos (magnitude a);
  exp = exp_of;
  sqrt = λ a. a;
  log2 = log_base 2;
  log10 = log_base 10;
  pow = power;
  add = ◌+ℤ◌;
  sub = ◌-ℤ◌;
  mul = λ a b. quot (a *ℤ b) unit;
  div = signed_div;
  lt = ltb_ℤ;
  le = leb_ℤ;
  eq = λ a b. leb_ℤ a b && leb_ℤ b a;
  round = λ a n. a;
  fixed = λ n a. text_of a;
  percent = text_of;
}

quotients_le : (m k a m' b : ℕ) → 0 < a → 0 < b → m * b ≤ m' * a → m * k / a ≤ m' * k / b
quotients_le m k a m' b ha hb h =
    let q : ℕ = m * k / a in
    let low : q * a ≤ m * k = div-mul-le_self (m * k) a in
    let up : q * a * b ≤ m * k * b = mul-le-mul_right b low in
    let across : m * b * k ≤ m' * a * k = mul-le-mul_right k h in
    (le-div_iff_mul-le hb).1 (le_of_mul-le-mul_right {k = a} (omega (arith, up, across)) ha)

pub lit_ℤ-le : (m e m' e' : ℕ) → m * 10 ^ e' ≤ m' * 10 ^ e → leb_ℤ (lit_ℤ m e) (lit_ℤ m' e') ≡ true
lit_ℤ-le m e m' e' h =
    let q : m * unit / 10 ^ e ≤ m' * unit / 10 ^ e' =
      quotients_le m unit (10 ^ e) m' (10 ^ e') (one-le-pow e 10 (omega arith))
        (one-le-pow e' 10 (omega arith)) h in
    ground arith

pub fixed-IsOrdered : IsOrdered ℤ
fixed-IsOrdered = record {
  lt_irrefl = λ x. ground arith;
  le_of_lt = λ x y h. ground arith;
  le_trans = λ x y z h k. ground arith;
  lt_of_lt_le = λ x y z h k. ground arith;
  lt_of_le_lt = λ x y z h k. ground arith;
  num_of_le = λ x y h. ground arith;
  lt_or_ge = λ x y h k. ground arith;
  neg_lt = λ x y. ground arith;
  lit_le = lit_ℤ-le;
}

-- ===== src/Float/FixedArithmetic.antt =====
-- The laws of arithmetic hold of the signed millionths.
use native.Mathlib.Nat.{mul-le-mul, mul-le-mul_left, mul-le-mul_right, div-le_of_le-mul}
use analysis_app.Prelude.{leb→le, ap, ◌∙◌, ℕ, ◌*◌, ◌/◌, ◌^◌, ◌≤◌, ◌≡◌, true, arith}
use analysis_app.Prelude.Int.{ℤ, pos, negsuc, quot, ◌*ℤ◌, leb_ℤ}
use analysis_app.Float.Arithmetic.{IsArithmetic}
use analysis_app.Float.Fixed.{unit, lit_ℤ, fixed_float}

quot-mul : (a b : ℕ) → quot (pos a *ℤ pos b) unit ≡ pos (a * b / unit)
quot-mul a b = ground arith

weigh_fixed :
    (m e : ℕ) (g : ℤ)
    → leb_ℤ (pos 0) g ≡ true
    → leb_ℤ g (pos unit) ≡ true
    → (leb_ℤ (pos 0) (quot (lit_ℤ m e *ℤ g) unit) ≡ true)
      × (leb_ℤ (quot (lit_ℤ m e *ℤ g) unit) (quot (lit_ℤ m e *ℤ pos unit) unit) ≡ true)
weigh_fixed m e (negsuc k) h u = ground arith
weigh_fixed m e (pos k) h u =
    let w : ℕ = m * unit / 10 ^ e in
    let up : w * k ≤ w * unit = mul-le-mul_left w (leb→le k unit (ground arith)) in
    rw (quot-mul w k, quot-mul w unit) (ground arith, ground (arith, up))

shrink_fixed :
    (s : ℤ) (m e : ℕ)
    → m ≤ 10 ^ e
    → leb_ℤ (pos 0) s ≡ true
    → (leb_ℤ (pos 0) (quot (s *ℤ lit_ℤ m e) unit) ≡ true)
      × (leb_ℤ (quot (s *ℤ lit_ℤ m e) unit) s ≡ true)
shrink_fixed (negsuc k) m e h u = ground arith
shrink_fixed (pos k) m e h u =
    let w : ℕ = m * unit / 10 ^ e in
    let small : w ≤ unit = div-le_of_le-mul (10 ^ e) (mul-le-mul_right unit h) in
    let up : k * w ≤ k * unit = mul-le-mul_left k small in
    rw (quot-mul k w) (ground arith, ground (arith, up))

halves : (n : ℕ) → lit_ℤ (5 * n) 1 ≡ pos (n * 500000)
halves n = ap pos (omega arith)

square_pos : (a : ℕ) → fixed_float.pow (pos a) 2 ≡ pos (a * a / unit)
square_pos a =
    let once : quot (pos a *ℤ pos unit) unit ≡ pos a = quot-mul a unit ∙ ap pos (omega arith) in
    ap (λ x. quot (pos a *ℤ x) unit) once ∙ quot-mul a a

square_fixed : (n : ℕ) → fixed_float.pow (lit_ℤ (5 * n) 1) 2 ≡ lit_ℤ (25 * (n * n)) 2
square_fixed n =
    ap (λ x. fixed_float.pow x 2) (halves n) ∙ square_pos (n * 500000) ∙ ap pos (omega arith)

square_nonneg_fixed : (d : ℤ) → leb_ℤ (pos 0) (fixed_float.pow d 2) ≡ true
square_nonneg_fixed d = ground arith

div_fixed :
    (y d : ℤ)
    → leb_ℤ y (pos 0) ≡ true
    → leb_ℤ (pos unit) d ≡ true
    → leb_ℤ d (lit_ℤ (10 ^ 22) 0) ≡ true
    → leb_ℤ (fixed_float.div y d) (pos 0) ≡ true
div_fixed y (pos n) h k u = ground arith
div_fixed y (negsuc n) h k u = ground arith

square_range_fixed :
    (n : ℕ)
    → 2 ≤ n
    → n ≤ 3 * 10 ^ 9
    → (leb_ℤ (pos unit) (fixed_float.mul (lit_ℤ 2 0) (fixed_float.pow (lit_ℤ (5 * n) 1) 2)) ≡ true)
      × (leb_ℤ
            (fixed_float.mul (lit_ℤ 2 0) (fixed_float.pow (lit_ℤ (5 * n) 1) 2))
            (lit_ℤ (10 ^ 22) 0)
          ≡ true)
square_range_fixed n low high =
    let least : 2 * 2 ≤ n * n = mul-le-mul {n₁ = 2} {m₁ = 2} {n₂ = n} {m₂ = n} low low in
    let most : n * n ≤ 3 * 10 ^ 9 * (3 * 10 ^ 9) = mul-le-mul high high in
    let twice : fixed_float.mul (lit_ℤ 2 0) (fixed_float.pow (lit_ℤ (5 * n) 1) 2)
        ≡ pos (n * n * 500000) =
      ap (λ x. fixed_float.mul (lit_ℤ 2 0) x) (square_fixed n)
      ∙ quot-mul 2000000 (25 * (n * n) * unit / 10 ^ 2)
      ∙ ap pos (omega arith) in
    rw twice (ground (arith, least), ground (arith, most))

pub fixed-IsArithmetic : IsArithmetic ℤ
fixed-IsArithmetic = record {
  add_nonneg = λ a b h k. ground arith;
  add_mono = λ a b c d h k u v. ground arith;
  add_grows = λ a b h k. ground arith;
  weigh = λ m e g k h u. weigh_fixed m e g h u;
  shrink = λ s m e h k few u. shrink_fixed s m e k u;
  exp_range = λ y h. ground arith;
  div_nonpos = div_fixed;
  neg_nonpos = λ y h. ground arith;
  square_nonneg = λ x m h k u. square_nonneg_fixed (fixed_float.sub x (lit_ℤ m 1));
  sub_exact = λ a b h k. ground arith;
  half_exact = λ n h. ground arith;
  add_one_exact = λ n h. ground arith;
  square_range = square_range_fixed;
}

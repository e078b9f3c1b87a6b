-- ===== src/Float.antt =====
-- Python's `float`, which the program computes with and does not implement: an interface. A numeral
-- of the source, integer or not, is `lit m e`, the float nearest to m / 10^e; `a > b` is `lt b a`.
-- `round x n` is the built-in `round`, `fixed n x` is the text of f"{x:.nf}", and `percent x` that of f"{x:.0%}".
mod Laws
pub mod Fixed
pub mod Order
pub mod Arithmetic
pub mod FixedArithmetic
pub use Laws.*

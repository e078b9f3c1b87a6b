-- ===== src/Prelude/Text.antt =====
-- Text as the program compares it: whole texts by `str_eq`, and `str.upper`, `startswith` and `in`
-- over the lists of code points. `upper` is that of ASCII text.
use Prim.Native.Nat.{ℕ, ◌-◌}
use Prim.Native.Char.{Char, code}
use Prim.Native.String.compare.{cons-nil}
use text.Mathlib.Text.{is_eq}
use text.Mathlib.TextLemmas.{cons-append}
use Prim.Native.String.{String, ◌++◌ as append}
use mathlib.Core.Path.{◌≡◌, refl, ap}
use mathlib.Core.Bool.{Bool, true, false, not, ◌&&◌, ◌||◌}
use mathlib.Core.Logic.{◌≢◌, inl, inr}
use mathlib.Core.List.{List, [], ◌∷◌, map}
use native.Mathlib.Omega.{arith}
use analysis_app.Prelude.Tests.{Bool-cases, absurd_test, leb, ◌==◌, if◌then◌else◌}
pub use text.Mathlib.Text.{◌==◌ as str_eq}
pub use text.Mathlib.TextEquality.{eq_iff}
pub use text.Mathlib.TextPositions.{eq_refl}

abbrev pub codes : String → List ℕ
codes String.[] = []
codes (String.◌∷◌ c s) = code c ∷ codes s

abbrev pub upper_code : ℕ → ℕ
upper_code c = if leb b'a' c && leb c b'z' then c - 32 else c

-- s.upper()
abbrev pub upper : String → List ℕ
upper s = map upper_code (codes s)

abbrev pub same : List ℕ → List ℕ → Bool
same [] [] = true
same (x ∷ xs) (y ∷ ys) = x == y && same xs ys
same _ _ = false

-- s.startswith(p)
abbrev pub begins : List ℕ → List ℕ → Bool
begins s [] = true
begins [] (x ∷ p) = false
begins (y ∷ s) (x ∷ p) = x == y && begins s p

-- p in s
abbrev pub within : List ℕ → List ℕ → Bool
within p [] = begins [] p
within p (y ∷ s) = begins (y ∷ s) p || within p s

pub same_refl : (xs : List ℕ) → same xs xs ≡ true
same_refl [] = refl
same_refl (x ∷ xs) = ground (arith, same_refl xs)

pub eq_of_same : (xs ys : List ℕ) → same xs ys ≡ true → xs ≡ ys
eq_of_same [] [] h = refl
eq_of_same (x ∷ xs) (y ∷ ys) h = ground (arith, eq_of_same xs ys)
eq_of_same [] (y ∷ ys) h = ground arith
eq_of_same (x ∷ xs) [] h = ground arith

-- "".join(parts)
abbrev pub concat : List String → String
concat [] = ""
concat (s ∷ parts) = append s (concat parts)

-- "; ".join(parts)
abbrev pub join_semicolon : List String → String
join_semicolon [] = ""
join_semicolon (s ∷ []) = s
join_semicolon (s ∷ t ∷ parts) = append s (append "; " (join_semicolon (t ∷ parts)))

-- a or b, for texts
abbrev pub or_text : String → String → String
or_text a b = if str_eq a "" then b else a

abbrev pub is_named : String → Bool
is_named s = not (str_eq s "")

abbrev pub member : String → List String → Bool
member s [] = false
member s (t ∷ ts) = str_eq s t || member s ts

-- A text that begins with a character is not empty.
pub cons_named : (c : Char) (s : String) → is_named (String.◌∷◌ c s) ≡ true
cons_named c s = ap (λ o. not (is_eq o)) (λ i. cons-nil c s i)

pub append_named : (c : Char) (s t : String) → is_named (append (String.◌∷◌ c s) t) ≡ true
append_named c s t = rw cons-append (cons_named c (append s t))

pub str_ne : (s t : String) → s ≢ t → str_eq s t ≡ false
str_ne s t h = elim (Bool-cases (str_eq s t)) [ inl e ↦ absurd (h ((eq_iff s t).0 e)) | inr e ↦ e ]

pub str_ne_sym : (s t : String) → str_eq s t ≡ false → str_eq t s ≡ false
str_ne_sym s t h = str_ne t s (λ e. absurd_test (str_eq s t) (rw e (eq_refl s)) h)

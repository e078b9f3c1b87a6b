-- ===== src/Evaluation/Report/Classes.antt =====
-- The table of the classes takes the samples apart.
use analysis_app.Prelude.{
  ℕ, suc, ◌+◌, ◌<◌, ◌≡◌, refl, ap, String, Bool, true, false, ◌==◌, leb, List, [], ◌∷◌, length, map,
  arith, All, All-weaken, if◌then◌else◌,
}
use analysis_app.Prelude.Results.{ok}
use analysis_app.Evaluation.Masks.{masked, hits}
use analysis_app.Evaluation.Report.{class_flags}

-- The flags of the samples whose label passes a test.
pub picked : (ℕ → Bool) → List ℕ → List Bool → List Bool
picked p [] cs = []
picked p (m ∷ ys) [] = []
picked p (m ∷ ys) (c ∷ cs) = let rest = picked p ys cs in if p m then c ∷ rest else rest

masked-picked :
    (p : ℕ → Bool) (ys : List ℕ) (cs : List Bool)
    → length ys ≡ length cs
    → masked (map p ys) cs ≡ ok (picked p ys cs)
unfolding masked picked
masked-picked p [] [] h = refl
masked-picked p [] (c ∷ cs) h = absurd (omega (arith, h))
masked-picked p (m ∷ ys) [] h = absurd (omega (arith, h))
masked-picked p (m ∷ ys) (c ∷ cs) h = rw (masked-picked p ys cs (omega (arith, h))) refl

-- The samples from a class on are those of the class, and those from the next class on.
picked-split :
    (mi : ℕ) (ys : List ℕ) (cs : List Bool)
    → (hits (picked (λ m. m == mi) ys cs) + hits (picked (leb (suc mi)) ys cs)
        ≡ hits (picked (leb mi) ys cs))
      × (length (picked (λ m. m == mi) ys cs) + length (picked (leb (suc mi)) ys cs)
          ≡ length (picked (leb mi) ys cs))
unfolding hits picked
picked-split mi [] cs = (omega arith, omega arith)
picked-split mi (m ∷ ys) [] = (omega arith, omega arith)
picked-split mi (m ∷ ys) (true ∷ cs) =
    let (a, b) = picked-split mi ys cs in (ground (arith, a), ground (arith, b))
picked-split mi (m ∷ ys) (false ∷ cs) =
    let (a, b) = picked-split mi ys cs in (ground (arith, a), ground (arith, b))

picked-none :
    (n : ℕ) (ys : List ℕ) (cs : List Bool) → All (λ m. m < n) ys → picked (leb n) ys cs ≡ []
unfolding picked
picked-none n [] cs h = refl
picked-none n (m ∷ ys) [] h = refl
picked-none n (m ∷ ys) (c ∷ cs) (h, hs) =
    let e : leb n m ≡ false = ground (arith, h) in rw e (picked-none n ys cs hs)

picked-all : (ys : List ℕ) (cs : List Bool) → length ys ≡ length cs → picked (leb 0) ys cs ≡ cs
unfolding picked
picked-all [] [] h = refl
picked-all [] (c ∷ cs) h = absurd (omega (arith, h))
picked-all (m ∷ ys) [] h = absurd (omega (arith, h))
picked-all (m ∷ ys) (c ∷ cs) h =
    let e : leb 0 m ≡ true = ground arith in
    rw e (ap (λ r. c ∷ r) (picked-all ys cs (omega (arith, h))))

-- The correct samples of all classes, and the samples of all classes.
abbrev pub all_hits : List (String × List Bool) → ℕ
all_hits [] = 0
all_hits ((cls, flags) ∷ rest) = hits flags + all_hits rest

abbrev pub all_samples : List (String × List Bool) → ℕ
all_samples [] = 0
all_samples ((cls, flags) ∷ rest) = length flags + all_samples rest

pub class_flags-from :
    (mi : ℕ) (y_m : List ℕ) (correct : List Bool) (classes : List String)
    → length y_m ≡ length correct
    → (flags : List (String × List Bool)) × (class_flags mi y_m correct classes ≡ ok flags)
      × (all_hits flags + hits (picked (leb (mi + length classes)) y_m correct)
          ≡ hits (picked (leb mi) y_m correct))
      × (all_samples flags + length (picked (leb (mi + length classes)) y_m correct)
          ≡ length (picked (leb mi) y_m correct))
unfolding class_flags
class_flags-from mi y_m correct [] h =
    let e : mi + 0 ≡ mi = omega arith in ([], refl, rw e (omega arith), rw e (omega arith))
class_flags-from mi y_m correct (cls ∷ classes) h =
    let (rest, e, a, b) = class_flags-from (suc mi) y_m correct classes h in
    let (c, d) = picked-split mi y_m correct in
    let next : mi + suc (length classes) ≡ suc mi + length classes = omega arith in
    rw (masked-picked (λ m. m == mi) y_m correct h, e, next)
      (_, refl, omega (arith, a, c), omega (arith, b, d))

-- For as many results as labels, and labels that are indices of classes of the model: the table of the
-- classes is made, the correct samples of its classes are together all the correct samples, and the
-- samples of its classes are together all samples.
pub class_flags_lem :
    (y_m : List ℕ) (correct : List Bool) (model_classes : List String)
    → length y_m ≡ length correct
    → All (λ m. m < length model_classes) y_m
    → (flags : List (String × List Bool)) × (class_flags 0 y_m correct model_classes ≡ ok flags)
      × (all_hits flags ≡ hits correct)
      × (all_samples flags ≡ length correct)
unfolding hits
class_flags_lem y_m correct model_classes h below =
    let (flags, e, a, b) = class_flags-from 0 y_m correct model_classes h in
    let past = picked-none (0 + length model_classes) y_m correct (
      All-weaken (λ m. m < length model_classes) (λ m. m < 0 + length model_classes) y_m
        (λ m k. omega (arith, k)) below) in
    let hits_of : all_hits flags + 0 ≡ hits correct = rw (past, picked-all y_m correct h) at a in
    let samples_of : all_samples flags + 0 ≡ length correct =
      rw (past, picked-all y_m correct h) at b in
    (flags, e, omega (arith, hits_of), omega (arith, samples_of))

-- ===== src/Evaluation/Gated/Within.antt =====
-- The gated class is of the family that has the greatest probability.
use analysis_app.Prelude.{
  ℕ, zero, suc, ◌≡◌, refl, ap, ◌∙◌, inl, inr, true, false, String, List, [], ◌∷◌, map, All,
  Bool-cases, absurd_test, if◌then◌else◌,
}
use analysis_app.Prelude.Results.{ok, absurd_raised, ok-injective}
use analysis_app.Features.Arrays.{index, zip_with}
use analysis_app.Float.{Float}
use analysis_app.Numpy.{Numpy}
use analysis_app.FamilyMap.{family_idx, class_to_family_idx}
use analysis_app.Evaluation.Gated.{has_index, family_mask, family_probs, gated_class}

module _ {A B C : Type 0} where
  index-zip_with :
      (f : A → B → C) (xs : List A) (ys : List B) (i : ℕ) (x : A) (y : B)
      → index xs i ≡ ok x
      → index ys i ≡ ok y
      → index (zip_with f xs ys) i ≡ ok (f x y)
  index-zip_with f [] ys i x y h k = absurd_raised h
  index-zip_with f (a ∷ xs) [] i x y h k = absurd_raised k
  index-zip_with f (a ∷ xs) (b ∷ ys) zero x y h k = rw (ok-injective h, ok-injective k) refl
  index-zip_with f (a ∷ xs) (b ∷ ys) (suc i) x y h k = index-zip_with f xs ys i x y h k

index-map :
    {A B : Type 0} (g : A → B) (xs : List A) (i : ℕ) (x : A)
    → index xs i ≡ ok x
    → index (map g xs) i ≡ ok (g x)
index-map g [] i x h = absurd_raised h
index-map g (a ∷ xs) zero x h = rw (ok-injective h) refl
index-map g (a ∷ xs) (suc i) x h = index-map g xs i x h

All-index :
    {A : Type 0} (P : A → Type 0) (xs : List A) (i : ℕ) (x : A) → All P xs → index xs i ≡ ok x → P x
All-index P [] i x h e = absurd_raised e
All-index P (a ∷ xs) zero x (h, hs) e = rw (← ok-injective e) h
All-index P (a ∷ xs) (suc i) x (h, hs) e = All-index P xs i x hs e

module _ {F : Type 0} ⦃fl : Float F⦄ ⦃np : Numpy F⦄ (model_classes : List String)
    (probs : List F) where
  -- The probabilities of the classes of a family, and zero for the others.
  abbrev pub gated : ℕ → List F
  gated fi = zip_with fl.mul probs (family_mask fi model_classes)

  -- A product with one and with zero, for a number that is neither infinite nor negative.
  abbrev pub IsMaskable : F → Type 0
  IsMaskable p = (fl.mul p (fl.lit 10 1) ≡ p) × (fl.mul p (fl.lit 0 1) ≡ fl.lit 0 1)

  -- A class of the model, its name and its probability.
  abbrev pub IsClass : ℕ → String → F → Type 0
  IsClass c name p = (index model_classes c ≡ ok name) × (index probs c ≡ ok p)

  gated_at :
      (fi c : ℕ) (name : String) (p : F)
      → IsClass c name p
      → index (gated fi) c
        ≡ ok (fl.mul p (if has_index fi (family_idx name) then fl.lit 10 1 else fl.lit 0 1))
  unfolding family_mask class_to_family_idx
  gated_at fi c name p (e, d) = index-zip_with fl.mul probs (family_mask fi model_classes) c p _ d (
      index-map (λ z. if has_index fi z then fl.lit 10 1 else fl.lit 0 1)
        (class_to_family_idx model_classes) c (family_idx name)
        (index-map family_idx model_classes c name e))

  -- Where the family fi has the greatest probability, and some class of it has one above zero: the gated
  -- class is in the family fi. That is for probabilities which products with one and with zero keep and
  -- clear, and for `argmax` giving, on the probabilities of the family, the place of one that none exceeds.
  pub gated_class_lem :
      (fi c d : ℕ) (name other : String) (p q : F)
      → np.argmax (family_probs model_classes probs) ≡ ok fi
      → gated_class model_classes probs ≡ ok c
      → All IsMaskable probs
      → IsClass c name p
      → IsClass d other q
      → has_index fi (family_idx other) ≡ true
      → fl.lt (fl.lit 0 1) q ≡ true
      → ((i : ℕ) (v : F)
          → np.argmax (gated fi) ≡ ok i
          → index (gated fi) i ≡ ok v
          → All (λ x. fl.lt v x ≡ false) (gated fi))
      → has_index fi (family_idx name) ≡ true
  unfolding gated_class
  gated_class_lem fi c d name other p q e h maskable at_c at_d inside above most =
      elim (Bool-cases (has_index fi (family_idx name))) [
        | inl t ↦ t
        | inr t ↦
            let cleared = (All-index IsMaskable probs c p maskable at_c.1).1 in
            let kept = (All-index IsMaskable probs d q maskable at_d.1).0 in
            let here : index (gated fi) c ≡ ok (fl.lit 0 1) =
              gated_at fi c name p at_c ∙ rw t (ap ok cleared) in
            let there : index (gated fi) d ≡ ok q =
              gated_at fi d other q at_d ∙ rw inside (ap ok kept) in
            let picked : np.argmax (gated fi) ≡ ok c = rw e at h in
            absurd_test (fl.lt (fl.lit 0 1) q) above (
              All-index (λ x. fl.lt (fl.lit 0 1) x ≡ false) (gated fi) d q
                (most c (fl.lit 0 1) picked here) there)
      ]

-- ===== src/Evaluation/Masks/Positions.antt =====
-- Selection and assignment at the positions where a test holds.
use analysis_app.Prelude.{
  ℕ, suc, ◌≡◌, refl, ◌∙◌, inl, inr, Bool, List, [], ◌∷◌, map, Bool-cases, if◌then◌else◌,
}
use analysis_app.Prelude.Results.{ok, ◌>>=◌, Result-cases, each, each-map}
use analysis_app.Features.Arrays.{index, where_from, filter}
use analysis_app.Evaluation.Masks.{select, put_at, assign}

module _ {A : Type 0} (p : A → Bool) where
  pub where_from-suc : (i : ℕ) (xs : List A) → where_from p (suc i) xs ≡ map suc (where_from p i xs)
  where_from-suc i [] = refl
  where_from-suc i (x ∷ xs) = elim (Bool-cases (p x)) [
    | inl e ↦ rw (e, where_from-suc (suc i) xs)
    | inr e ↦ rw (e, where_from-suc (suc i) xs)
  ]

module _ {A B : Type 0} (p : A → Bool) where
  -- The elements at the positions where a test holds of a first component.
  pub select-where_from :
      (ss : List (A × B))
      → select (where_from p 0 (map (λ s. s.0) ss)) (map (λ s. s.1) ss)
        ≡ ok (map (λ s. s.1) (filter (λ s. p s.0) ss))
  unfolding select
  select-where_from [] = refl
  select-where_from ((a, b) ∷ ss) =
      let later : each (index (b ∷ map (λ s. s.1) ss)) (where_from p 1 (map (λ s. s.0) ss))
          ≡ ok (map (λ s. s.1) (filter (λ s. p s.0) ss)) =
        rw (where_from-suc p 0 (map (λ s. s.0) ss)) (
          each-map (index (b ∷ map (λ s. s.1) ss)) suc (where_from p 0 (map (λ s. s.0) ss))
          ∙ select-where_from ss) in
      elim (Bool-cases (p a)) [ inl e ↦ rw (e, later) | inr e ↦ rw (e, later) ]

assign-suc :
    {A : Type 0} (ks : List ℕ) (vs : List A) (x : A) (xs : List A)
    → assign (map suc ks) vs (x ∷ xs) ≡ (assign ks vs xs >>= λ ys. ok (x ∷ ys))
unfolding assign put_at
assign-suc [] [] x xs = refl
assign-suc [] (v ∷ vs) x xs = refl
assign-suc (k ∷ ks) [] x xs = refl
assign-suc (k ∷ ks) (v ∷ vs) x xs = elim (Result-cases (put_at k v xs)) [
  | inl (ys, e) ↦ rw e (assign-suc ks vs x ys)
  | inr (t, e) ↦ rw e
]

module _ {A B C : Type 0} (p : A → Bool) (g : B → C) (h : A × B → C) where
  abbrev pub updated : A × B → C
  updated s = if p s.0 then g s.1 else h s

  -- Assignment at the positions where the test holds.
  pub assign-where_from :
      (ss : List (A × B))
      → assign
          (where_from p 0 (map (λ s. s.0) ss))
          (map g (map (λ s. s.1) (filter (λ s. p s.0) ss)))
          (map h ss)
        ≡ ok (map updated ss)
  unfolding assign put_at
  assign-where_from [] = refl
  assign-where_from ((a, b) ∷ ss) = elim (Bool-cases (p a)) [
    | inl e ↦ rw (e, where_from-suc p 0 (map (λ s. s.0) ss), assign-suc, assign-where_from ss)
    | inr e ↦ rw (e, where_from-suc p 0 (map (λ s. s.0) ss), assign-suc, assign-where_from ss)
  ]

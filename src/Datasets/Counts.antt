-- ===== src/Datasets/Counts.antt =====
-- tools/test_harness/datasets.py: the dictionary `counts` of the loaders that cap each class.
use analysis_app.Prelude.{
  ℕ, suc, ◌≡◌, refl, inl, inr, String, false, List, [], ◌∷◌, Bool-cases, absurd_test, if◌then◌else◌,
}
use analysis_app.Prelude.Text.{str_eq, eq_iff, eq_refl, str_ne}

abbrev pub Counts : Type 0
Counts = List (String × ℕ)

-- counts.get(k, 0)
unfoldable pub count_of : String → Counts → ℕ
count_of k [] = 0
count_of k ((j, n) ∷ c) = let rest = count_of k c in if str_eq j k then n else rest

-- counts[k] = counts.get(k, 0) + 1
unfoldable pub bump : String → Counts → Counts
bump k [] = (k, 1) ∷ []
bump k ((j, n) ∷ c) = let rest = bump k c in if str_eq j k then (j, suc n) ∷ c else (j, n) ∷ rest

pub count_of-bump :
    (k l : String) (c : Counts)
    → count_of l (bump k c) ≡ (if str_eq k l then suc (count_of k c) else count_of l c)
unfolding count_of bump
count_of-bump k l [] = refl
count_of-bump k l ((j, n) ∷ c) = elim (Bool-cases (str_eq j k)) [
  | inl e ↦
      rw (e, ← (eq_iff j k).0 e) (elim (Bool-cases (str_eq j l)) [ inl h ↦ rw h | inr h ↦ rw h ])
  | inr e ↦
      rw (e, count_of-bump k l c)
        (elim (Bool-cases (str_eq j l)) [
          | inl h ↦
              let apart : str_eq k l ≡ false =
                str_ne k l (λ same.
                  absurd_test (str_eq j k) (rw (same, ← (eq_iff j l).0 h) (eq_refl j)) e) in
              rw (h, apart)
          | inr h ↦ rw h
        ])
]

-- ===== src/FamilyMap/Indices.antt =====
-- The indices of the families, and the rows of the projection.
use analysis_app.Prelude.{
  ℕ, zero, suc, ◌<◌, ◌≡◌, refl, ap, inl, inr, ◌⊎◌, String, Bool, true, false, Option, none, some,
  List, [], ◌∷◌, length, replicate, get_elem?, all, map, length-map, ◌==◌, arith, Bool-cases,
  if◌then◌else◌,
}
use analysis_app.Prelude.Text.{str_eq, eq_iff}
use analysis_app.Prelude.Int.{ℤ, pos, negsuc}
use analysis_app.Prelude.Assoc.{lookup, get_or}
use analysis_app.FamilyMap.{
  class_family, family_names, family_index, num_families, family_idx, set_at, projection_row,
  family_projection_matrix,
}

-- The names in the order of their indices.
eight_families :
    family_names ≡ "AM" ∷ "ASK" ∷ "FM" ∷ "FSK" ∷ "PROTOCOL" ∷ "PSK" ∷ "QAM" ∷ "SPECIAL" ∷ []
eight_families = refl

named_at : Option String → String → Bool
named_at none fam = false
named_at (some f) fam = str_eq f fam

-- An index that stands for a family.
valid : ℤ → String → Bool
unfolding named_at
valid (pos i) fam = named_at (get_elem? family_names i) fam
valid (negsuc n) fam = false

abbrev pub index_of : String → ℤ
index_of fam = get_or fam family_index (negsuc 0)

-- The index of a family, and the place of the family in the list of names.
abbrev pub IsIndexOf : ℤ → String → Type 0
IsIndexOf z fam = (i : ℕ) × (z ≡ pos i) × (get_elem? family_names i ≡ some fam)

named_at-some : (o : Option String) (fam : String) → named_at o fam ≡ true → o ≡ some fam
unfolding named_at
named_at-some none fam h = cc
named_at-some (some f) fam h = ap some ((eq_iff f fam).0 h)

valid-IsIndexOf : (z : ℤ) (fam : String) → valid z fam ≡ true → IsIndexOf z fam
unfolding valid
valid-IsIndexOf (pos i) fam h = (i, refl, named_at-some _ fam h)
valid-IsIndexOf (negsuc n) fam h = cc

entry_valid : String × String → Bool
entry_valid e = valid (index_of e.1) e.1

all-entry_valid : all entry_valid class_family ≡ true
unfolding entry_valid valid named_at
all-entry_valid = refl

-- A class of a table, and its index.
index_cases :
    (t : List (String × String))
    → all entry_valid t ≡ true
    → (c : String)
    → ((lookup c t ≡ none) × (index_of (get_or c t "") ≡ negsuc 0))
      ⊎ ((fam : String) × (lookup c t ≡ some fam) × IsIndexOf (index_of (get_or c t "")) fam)
unfolding entry_valid
index_cases [] h c = inl (refl, refl)
index_cases ((j, fam) ∷ t) h c = elim (Bool-cases (str_eq j c)) [
  | inl e ↦ rw e (inr (fam, refl, valid-IsIndexOf (index_of fam) fam (ground arith)))
  | inr e ↦ rw e (index_cases t (ground arith) c)
]

-- For every text: a class that has a family gets the index at which the sorted list of families has
-- that family, and any other text gets -1.
pub family_idx_lem :
    (c : String)
    → ((lookup c class_family ≡ none) × (family_idx c ≡ negsuc 0))
      ⊎ ((fam : String) × (lookup c class_family ≡ some fam) × IsIndexOf (family_idx c) fam)
unfolding family_idx
family_idx_lem c = index_cases class_family all-entry_valid c

-- The entry of a row: one at the index, and zero elsewhere.
abbrev pub is_at : ℤ → ℕ → Bool
is_at (pos i) f = i == f
is_at (negsuc n) f = false

module _ {F : Type 0} (zero_f one : F) where
  elem-zeros : (n f : ℕ) → f < n → get_elem? (replicate n zero_f) f ≡ some zero_f
  elem-zeros zero f h = absurd (omega (arith, h))
  elem-zeros (suc n) zero h = refl
  elem-zeros (suc n) (suc f) h = elem-zeros n f (omega (arith, h))

  elem-set_at :
      (n i f : ℕ)
      → f < n
      → get_elem? (set_at one i (replicate n zero_f)) f ≡ some (if i == f then one else zero_f)
  elem-set_at zero i f h = absurd (omega (arith, h))
  elem-set_at (suc n) zero zero h = refl
  elem-set_at (suc n) zero (suc f) h =
      let apart : (zero == suc f) ≡ false = ground arith in
      rw apart (elem-zeros n f (omega (arith, h)))
  elem-set_at (suc n) (suc i) zero h =
      let apart : (suc i == zero) ≡ false = ground arith in rw apart
  elem-set_at (suc n) (suc i) (suc f) h =
      let same : (suc i == suc f) ≡ (i == f) = ground arith in
      rw same (elem-set_at n i f (omega (arith, h)))

  elem-row :
      (z : ℤ) (f : ℕ)
      → f < num_families
      → get_elem? (projection_row zero_f one z) f ≡ some (if is_at z f then one else zero_f)
  elem-row (pos i) f h = elem-set_at num_families i f h
  elem-row (negsuc n) f h = elem-zeros num_families f h

  elem-map :
      {A B : Type 0} (g : A → B) (xs : List A) (k : ℕ) (x : A)
      → get_elem? xs k ≡ some x
      → get_elem? (map g xs) k ≡ some (g x)
  elem-map g [] k x h = cc
  elem-map g (y ∷ xs) zero x h = cc
  elem-map g (y ∷ xs) (suc k) x h = elem-map g xs k x h

  -- The matrix has a row for each class, and the entry of a class and a family is one where the
  -- class has the index of the family, and zero elsewhere; a class without a family has zeros only.
  pub family_projection_matrix_lem :
      (class_names : List String) (k f : ℕ) (c : String)
      → get_elem? class_names k ≡ some c
      → f < num_families
      → (row : List F) × (get_elem? (family_projection_matrix zero_f one class_names) k ≡ some row)
        × (get_elem? row f ≡ some (if is_at (family_idx c) f then one else zero_f))
        × (length (family_projection_matrix zero_f one class_names) ≡ length class_names)
  unfolding family_projection_matrix
  family_projection_matrix_lem class_names k f c at below = (
    projection_row zero_f one (family_idx c),
    elem-map (λ c. projection_row zero_f one (family_idx c)) class_names k c at,
    elem-row (family_idx c) f below,
    length-map _ class_names,
  )

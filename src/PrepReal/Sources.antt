-- ===== src/PrepReal/Sources.antt =====
-- The names of the classes: each appears once, and none is lost.
use analysis_app.Prelude.{
  ℕ, zero, suc, ◌≡◌, refl, ap, ◌∙◌, sym, inl, inr, String, true, false, some, List, [], ◌∷◌, ◌++◌,
  get_elem?, append-nil, append_assoc, All, Bool-cases,
}
use analysis_app.Prelude.Text.{str_eq, member, eq_iff, eq_refl, str_ne_sym}
use analysis_app.Prelude.Results.{ok}
use analysis_app.PrepReal.{append_new, append_all_new, index_of}

-- No text appears twice.
abbrev pub AreDistinct : List String → Type 0
AreDistinct [] = Unit
AreDistinct (n ∷ names) = (member n names ≡ false) × AreDistinct names

-- The second list begins with the first.
abbrev pub IsExtended : List String → List String → Type 0
IsExtended names longer = (more : List String) × (longer ≡ names ++ more)

pub IsExtended-refl : (names : List String) → IsExtended names names
IsExtended-refl names = ([], sym (append-nil names))

pub IsExtended-trans : (a b c : List String) → IsExtended a b → IsExtended b c → IsExtended a c
IsExtended-trans a b c (m, e) (n, d) = (m ++ n, d ∙ ap (λ t. t ++ n) e ∙ append_assoc a m n)

member-append_left :
    (c : String) (xs ys : List String) → member c xs ≡ true → member c (xs ++ ys) ≡ true
member-append_left c [] ys h = cc
member-append_left c (x ∷ xs) ys h = elim (Bool-cases (str_eq c x)) [
  | inl e ↦ rw e refl
  | inr e ↦
      let later : member c xs ≡ true = rw e at h in rw (e, member-append_left c xs ys later) refl
]

pub member-IsExtended :
    (c : String) (a b : List String) → IsExtended a b → member c a ≡ true → member c b ≡ true
member-IsExtended c a b (m, e) h = rw e (member-append_left c a m h)

member-append_last : (c : String) (xs : List String) → member c (xs ++ c ∷ []) ≡ true
member-append_last c [] = rw (eq_refl c) refl
member-append_last c (x ∷ xs) = elim (Bool-cases (str_eq c x)) [
  | inl e ↦ rw e refl
  | inr e ↦ rw (e, member-append_last c xs) refl
]

member-append_other :
    (n c : String) (xs : List String)
    → member n xs ≡ false
    → str_eq n c ≡ false
    → member n (xs ++ c ∷ []) ≡ false
member-append_other n c [] h d = rw d refl
member-append_other n c (x ∷ xs) h d = elim (Bool-cases (str_eq n x)) [
  | inl e ↦ let t : true ≡ false = rw e at h in cc
  | inr e ↦
      let later : member n xs ≡ false = rw e at h in rw (e, member-append_other n c xs later d) refl
]

AreDistinct-append :
    (names : List String) (c : String)
    → AreDistinct names
    → member c names ≡ false
    → AreDistinct (names ++ c ∷ [])
AreDistinct-append [] c h d = (refl, tt)
AreDistinct-append (n ∷ names) c (h, hs) d = elim (Bool-cases (str_eq c n)) [
  | inl e ↦ let t : true ≡ false = rw e at d in cc
  | inr e ↦
      let later : member c names ≡ false = rw e at d in
      (member-append_other n c names h (str_ne_sym c n e), AreDistinct-append names c hs later)
]

append_new_lem :
    (names : List String) (c : String)
    → AreDistinct names
    → AreDistinct (append_new names c)
      × IsExtended names (append_new names c)
      × (member c (append_new names c) ≡ true)
unfolding append_new
append_new_lem names c h = elim (Bool-cases (member c names)) [
  | inl e ↦ rw e (h, IsExtended-refl names, e)
  | inr e ↦ rw e (AreDistinct-append names c h e, (c ∷ [], refl), member-append_last c names)
]

pub append_all_new_lem :
    (names cs : List String)
    → AreDistinct names
    → AreDistinct (append_all_new names cs)
      × IsExtended names (append_all_new names cs)
      × All (λ c. member c (append_all_new names cs) ≡ true) cs
unfolding append_all_new
append_all_new_lem names [] h = (h, IsExtended-refl names, tt)
append_all_new_lem names (c ∷ cs) h =
    let (d, more, here) = append_new_lem names c h in
    let (distinct, longer, there) = append_all_new_lem (append_new names c) cs d in
    (
      distinct,
      IsExtended-trans names (append_new names c) (append_all_new (append_new names c) cs) more
          longer,
      (
        member-IsExtended c (append_new names c) (append_all_new (append_new names c) cs) longer
            here,
        there,
      ),
    )

pub index_of-named :
    (names : List String) (c : String)
    → member c names ≡ true
    → (i : ℕ) × (index_of names c ≡ ok i) × (get_elem? names i ≡ some c)
unfolding index_of
index_of-named [] c h = cc
index_of-named (n ∷ names) c h = elim (Bool-cases (str_eq n c)) [
  | inl e ↦ (zero, rw e refl, rw ((eq_iff n c).0 e) refl)
  | inr e ↦
      let apart = str_ne_sym n c e in
      let later : member c names ≡ true = rw apart at h in
      let (i, d, named) = index_of-named names c later in (suc i, rw (e, d) refl, named)
]

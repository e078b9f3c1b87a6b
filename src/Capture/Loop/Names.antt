-- ===== src/Capture/Loop/Names.antt =====
-- Labels and their indices, and the counts of the labels.
use analysis_app.Prelude.{
  ℕ, zero, suc, ◌+◌, ◌≡◌, refl, ap, inl, inr, String, false, some, List, [], ◌∷◌, ◌++◌, length,
  get_elem?, replicate, All, arith, Bool-cases, if◌then◌else◌,
}
use analysis_app.Prelude.Text.{str_eq, eq_iff, str_ne_sym}
use analysis_app.Datasets.Counts.{Counts, count_of}
use analysis_app.Capture.Loop.{Labels, find_label, add_count}

-- How often a text is in a list.
abbrev pub times_in : String → List String → ℕ
times_in l [] = 0
times_in l (t ∷ ts) = let rest = times_in l ts in if str_eq t l then suc rest else rest

pub times_in-append :
    (l : String) (xs ys : List String) → times_in l (xs ++ ys) ≡ times_in l xs + times_in l ys
times_in-append l [] ys = omega arith
times_in-append l (x ∷ xs) ys = elim (Bool-cases (str_eq x l)) [
  | inl e ↦ rw e (omega (arith, times_in-append l xs ys))
  | inr e ↦ rw e (times_in-append l xs ys)
]

pub times_in-replicate :
    (l k : String) (n : ℕ) → times_in l (replicate n k) ≡ (if str_eq k l then n else 0)
times_in-replicate l k zero = elim (Bool-cases (str_eq k l)) [
  | inl e ↦ rw e refl
  | inr e ↦ rw e refl
]
times_in-replicate l k (suc n) =
    let rest : times_in l (replicate n k) ≡ (if str_eq k l then n else 0) =
      times_in-replicate l k n in
    elim (Bool-cases (str_eq k l)) [
      | inl e ↦ let all_of : times_in l (replicate n k) ≡ n = rw e at rest in rw e (ap suc all_of)
      | inr e ↦ let none_of : times_in l (replicate n k) ≡ 0 = rw e at rest in rw e none_of
    ]

pub count_of-add_count :
    (l k : String) (n : ℕ) (c : Counts)
    → count_of l (add_count k n c) ≡ count_of l c + (if str_eq k l then n else 0)
unfolding count_of add_count
count_of-add_count l k n [] = elim (Bool-cases (str_eq k l)) [
  | inl e ↦ rw e (omega arith)
  | inr e ↦ rw e (omega arith)
]
count_of-add_count l k n ((j, m) ∷ c) = elim (Bool-cases (str_eq j k)) [
  | inl e ↦
      rw (e, ← (eq_iff j k).0 e)
        (elim (Bool-cases (str_eq j l)) [ inl d ↦ rw d refl | inr d ↦ rw d (omega arith) ])
  | inr e ↦ rw e (elim (Bool-cases (str_eq j l)) [
    | inl d ↦
        let apart : str_eq k l ≡ false = rw (← (eq_iff j l).0 d) (str_ne_sym j k e) in
        rw (d, apart) (omega arith)
    | inr d ↦ rw d (count_of-add_count l k n c)
  ])
]

pub elem-append_left :
    {A : Type 0} (xs ys : List A) (i : ℕ) (a : A)
    → get_elem? xs i ≡ some a
    → get_elem? (xs ++ ys) i ≡ some a
elem-append_left [] ys i a h = cc
elem-append_left (x ∷ xs) ys zero a h = h
elem-append_left (x ∷ xs) ys (suc i) a h = elem-append_left xs ys i a h

pub elem-append_last :
    {A : Type 0} (xs : List A) (a : A) → get_elem? (xs ++ a ∷ []) (length xs) ≡ some a
elem-append_last [] a = refl
elem-append_last (x ∷ xs) a = elem-append_last xs a

-- The indices, read in the names, are the texts.
abbrev pub AreNamed : List String → List ℕ → List String → Type 0
AreNamed names [] [] = Unit
AreNamed names [] (t ∷ ts) = ⊥
AreNamed names (y ∷ ys) [] = ⊥
AreNamed names (y ∷ ys) (t ∷ ts) = (get_elem? names y ≡ some t) × AreNamed names ys ts

pub AreNamed-more :
    (names : List String) (l : String) (ys : List ℕ) (ts : List String)
    → AreNamed names ys ts
    → AreNamed (names ++ l ∷ []) ys ts
AreNamed-more names l [] [] h = tt
AreNamed-more names l [] (t ∷ ts) h = absurd h
AreNamed-more names l (y ∷ ys) [] h = absurd h
AreNamed-more names l (y ∷ ys) (t ∷ ts) (h, hs) =
    (elem-append_left names (l ∷ []) y t h, AreNamed-more names l ys ts hs)

pub AreNamed-append :
    (names : List String) (ys : List ℕ) (ts : List String) (idx : ℕ) (l : String) (n : ℕ)
    → AreNamed names ys ts
    → get_elem? names idx ≡ some l
    → AreNamed names (ys ++ replicate n idx) (ts ++ replicate n l)
AreNamed-append names [] [] idx l zero h e = tt
AreNamed-append names [] [] idx l (suc n) h e = (e, AreNamed-append names [] [] idx l n tt e)
AreNamed-append names [] (t ∷ ts) idx l n h e = absurd h
AreNamed-append names (y ∷ ys) [] idx l n h e = absurd h
AreNamed-append names (y ∷ ys) (t ∷ ts) idx l n (h, hs) e =
    (h, AreNamed-append names ys ts idx l n hs e)

pub find_label-named :
    (names : List String) (label : String) (m : Labels) (i : ℕ)
    → All (λ e. get_elem? names e.1 ≡ some e.0) m
    → find_label label m ≡ some i
    → get_elem? names i ≡ some label
unfolding find_label
find_label-named names label [] i h e = cc
find_label-named names label ((l, k) ∷ m) i (h, hs) e = elim (Bool-cases (str_eq l label)) [
  | inl t ↦
      let same : some k ≡ some i = rw t at e in
      let this : k ≡ i = cc in rw (← this, ← (eq_iff l label).0 t) h
  | inr t ↦ find_label-named names label m i hs (rw t at e)
]

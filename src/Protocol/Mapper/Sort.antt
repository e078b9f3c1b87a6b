-- ===== src/Protocol/Mapper/Sort.antt =====
-- `list.sort(key=...)` on floats: a stable sort by insertion from the left, and what it guarantees.
use analysis_app.Prelude.{
  ℕ, zero, suc, length, take, All-In, All-take, ap, ◌≡◌, refl, ◌⊎◌, inl, inr, true, false, List, [],
  ◌∷◌, All, In, here, there, Bool-cases, if◌then◌else◌,
}
use analysis_app.Float.{Float, IsOrdered}

module _ {F : Type 0} ⦃fl : Float F⦄ {A : Type 0} (key : A → F) where
  open fl use {lt, le}

  -- Behind every element that is not greater.
  insert : A → List A → List A
  insert x [] = x ∷ []
  insert x (y ∷ ys) = if lt (key x) (key y) then x ∷ y ∷ ys else y ∷ insert x ys

  sort_onto : List A → List A → List A
  unfolding insert
  sort_onto done [] = done
  sort_onto done (x ∷ xs) = sort_onto (insert x done) xs

  unfoldable pub sort : List A → List A
  unfolding sort_onto
  sort xs = sort_onto [] xs

  -- No element is followed by one of a smaller key.
  abbrev pub IsSorted : List A → Type 0
  IsSorted [] = Unit
  IsSorted (x ∷ xs) = All (λ y. lt (key y) (key x) ≡ false) xs × IsSorted xs

  insert_before :
      (x y : A) (ys : List A) → lt (key x) (key y) ≡ true → insert x (y ∷ ys) ≡ x ∷ y ∷ ys
  unfolding insert
  insert_before x y ys h = rw h

  insert_after :
      (x y : A) (ys : List A) → lt (key x) (key y) ≡ false → insert x (y ∷ ys) ≡ y ∷ insert x ys
  unfolding insert
  insert_after x y ys h = rw h

  All-insert : (P : A → Type 0) (x : A) (ys : List A) → P x → All P ys → All P (insert x ys)
  All-insert P x [] p ps = unfold insert in (p, tt)
  All-insert P x (y ∷ ys) p (q, ps) = elim (Bool-cases (lt (key x) (key y))) [
    | inl e ↦ rw (insert_before x y ys e) (p, (q, ps))
    | inr e ↦ rw (insert_after x y ys e) (q, All-insert P x ys p ps)
  ]

  All-sort_onto :
      (P : A → Type 0) (done xs : List A) → All P done → All P xs → All P (sort_onto done xs)
  unfolding sort_onto
  All-sort_onto P done [] d t = d
  All-sort_onto P done (x ∷ xs) d (p, ps) =
      All-sort_onto P (insert x done) xs (All-insert P x done p d) ps

  -- Sorting adds no element.
  pub All-sort : (P : A → Type 0) (xs : List A) → All P xs → All P (sort xs)
  unfolding sort
  All-sort P xs h = All-sort_onto P [] xs tt h

  In-insert_new : (x : A) (ys : List A) → In x (insert x ys)
  In-insert_new x [] = unfold insert in here
  In-insert_new x (y ∷ ys) = elim (Bool-cases (lt (key x) (key y))) [
    | inl e ↦ rw (insert_before x y ys e) here
    | inr e ↦ rw (insert_after x y ys e) (there (In-insert_new x ys))
  ]

  In-insert_old : {z : A} (x : A) (ys : List A) → In z ys → In z (insert x ys)
  In-insert_old x [] m = elim m [ ]
  In-insert_old x (y ∷ ys) here = elim (Bool-cases (lt (key x) (key y))) [
    | inl e ↦ rw (insert_before x y ys e) (there here)
    | inr e ↦ rw (insert_after x y ys e) here
  ]
  In-insert_old x (y ∷ ys) (there m) = elim (Bool-cases (lt (key x) (key y))) [
    | inl e ↦ rw (insert_before x y ys e) (there (there m))
    | inr e ↦ rw (insert_after x y ys e) (there (In-insert_old x ys m))
  ]

  In-sort_done : {z : A} (done xs : List A) → In z done → In z (sort_onto done xs)
  unfolding sort_onto
  In-sort_done done [] m = m
  In-sort_done done (x ∷ xs) m = In-sort_done (insert x done) xs (In-insert_old x done m)

  In-sort_onto : {z : A} (done xs : List A) → In z xs → In z (sort_onto done xs)
  unfolding sort_onto
  In-sort_onto done [] m = elim m [ ]
  In-sort_onto done (x ∷ xs) here = In-sort_done (insert x done) xs (In-insert_new x done)
  In-sort_onto done (x ∷ xs) (there m) = In-sort_onto (insert x done) xs m

  -- Sorting loses no element.
  pub In-sort : {z : A} (xs : List A) → In z xs → In z (sort xs)
  unfolding sort
  In-sort xs m = In-sort_onto [] xs m

  module _ (laws : IsOrdered F) where
    open laws use {le_of_lt, lt_of_lt_le}

    -- What is not below y is not below anything smaller.
    not_lt_trans :
        (x y z : A)
        → lt (key x) (key y) ≡ true
        → lt (key z) (key y) ≡ false
        → lt (key z) (key x) ≡ false
    not_lt_trans x y z h k = elim (Bool-cases (lt (key z) (key x))) [
      | inl e ↦ cc (lt_of_lt_le (key z) (key x) (key y) e (le_of_lt (key x) (key y) h))
      | inr e ↦ e
    ]

    All-not_lt :
        (x y : A) (ys : List A)
        → lt (key x) (key y) ≡ true
        → All (λ z. lt (key z) (key y) ≡ false) ys
        → All (λ z. lt (key z) (key x) ≡ false) ys
    All-not_lt x y [] h a = tt
    All-not_lt x y (z ∷ ys) h (p, a) = (not_lt_trans x y z h p, All-not_lt x y ys h a)

    IsSorted-insert : (x : A) (ys : List A) → IsSorted ys → IsSorted (insert x ys)
    IsSorted-insert x [] s = unfold insert in (tt, tt)
    IsSorted-insert x (y ∷ ys) (a, s) = elim (Bool-cases (lt (key x) (key y))) [
      | inl e ↦
          rw (insert_before x y ys e)
            ((not_lt_trans x y y e (laws.lt_irrefl (key y)), All-not_lt x y ys e a), (a, s))
      | inr e ↦
          rw (insert_after x y ys e)
            (All-insert (λ z. lt (key z) (key y) ≡ false) x ys e a, IsSorted-insert x ys s)
    ]

    IsSorted-sort_onto : (done xs : List A) → IsSorted done → IsSorted (sort_onto done xs)
    unfolding sort_onto
    IsSorted-sort_onto done [] s = s
    IsSorted-sort_onto done (x ∷ xs) s =
        IsSorted-sort_onto (insert x done) xs (IsSorted-insert x done s)

    pub sort-IsSorted : (xs : List A) → IsSorted (sort xs)
    unfolding sort
    sort-IsSorted xs = IsSorted-sort_onto [] xs tt

  -- An element of a sorted list is among the first n, or these are n elements with no greater key.
  pub In-take :
      (n : ℕ) (xs : List A) (z : A)
      → IsSorted xs
      → In z xs
      → In z (take n xs)
        ⊎ ((length (take n xs) ≡ n) × All (λ y. lt (key z) (key y) ≡ false) (take n xs))
  In-take zero xs z s m = inr (refl, tt)
  In-take (suc n) [] z s m = elim m [ ]
  In-take (suc n) (x ∷ xs) z s here = inl here
  In-take (suc n) (x ∷ xs) z (a, s) (there m) = elim (In-take n xs z s m) [
    | inl early ↦ inl (there early)
    | inr (full, least) ↦
        inr (ap suc full, (All-In (λ y. lt (key y) (key x) ≡ false) xs a m, least))
  ]

  pub take-IsSorted : (n : ℕ) (xs : List A) → IsSorted xs → IsSorted (take n xs)
  take-IsSorted zero xs s = tt
  take-IsSorted (suc n) [] s = tt
  take-IsSorted (suc n) (x ∷ xs) (a, s) =
      (All-take (λ y. lt (key y) (key x) ≡ false) n xs a, take-IsSorted n xs s)

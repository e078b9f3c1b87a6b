-- ===== src/Capture/Rtl/Filled.antt =====
-- What the loop over the targets collects.
use native.Mathlib.Nat.{div-mul-le_self}
use analysis_app.Prelude.{
  ℕ, zero, suc, ◌+◌, ◌-◌, ◌*◌, ◌/◌, ◌≤◌, ◌<◌, ◌≡◌, refl, ap, ◌∙◌, inl, inr, String, Bool, true,
  false, ◌==◌, List, [], ◌∷◌, length, length-append, map, All, All-append, All-map, All-weaken,
  arith, Bool-cases, if-each, if◌then◌else◌,
}
use analysis_app.Prelude.Text.{str_eq, eq_iff, str_ne_sym}
use analysis_app.Prelude.Assoc.{get_or}
use analysis_app.Prelude.Results.{Returns}
use analysis_app.Features.Arrays.{slice, range, filter}
use analysis_app.Features.Arrays.Shapes.{length-slice, range_from-below}
use analysis_app.Float.{Float}
use analysis_app.Numpy.{Complex, Numpy}
use analysis_app.Datasets.Counts.{count_of}
use analysis_app.Datasets.Raw.{evens, odds, combined}
use analysis_app.Capture.Windows.{window, stride}
use analysis_app.Capture.Loop.{add_count}
use analysis_app.Capture.Loop.Names.{count_of-add_count}
use analysis_app.Capture.Rtl.{
  Planes, planes, Collection, slice_starts, append_to, append_all, estimate_snr, slice_windows,
}

module _ {F : Type 0} where
  -- The windows of a label.
  abbrev pub bucket_of : String → List (String × List (Planes F)) → List (Planes F)
  bucket_of label buckets = get_or label buckets []

  length-append_to :
      (l k : String) (w : Planes F) (b : List (String × List (Planes F)))
      → length (bucket_of l (append_to k w b))
        ≡ length (bucket_of l b) + (if str_eq k l then 1 else 0)
  unfolding append_to
  length-append_to l k w [] = elim (Bool-cases (str_eq k l)) [
    | inl e ↦ rw e refl
    | inr e ↦ rw e refl
  ]
  length-append_to l k w ((j, ws) ∷ b) = elim (Bool-cases (str_eq j k)) [
    | inl e ↦
        rw (e, ← (eq_iff j k).0 e)
          (elim (Bool-cases (str_eq j l)) [
            | inl d ↦ rw d (length-append ws (w ∷ []))
            | inr d ↦ rw d (omega arith)
          ])
    | inr e ↦ rw e (elim (Bool-cases (str_eq j l)) [
      | inl d ↦
          let apart : str_eq k l ≡ false = rw (← (eq_iff j l).0 d) (str_ne_sym j k e) in
          rw (d, apart) (omega arith)
      | inr d ↦ rw d (length-append_to l k w b)
    ])
  ]

  pub length-append_all :
      (l k : String) (ws : List (Planes F)) (b : List (String × List (Planes F)))
      → length (bucket_of l (append_all k ws b))
        ≡ length (bucket_of l b) + (if str_eq k l then length ws else 0)
  unfolding append_all
  length-append_all l k [] b = elim (Bool-cases (str_eq k l)) [
    | inl e ↦ rw e (omega arith)
    | inr e ↦ rw e (omega arith)
  ]
  length-append_all l k (w ∷ ws) b =
      let rest = length-append_all l k ws (append_to k w b) in
      let one = length-append_to l k w b in
      elim (Bool-cases (str_eq k l)) [
        | inl e ↦ rw e (omega (arith, rw e at rest, rw e at one))
        | inr e ↦ rw e (omega (arith, rw e at rest, rw e at one))
      ]

  -- A predicate on the windows of every bucket, each of which has one.
  abbrev pub Each : (Planes F → Type 0) → List (String × List (Planes F)) → Type 0
  Each P = All (λ e. (0 < length e.1) × All P e.1)

  Each-append_to :
      (P : Planes F → Type 0) (k : String) (w : Planes F) (b : List (String × List (Planes F)))
      → P w
      → Each P b
      → Each P (append_to k w b)
  unfolding append_to
  Each-append_to P k w [] p h = ((omega arith, (p, tt)), tt)
  Each-append_to P k w ((j, ws) ∷ b) p ((n, h), hs) = elim (Bool-cases (str_eq j k)) [
    | inl e ↦
        rw e ((omega (arith, length-append ws (w ∷ [])), All-append P ws (w ∷ []) h (p, tt)), hs)
    | inr e ↦ rw e ((n, h), Each-append_to P k w b p hs)
  ]

  pub Each-append_all :
      (P : Planes F → Type 0) (k : String) (ws : List (Planes F))
      (b : List (String × List (Planes F)))
      → All P ws
      → Each P b
      → Each P (append_all k ws b)
  unfolding append_all
  Each-append_all P k [] b ps h = h
  Each-append_all P k (w ∷ ws) b (p, ps) h =
      Each-append_all P k ws (append_to k w b) ps (Each-append_to P k w b p h)

All-filter :
    {A : Type 0} (P : A → Type 0) (p : A → Bool) (xs : List A)
    → All P xs
    → All (λ x. P x × (p x ≡ true)) (filter p xs)
All-filter P p [] h = tt
All-filter P p (x ∷ xs) (h, hs) =
    if-each (All (λ y. P y × (p y ≡ true))) (p x) (λ e. ((h, e), All-filter P p xs hs))
      (λ e. All-filter P p xs hs)

slice_starts_below : (n : ℕ) → All (λ i. i + window ≤ n) (slice_starts n)
slice_starts_below n =
    let count : ℕ = (n + 1 - window + (stride - 1)) / stride in
    let whole : count * stride ≤ n + 1 - window + (stride - 1) =
      div-mul-le_self (n + 1 - window + (stride - 1)) stride in
    All-map (λ i. i + window ≤ n) (λ k. k * stride) (range count)
      (All-weaken (λ k. k < 0 + count) (λ k. k * stride + window ≤ n) (range count)
        (λ k h. omega (arith, h, whole)) (range_from-below 0 count))

module _ {F : Type 0} where
  pub evens-odds : (n : ℕ) (xs : List F) → length xs ≡ n * 2 → length (evens xs) ≡ length (odds xs)
  evens-odds n [] h = refl
  evens-odds zero (x ∷ []) h = absurd (omega (arith, h))
  evens-odds (suc n) (x ∷ []) h = absurd (omega (arith, h))
  evens-odds zero (x ∷ (y ∷ xs)) h = absurd (omega (arith, h))
  evens-odds (suc n) (x ∷ (y ∷ xs)) h = ap suc (evens-odds n xs (omega (arith, h)))

  pub Returns-combined : (is qs : List F) → length is ≡ length qs → Returns (combined is qs)
  unfolding combined
  Returns-combined [] [] h = (_, refl)
  Returns-combined [] (q ∷ qs) h = absurd (omega (arith, h))
  Returns-combined (i ∷ is) [] h = absurd (omega (arith, h))
  Returns-combined (i ∷ is) (q ∷ []) h = (_, refl)
  Returns-combined (i ∷ []) (q ∷ (r ∷ qs)) h = absurd (omega (arith, h))
  Returns-combined (i ∷ (j ∷ is)) (q ∷ (r ∷ qs)) h =
      let test : (length is == length qs) ≡ true = ground (arith, h) in rw test (_, refl)

module _ {F : Type 0} ⦃fl : Float F⦄ ⦃np : Numpy F⦄ (snr_min : F) where
  -- A window of the full length, that is loud enough.
  abbrev pub IsLoud : Planes F → Type 0
  IsLoud w =
      (v : List (Complex F)) × (w ≡ planes v)
      × (length v ≡ window)
      × (fl.le snr_min (estimate_snr v) ≡ true)

  pub slice_windows-IsLoud :
      (iq : List (Complex F)) → All (λ v. IsLoud (planes v)) (slice_windows iq snr_min)
  unfolding slice_windows
  slice_windows-IsLoud iq =
      let IsWhole : List (Complex F) → Type 0 = λ v. length v ≡ window in
      let cut : ℕ → List (Complex F) = λ start. slice start (start + window) iq in
      let starts = slice_starts (length iq) in
      let whole : All IsWhole (map cut starts) = All-map IsWhole cut starts (
        All-weaken (λ i. i + window ≤ length iq) (λ i. IsWhole (cut i)) starts
          (λ i h. length-slice i (i + window) iq h ∙ omega arith)
          (slice_starts_below (length iq))) in
      let loud = All-filter IsWhole (λ w. fl.le snr_min (estimate_snr w)) (map cut starts) whole in
      All-weaken (λ v. IsWhole v × (fl.le snr_min (estimate_snr v) ≡ true)) (λ v. IsLoud (planes v))
        _ (λ v h. (v, refl, h.0, h.1)) loud

  module _ (max_per_class : ℕ) where
    -- What the loop keeps: every bucket has windows, all of the full length and loud enough; each label
    -- has as many as its count says, and no more than the limit.
    abbrev pub IsCapped : Collection F → Type 0
    IsCapped s =
        Each IsLoud s.buckets
        × ((l : String)
            → (length (bucket_of l s.buckets) ≡ count_of l s.counts)
              × (count_of l s.counts ≤ max_per_class))

    pub seen-IsCapped :
        (label : String) (s : Collection F)
        → IsCapped s
        → IsCapped (record s { counts = add_count label 0 s.counts })
    seen-IsCapped label s (loud, counted) = (
      loud,
      λ l.
          let (same, few) = counted l in
          let added = count_of-add_count l label 0 s.counts in
          if-each
            (λ n.
              count_of l (add_count label 0 s.counts) ≡ count_of l s.counts + n
              → (length (bucket_of l s.buckets) ≡ count_of l (add_count label 0 s.counts))
                × (count_of l (add_count label 0 s.counts) ≤ max_per_class))
            (str_eq label l) (λ e h. omega (arith, same, few, h))
            (λ e h. omega (arith, same, few, h)) added,
    )

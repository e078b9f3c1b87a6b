-- ===== src/Datasets/Hub/Capped.antt =====
-- What `load_hf_dataset` keeps.
use analysis_app.Prelude.{
  ℕ, zero, suc, ◌+◌, ◌≤◌, ◌<◌, max, ◌≡◌, refl, ap, ◌∙◌, inl, inr, String, Bool, true, false, some,
  Option-cases, List, [], ◌∷◌, ◌++◌, length, length-append, All, leb, arith, ◌==◌, ◌%◌, Bool-cases,
  if◌then◌else◌,
}
use analysis_app.Prelude.Text.{str_eq, eq_iff}
use analysis_app.Prelude.Results.{ok, Returns}
use analysis_app.Float.{Float}
use analysis_app.Numpy.{Complex}
use analysis_app.Datasets.{IqSample}
use analysis_app.Datasets.Raw.{combined, iq_value, evens, odds}
use analysis_app.Datasets.Counts.{Counts, count_of, bump, count_of-bump}
use analysis_app.Datasets.Hub.{
  flat, HubRow, decode_hub, hub_sample, skipped, hub_loop, load_hf_dataset,
}

-- How many samples have a label.
abbrev pub labelled : {F : Type 0} → String → List (IqSample F) → ℕ
labelled l [] = 0
labelled l (s ∷ ss) = (if str_eq s.ground_truth l then 1 else 0) + labelled l ss

-- The segment indices count on from a number.
abbrev pub AreNumbered : {F : Type 0} → ℕ → List (IqSample F) → Type 0
AreNumbered n [] = Unit
AreNumbered n (s ∷ ss) = (s.segment_idx ≡ n) × AreNumbered (n + 1) ss

passes : (b c : Bool) → (if b then true else c) ≡ false → (b ≡ false) × (c ≡ false)
passes true c h = cc
passes false c h = (refl, h)

module _ {F : Type 0} ⦃fl : Float F⦄ (dataset_id split : String) (sample_rate snr_min_db : F)
    (max_per_class : ℕ) where
  -- What holds of the samples that the loop adds to the counts so far.
  record IsKept (counts : Counts) (n : ℕ) (ss : List (IqSample F)) : Type 0 where
    few : (l : String) → labelled l ss + count_of l counts ≤ max (count_of l counts) max_per_class
    loud : All (λ s. fl.lt s.snr_db snr_min_db ≡ false) ss
    numbered : AreNumbered n ss

  nothing-IsKept : (counts : Counts) (n : ℕ) → IsKept counts n []
  nothing-IsKept counts n = record { few = λ l. omega arith; loud = tt; numbered = tt }

  one-IsKept :
      (counts : Counts) (n : ℕ) (row : HubRow F) (iq : List (Complex F)) (rest : List (IqSample F))
      → skipped dataset_id split sample_rate snr_min_db max_per_class counts row ≡ false
      → IsKept (bump row.label counts) (n + 1) rest
      → IsKept counts n
          (hub_sample dataset_id split sample_rate snr_min_db max_per_class row n iq ∷ rest)
  one-IsKept counts n row iq rest go k =
      let (loud, full) =
        passes (fl.lt row.snr snr_min_db) (leb max_per_class (count_of row.label counts)) go in
      let room : count_of row.label counts < max_per_class = ground (arith, full) in
      record {
        few = λ l.
            let bumped = count_of-bump row.label l counts in
            let before = k.few l in
            elim (Bool-cases (str_eq row.label l)) [
              | inl e ↦
                  let up : count_of l (bump row.label counts) ≡ suc (count_of row.label counts) =
                    bumped ∙ rw e in
                  let same : count_of row.label counts ≡ count_of l counts =
                    ap (λ m. count_of m counts) ((eq_iff row.label l).0 e) in
                  rw e (omega (arith, before, up, same, room))
              | inr e ↦
                  let kept : count_of l (bump row.label counts) ≡ count_of l counts =
                    bumped ∙ rw e in
                  rw e (omega (arith, before, kept))
            ];
        loud = (loud, k.loud);
        numbered = (refl, k.numbered);
      }

  hub_loop-IsKept :
      (counts : Counts) (n : ℕ) (rows : List (HubRow F))
      → All (λ row. Returns (decode_hub row.raw)) rows
      → (ss : List (IqSample F)) × (hub_loop dataset_id split sample_rate snr_min_db max_per_class
            counts n rows
          ≡ ok ss)
        × IsKept counts n ss
  unfolding hub_loop
  hub_loop-IsKept counts n [] d = ([], refl, nothing-IsKept counts n)
  hub_loop-IsKept counts n (row ∷ rows) ((value, e), d) =
      let (ss, es, ks) = hub_loop-IsKept counts n rows d in
      let (ts, et, kt) = hub_loop-IsKept (bump row.label counts) (n + 1) rows d in
      elim (Bool-cases (skipped dataset_id split sample_rate snr_min_db max_per_class counts row)) [
        | inl skip ↦ rw skip (ss, es, ks)
        | inr go ↦
            rw (go, e)
              (elim (Option-cases value) [
                | inl none_there ↦ rw none_there (ss, es, ks)
                | inr (iq, there) ↦ rw (there, et) (_, refl, one-IsKept counts n row iq ts go kt)
              ])
      ]

  -- If no row holds a value that cannot be decoded without an exception, `load_hf_dataset` returns
  -- its samples: of no label more than the cap, none with an SNR below the threshold, and with their
  -- places in the result as segment indices.
  pub load_hf_dataset_lem :
      (rows : List (HubRow F))
      → All (λ row. Returns (decode_hub row.raw)) rows
      → (ss : List (IqSample F)) × (load_hf_dataset dataset_id split sample_rate snr_min_db
            max_per_class rows
          ≡ ok ss)
        × ((l : String) → labelled l ss ≤ max_per_class)
        × All (λ s. fl.lt s.snr_db snr_min_db ≡ false) ss
        × AreNumbered 0 ss
  unfolding load_hf_dataset count_of
  load_hf_dataset_lem rows d =
      let (ss, e, k) = hub_loop-IsKept [] 0 rows d in
      (ss, e, λ l. omega (arith, k.few l), k.loud, k.numbered)

module _ {F : Type 0} where
  evens-odds : (n : ℕ) (xs : List F) → length xs ≡ n + n → length (evens xs) ≡ length (odds xs)
  evens-odds n [] h = refl
  evens-odds zero (x ∷ []) h = absurd (omega (arith, h))
  evens-odds (suc n) (x ∷ []) h = absurd (omega (arith, h))
  evens-odds zero (x ∷ (y ∷ xs)) h = absurd (omega (arith, h))
  evens-odds (suc n) (x ∷ (y ∷ xs)) h = ap suc (evens-odds n xs (omega (arith, h)))

  combined_even :
      (i q : F) (n : ℕ) (rest : List F)
      → length rest ≡ suc n + suc n
      → (iq : List (Complex F)) × (combined (i ∷ evens rest) (q ∷ odds rest)
          ≡ ok (iq_value i q ∷ iq))
  unfolding combined
  combined_even i q n [] h = absurd (omega (arith, h))
  combined_even i q n (x ∷ []) h = absurd (omega (arith, h))
  combined_even i q n (x ∷ (y ∷ rest)) h =
      let same = evens-odds n rest (omega (arith, h)) in
      let test : (length (evens rest) == length (odds rest)) ≡ true = ground (arith, same) in
      rw test (_, refl)

  -- Two channels as the rows of one array, which `ravel` puts one after the other, are not decoded as
  -- channels: for the same number of values in each, of at least two, the first sample is made of the
  -- first two values of the first channel.
  pub decode_hub_two_rows :
      (i₀ i₁ : F) (is qs : List F)
      → length qs ≡ suc (suc (length is))
      → (iq : List (Complex F)) × (decode_hub (flat ((i₀ ∷ (i₁ ∷ is)) ++ qs))
          ≡ ok (some (iq_value i₀ i₁ ∷ iq)))
  unfolding decode_hub combined
  decode_hub_two_rows i₀ i₁ is qs h =
      let rest : length (is ++ qs) ≡ suc (length is) + suc (length is) =
        omega (arith, length-append is qs, h) in
      let even : (suc (suc (length (is ++ qs))) % 2 == 0) ≡ true = ground (arith, rest) in
      let (iq, e) = combined_even i₀ i₁ (length is) (is ++ qs) rest in rw (even, e) (iq, refl)

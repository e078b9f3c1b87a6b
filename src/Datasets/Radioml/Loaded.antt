-- ===== src/Datasets/Radioml/Loaded.antt =====
-- What `load_radioml_2016` loads.
use analysis_app.Prelude.{
  ℕ, suc, ◌+◌, ◌≡◌, String, refl, inl, inr, Bool, true, false, Option, none, some, List, [], ◌∷◌,
  ◌++◌, length, take, All, All-append, All-take, arith, Bool-cases, ◌==◌,
}
use analysis_app.Prelude.Results.{ok, raised}
use analysis_app.Float.{Float}
use analysis_app.Numpy.{Complex}
use analysis_app.Features.Arrays.Shapes.{length-zip_with}
use analysis_app.Datasets.{IqSample}
use analysis_app.Datasets.Raw.{combined, iq_value}
use analysis_app.Datasets.Radioml.{Keyed, examples_2016, of_key, of_keys, load_radioml_2016}

-- An example of n values in each channel, n at least 2.
abbrev pub IsExample : {F : Type 0} → ℕ → List F × List F → Type 0
IsExample n (is, qs) = (length is ≡ suc (suc n)) × (length qs ≡ suc (suc n))

combined_equal :
    {F : Type 0} (n : ℕ) (is qs : List F)
    → IsExample n (is, qs)
    → (iq : List (Complex F)) × (combined is qs ≡ ok iq) × (length iq ≡ suc (suc n))
unfolding combined
combined_equal n [] qs (h, k) = absurd (omega (arith, h))
combined_equal n (i ∷ []) qs (h, k) = absurd (omega (arith, h))
combined_equal n (i ∷ (j ∷ is)) [] (h, k) = absurd (omega (arith, k))
combined_equal n (i ∷ (j ∷ is)) (q ∷ []) (h, k) = absurd (omega (arith, k))
combined_equal n (i ∷ (j ∷ is)) (q ∷ (r ∷ qs)) (h, k) =
    let test : (length is == length qs) ≡ true = ground (arith, h, k) in
    rw test (_, refl, omega (arith, h, k, length-zip_with iq_value (i ∷ (j ∷ is)) (q ∷ (r ∷ qs))))

module _ {F : Type 0} ⦃fl : Float F⦄ (path : String) (snr_min_db : F) (max_per_class : ℕ)
    (n : ℕ) where
  -- A loaded sample: of the length of the examples, and with an SNR that is not below the minimum.
  abbrev pub IsLoaded : IqSample F → Type 0
  IsLoaded s = (length s.iq ≡ suc (suc n)) × (fl.lt s.snr_db snr_min_db ≡ false)

  examples-IsLoaded :
      (mod_name : String) (snr : F) (i : ℕ) (arrays : List (List F × List F))
      → fl.lt snr snr_min_db ≡ false
      → All (IsExample n) arrays
      → (ss : List (IqSample F)) × (examples_2016 path snr_min_db max_per_class mod_name snr i
            arrays
          ≡ ok ss)
        × All IsLoaded ss
  examples-IsLoaded mod_name snr i [] loud h = ([], refl, tt)
  examples-IsLoaded mod_name snr i ((is, qs) ∷ arrays) loud (e, h) =
      let (iq, e1, m) = combined_equal n is qs e in
      let (rest, e2, all_rest) = examples-IsLoaded mod_name snr (i + 1) arrays loud h in
      rw (e1, e2) (_, refl, ((m, loud), all_rest))

  of_key-IsLoaded :
      (key : Option (String × F)) (arrays : List (List F × List F))
      → All (IsExample n) arrays
      → (ss : List (IqSample F)) × (of_key path snr_min_db max_per_class key arrays ≡ ok ss)
        × All IsLoaded ss
  of_key-IsLoaded none arrays h = ([], refl, tt)
  of_key-IsLoaded (some (mod_name, snr)) arrays h = elim (Bool-cases (fl.lt snr snr_min_db)) [
    | inl e ↦ rw e ([], refl, tt)
    | inr e ↦
        let found =
          examples-IsLoaded mod_name snr 0 (take max_per_class arrays) e
            (All-take (IsExample n) max_per_class arrays h) in
        rw e found
  ]

  of_keys-IsLoaded :
      (file : List (Keyed F))
      → All (λ k. All (IsExample n) k.examples) file
      → (ss : List (IqSample F)) × (of_keys path snr_min_db max_per_class file ≡ ok ss)
        × All IsLoaded ss
  unfolding of_keys
  of_keys-IsLoaded [] h = ([], refl, tt)
  of_keys-IsLoaded (k ∷ ks) (h, hs) =
      let (first, e1, l1) = of_key-IsLoaded k.key k.examples h in
      let (rest, e2, l2) = of_keys-IsLoaded ks hs in
      rw (e1, e2) (first ++ rest, refl, All-append IsLoaded first rest l1 l2)

  -- From a file that is there, whose examples have the same number of values in both channels, at
  -- least two, `load_radioml_2016` returns samples: each of that length, and none with an SNR below
  -- the threshold. Without the library or the file it raises.
  pub load_radioml_2016_lem :
      (file : List (Keyed F))
      → All (λ k. All (IsExample n) k.examples) file
      → ((ss : List (IqSample F)) × (load_radioml_2016 path snr_min_db max_per_class true true file
            ≡ ok ss)
          × All IsLoaded ss)
        × ((b : Bool)
            → (e : String) × (load_radioml_2016 path snr_min_db max_per_class false b file
                ≡ raised e))
        × ((e : String) × (load_radioml_2016 path snr_min_db max_per_class true false file
              ≡ raised e))
  unfolding load_radioml_2016
  load_radioml_2016_lem file h = (of_keys-IsLoaded file h, λ b. (_, refl), (_, refl))

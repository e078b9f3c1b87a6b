-- ===== src/Datasets/Synthetic/Counted.antt =====
-- The samples that are generated, and their labels.
use analysis_app.Prelude.{
  ℕ, zero, suc, ◌+◌, ◌<◌, ◌≡◌, refl, ap, ◌∙◌, inl, inr, String, Option, none, some, List, [], ◌∷◌,
  ◌++◌, length, map, replicate, All, arith, Bool-cases,
}
use analysis_app.Prelude.Text.{str_eq}
use analysis_app.Prelude.Assoc.{lookup}
use analysis_app.Prelude.Results.{Result, ok}
use analysis_app.Features.Arrays.Chunks.{concat_all}
use analysis_app.Float.{Float}
use analysis_app.Numpy.{Complex, Numpy, IsShaped}
use analysis_app.Datasets.{IqSample}
use analysis_app.Datasets.Generators.{Draws, Tools, Kind}
use analysis_app.Datasets.Synthetic.{
  mods_or, synth_generators, synth_sample, synth_bucket, synth_snrs, synth_mod, synth_mods,
  generate_synthetic,
}
use analysis_app.Datasets.Generators.Lengths.{IsDrawn, IsKind, gen_kind-Gives, length-awgn}

-- What a table finds has the property of its entries.
lookup-All :
    {V : Type 0} (P : V → Type 0) (k : String) (t : List (String × V)) (v : V)
    → All (λ e. P e.1) t
    → lookup k t ≡ some v
    → P v
lookup-All P k [] v h e = cc
lookup-All P k ((j, w) ∷ t) v (h, hs) e = elim (Bool-cases (str_eq j k)) [
  | inl d ↦ let same : some w ≡ some v = rw d at e in let here : w ≡ v = cc in rw (← here) h
  | inr d ↦ lookup-All P k t v hs (rw d at e)
]

module _ {F : Type 0} ⦃fl : Float F⦄ ⦃np : Numpy F⦄ where
  -- The label and the SNR of each sample that is asked for: for each known modulation and each SNR.
  abbrev pub keys_of_mod : ℕ → List F → String → Option (Kind F × F) → List (String × F)
  keys_of_mod n_per_class snrs m none = []
  keys_of_mod n_per_class snrs m (some g) =
      concat_all (map (λ snr. replicate n_per_class (m, snr)) snrs)

  abbrev pub keys_of : ℕ → List F → List String → List (String × F)
  keys_of n_per_class snrs mods =
      concat_all (map (λ m. keys_of_mod n_per_class snrs m (lookup m synth_generators)) mods)

  -- Samples of a length, numbered from a number on, with labels and SNRs.
  abbrev pub AreSamples : ℕ → ℕ → List (String × F) → List (IqSample F) → Type 0
  AreSamples n idx [] [] = Unit
  AreSamples n idx [] (s ∷ ss) = ⊥
  AreSamples n idx (k ∷ ks) [] = ⊥
  AreSamples n idx (k ∷ ks) (s ∷ ss) =
      ((s.ground_truth ≡ k.0) × (s.snr_db ≡ k.1) × (s.segment_idx ≡ idx) × (length s.iq ≡ n))
      × AreSamples n (suc idx) ks ss

  length-AreSamples :
      (n idx : ℕ) (ks : List (String × F)) (ss : List (IqSample F))
      → AreSamples n idx ks ss
      → length ss ≡ length ks
  length-AreSamples n idx [] [] h = refl
  length-AreSamples n idx [] (s ∷ ss) h = absurd h
  length-AreSamples n idx (k ∷ ks) [] h = absurd h
  length-AreSamples n idx (k ∷ ks) (s ∷ ss) (h, hs) =
      ap suc (length-AreSamples n (suc idx) ks ss hs)

  append-AreSamples :
      (n idx : ℕ) (ks ls : List (String × F)) (ss ts : List (IqSample F))
      → AreSamples n idx ks ss
      → AreSamples n (idx + length ss) ls ts
      → AreSamples n idx (ks ++ ls) (ss ++ ts)
  append-AreSamples n idx [] ls [] ts h k = let z : idx + 0 ≡ idx = omega arith in rw z at k
  append-AreSamples n idx [] ls (s ∷ ss) ts h k = absurd h
  append-AreSamples n idx (j ∷ ks) ls [] ts h k = absurd h
  append-AreSamples n idx (j ∷ ks) ls (s ∷ ss) ts (h, hs) k =
      let z : idx + suc (length ss) ≡ suc idx + length ss = omega arith in
      (h, append-AreSamples n (suc idx) ks ls ss ts hs (rw z at k))

  module _ (shapes : IsShaped F) (tools : Tools F)
      (length-ifft : (xs : List (Complex F)) → length (tools.ifft xs) ≡ length xs)
      (some_sweep : 0
        < tools.floor (fl.mul (fl.div (fl.lit 500000 0) (fl.lit 125000 0)) (fl.lit 512 0)))
      (draws : ℕ → Draws F) (drawn : (idx : ℕ) → IsDrawn F (draws idx)) (n : ℕ) (pos : 0 < n) where
    -- Samples from a number on, of some labels and SNRs.
    abbrev Makes : ℕ → List (String × F) → Result (List (IqSample F)) → Type 0
    Makes idx ks m = (ss : List (IqSample F)) × (m ≡ ok ss) × AreSamples n idx ks ss

    abbrev IsEntry : Kind F × F → Type 0
    IsEntry g = IsKind tools g.1 g.0

    bucket-Makes :
        (m : String) (g : Kind F × F) (snr : F) (idx count : ℕ)
        → IsEntry g
        → Makes idx (replicate count (m, snr)) (synth_bucket tools draws n m g.0 g.1 snr idx count)
    unfolding synth_bucket synth_sample
    bucket-Makes m g snr idx zero h = ([], refl, tt)
    bucket-Makes m g snr idx (suc count) h =
        let (iq, e, l) =
          gen_kind-Gives shapes tools length-ifft (draws idx) (drawn idx) g.0 g.1 n pos h in
        let noisy = length-awgn shapes tools length-ifft (draws idx) (drawn idx) iq snr ∙ l in
        let z : idx + 1 ≡ suc idx = omega arith in
        let (ss, d, hs) = bucket-Makes m g snr (suc idx) count h in
        rw (e, z, d) (_, refl, ((refl, refl, refl, noisy), hs))

    snrs-Makes :
        (n_per_class : ℕ) (m : String) (g : Kind F × F) (idx : ℕ) (snrs : List F)
        → IsEntry g
        → Makes idx
            (concat_all (map (λ snr. replicate n_per_class (m, snr)) snrs))
            (synth_snrs tools draws n n_per_class m g.0 g.1 idx snrs)
    unfolding synth_snrs
    snrs-Makes n_per_class m g idx [] h = ([], refl, tt)
    snrs-Makes n_per_class m g idx (snr ∷ snrs) h =
        let (ss, e, k) = bucket-Makes m g snr idx n_per_class h in
        let (ts, d, l) = snrs-Makes n_per_class m g (idx + length ss) snrs h in
        rw (e, d) (ss ++ ts, refl, append-AreSamples n idx _ _ ss ts k l)

    All-IsEntry : All (λ e. IsEntry e.1) synth_generators
    All-IsEntry = omega (arith, some_sweep)

    mod-Makes :
        (n_per_class : ℕ) (snrs : List F) (m : String) (o : Option (Kind F × F)) (idx : ℕ)
        → lookup m synth_generators ≡ o
        → Makes idx
            (keys_of_mod n_per_class snrs m o)
            (synth_mod tools draws n n_per_class snrs m o idx)
    unfolding synth_mod
    mod-Makes n_per_class snrs m none idx e = ([], refl, tt)
    mod-Makes n_per_class snrs m (some g) idx e =
        snrs-Makes n_per_class m g idx snrs (lookup-All IsEntry m synth_generators g All-IsEntry e)

    mods-Makes :
        (n_per_class : ℕ) (snrs : List F) (mods : List String) (idx : ℕ)
        → Makes idx
            (keys_of n_per_class snrs mods)
            (synth_mods tools draws n n_per_class snrs mods idx)
    unfolding synth_mods
    mods-Makes n_per_class snrs [] idx = ([], refl, tt)
    mods-Makes n_per_class snrs (m ∷ mods) idx =
        let (ss, e, k) = mod-Makes n_per_class snrs m (lookup m synth_generators) idx refl in
        let (ts, d, l) = mods-Makes n_per_class snrs mods (idx + length ss) in
        rw (e, d) (ss ++ ts, refl, append-AreSamples n idx _ _ ss ts k l)

    -- For draws of the right length, a sweep of CSS that is not empty and a length above 0:
    -- `generate_synthetic` returns, for each known modulation and then each SNR, as many samples as asked
    -- for; each has its label and SNR, the length, and its place in the result as its segment index. Unknown
    -- modulations are left out, and all modulations are taken where none or an empty list is given.
    pub generate_synthetic_lem :
        (n_per_class : ℕ) (snrs : List F) (modulations : Option (List String))
        → (ss : List (IqSample F)) × (generate_synthetic tools draws n n_per_class snrs modulations
            ≡ ok ss)
          × AreSamples n 0 (keys_of n_per_class snrs (mods_or modulations)) ss
    unfolding generate_synthetic
    generate_synthetic_lem n_per_class snrs modulations =
        mods-Makes n_per_class snrs (mods_or modulations) 0

-- ===== src/Augment/Copied.antt =====
-- What a data set is augmented with.
use analysis_app.Prelude.{
  ℕ, suc, ◌+◌, ◌^◌, ◌≤◌, ◌<◌, ◌≡◌, refl, ap, ◌∙◌, true, false, ◌==◌, some, List, [], ◌∷◌, length,
  length-map, map, replicate, All, All-map, All-weaken, arith, if-both,
}
use analysis_app.Prelude.Results.{ok, each}
use analysis_app.Features.Arrays.{range, zip_with}
use analysis_app.Features.Arrays.Shapes.{
  Returns-index, index-All, length-range_from, length-zip_with,
}
use analysis_app.Features.Arrays.Chunks.{concat_all}
use analysis_app.Float.{Float}
use analysis_app.Numpy.{Complex, Numpy, IsShaped}
use analysis_app.Datasets.Raw.{iq_value}
use analysis_app.Datasets.Npz.{Npz}
use analysis_app.Profiles.{ImpairmentConfig, ImpairmentProfile, rtl_sdr, profiles}
use analysis_app.Impairments.{Channel}
use analysis_app.Impairments.Stages.{IsSound, IsUsable, add_impairments_lem, profiles-IsUsable}
use analysis_app.Augment.{
  augment_profiles, AugmentDraws, fitted, unit_iq, impaired_sample, copy_loop, impaired_copy,
  augment,
}

fitted_self : {F : Type 0} (l : ℕ) (vs : List F) → length vs ≡ l → fitted l vs ≡ ok vs
unfolding fitted
fitted_self l [] h = let test : (0 == l) ≡ true = ground (arith, h) in rw test
fitted_self l (v ∷ []) h = rw (← h) refl
fitted_self l (v ∷ (w ∷ vs)) h =
    let test : (suc (suc (length vs)) == l) ≡ true = ground (arith, h) in rw test

-- What the generator documents: as many places as asked for, of one of the five profiles, and draws of
-- the right length.
pub record AreDraws (F : Type 0) ⦃fl : Float F⦄ ⦃np : Numpy F⦄ (draws : AugmentDraws F)
    : Type 0 where
  pub length-chosen : (c n : ℕ) → length (draws.chosen c n) ≡ n
  pub chosen_below : (c n : ℕ) → All (λ k. k < 5) (draws.chosen c n)
  pub channel-IsSound : (c i : ℕ) → IsSound F (draws.channel c i)

-- Both channels of a sample have that many values.
abbrev pub HasLength : {F : Type 0} → ℕ → List F × List F → Type 0
HasLength l x = (length x.0 ≡ l) × (length x.1 ≡ l)

module _ {F : Type 0} ⦃fl : Float F⦄ ⦃np : Numpy F⦄ (shapes : IsShaped F)
    (rate : fl.eq (fl.lit 1000000 0) (fl.lit 0 0) ≡ false) (l : ℕ) (few : l ≤ 2 ^ 53) where
  length-unit_iq : (iq : List (Complex F)) → length (unit_iq iq) ≡ length iq
  unfolding unit_iq
  length-unit_iq iq =
      if-both (λ (v : List (Complex F)). length v ≡ length iq) _ (length-map _ iq) refl

  few_values :
      (is qs : List F) → HasLength l (is, qs) → length (zip_with (iq_value {F = F}) is qs) ≤ 2 ^ 53
  few_values is qs (n, m) = omega (arith, n, few, length-zip_with (iq_value {F = F}) is qs)

  sample-HasLength :
      (ch : Channel F) (jitter : F) (profile : ImpairmentProfile) (x : List F × List F)
      → IsSound F ch
      → HasLength l x
      → (s : (List F × List F) × F) × (impaired_sample ch jitter profile x ≡ ok s) × HasLength l s.0
  unfolding impaired_sample
  sample-HasLength ch jitter profile (is, qs) sound (n, m) =
      let cfg : ImpairmentConfig F = record (profiles profile) {
        snr_db = fl.add (profiles profile).snr_db jitter;
      } in
      let of_profile = profiles-IsUsable ch shapes sound profile in
      let usable : IsUsable F ch cfg = record {
        delays = of_profile.delays;
        imbalance = of_profile.imbalance;
        jitter = of_profile.jitter;
      } in
      let (iq_imp, e, k) =
        add_impairments_lem ch shapes sound (zip_with iq_value is qs) (fl.lit 1000000 0) (some cfg)
          rtl_sdr rate (few_values is qs (n, m)) usable in
      let same : length (unit_iq iq_imp) ≡ l =
        length-unit_iq iq_imp ∙ k ∙ omega (arith, n, m, length-zip_with (iq_value {F = F}) is qs) in
      let re = length-map (λ (v : Complex F). v.re) (unit_iq iq_imp) ∙ same in
      let im = length-map (λ (v : Complex F). v.im) (unit_iq iq_imp) ∙ same in
      rw (e, n, fitted_self l _ re, fitted_self l _ im) (_, refl, (re, im))

  module _ (draws : AugmentDraws F) (are : AreDraws F draws) where
    -- A copy: as many samples as there are, and all of the length.
    abbrev IsCopy : ℕ → List ((List F × List F) × F) → Type 0
    IsCopy n ss = (length ss ≡ n) × All (λ s. HasLength l s.0) ss

    loop-IsCopy :
        (c : ℕ) (chosen : List ℕ) (i : ℕ) (xs : List (List F × List F))
        → i + length xs ≡ length chosen
        → All (λ k. k < 5) chosen
        → All (HasLength l) xs
        → (ss : List ((List F × List F) × F)) × (copy_loop draws c chosen i xs ≡ ok ss)
          × IsCopy (length xs) ss
    unfolding copy_loop
    loop-IsCopy c chosen i [] n below h = ([], refl, (refl, tt))
    loop-IsCopy c chosen i (x ∷ xs) n below (h, hs) =
        let (k, e, b) = index-All (λ k. k < 5) chosen i (omega (arith, n)) below in
        let (profile, d) = Returns-index augment_profiles k b in
        let (s, f, m) =
          sample-HasLength (draws.channel c i) (draws.snr_jitter c i) profile x
            (are.channel-IsSound c i) h in
        let (ss, g, ms) = loop-IsCopy c chosen (suc i) xs (omega (arith, n)) below hs in
        rw (e, d, f, g) (s ∷ ss, refl, (ap suc ms.0, (m, ms.1)))

    copies-IsCopy :
        (xs : List (List F × List F))
        → All (HasLength l) xs
        → (cs : List ℕ)
        → (made : List (List ((List F × List F) × F))) × (each (impaired_copy draws xs) cs
            ≡ ok made)
          × (length made ≡ length cs)
          × All (IsCopy (length xs)) made
    unfolding impaired_copy
    copies-IsCopy xs h [] = ([], refl, refl, tt)
    copies-IsCopy xs h (c ∷ cs) =
        let drawn = draws.chosen c (length xs) in
        let (ss, e, k) =
          loop-IsCopy c drawn 0 xs (omega (arith, are.length-chosen c (length xs)))
            (are.chosen_below c (length xs)) h in
        let (made, d, n, ks) = copies-IsCopy xs h cs in
        (ss ∷ made, rw (e, d) refl, ap suc n, (k, ks))

    -- With draws of the right length, for a data set whose samples have one length, at most 2^53, in both channels: `augment`
    -- returns. It keeps the classes; its samples are those of the data set and then those of each copy,
    -- as many in each copy as in the data set and all of that length; and its labels are those of the data
    -- set, repeated for each copy.
    pub augment_lem :
        (d : Npz F) (copies : ℕ)
        → All (HasLength l) d.x
        → (out : Npz F) × (augment draws d copies ≡ ok out)
          × (out.classes ≡ d.classes)
          × (out.y ≡ concat_all (replicate (suc copies) d.y))
          × (made : List (List (List F × List F))) × (out.x ≡ concat_all (d.x ∷ made))
          × (length made ≡ copies)
          × All (λ c. (length c ≡ length d.x) × All (HasLength l) c) made
    unfolding augment
    augment_lem d copies h =
        let (made, e, n, ks) = copies-IsCopy d.x h (range copies) in
        let sample : (List F × List F) × F → List F × List F = λ s. s.0 in
        let IsWhole : List (List F × List F) → Type 0 =
          λ c. (length c ≡ length d.x) × All (HasLength l) c in
        rw e (
          _,
          refl,
          refl,
          refl,
          map (map sample) made,
          refl,
          length-map (map sample) made ∙ n ∙ length-range_from 0 copies,
          All-map IsWhole (map sample) made (
              All-weaken (IsCopy (length d.x)) (λ ss. IsWhole (map sample ss)) made
                (λ ss k. (length-map sample ss ∙ k.0, All-map (HasLength l) sample ss k.1)) ks),
        )

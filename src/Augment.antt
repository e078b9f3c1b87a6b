-- ===== src/Augment.antt =====
-- tools/ml/augment.py: copies of a data set behind the impairments of receivers. The draws of the
-- generator are given: for each copy the places of the profiles, and for each copy and sample the
-- jitter of the SNR and the generator of the impairments. The array X has rows of one length.
pub mod Copied
use analysis_app.Prelude.{
  ℕ, suc, ◌+◌, ◌==◌, some, List, [], ◌∷◌, ◌++◌, length, map, replicate, if◌then◌else◌,
}
use analysis_app.Prelude.Int.{ℤ}
use analysis_app.Prelude.Results.{Result, ok, raised, ◌>>=◌, each}
use analysis_app.Features.Arrays.{index, range, zip_with}
use analysis_app.Features.Arrays.Chunks.{concat_all}
use analysis_app.Features.Detectors.{powers}
use analysis_app.Float.{Float}
use analysis_app.Numpy.{Complex, Numpy}
use analysis_app.Datasets.Raw.{iq_value, default_to}
use analysis_app.Datasets.Npz.{Npz}
use analysis_app.Profiles.{
  ImpairmentConfig, ImpairmentProfile, clean, rtl_sdr, hackrf, pluto_sdr, over_the_air, profiles,
}
use analysis_app.Impairments.{Channel, add_impairments}

-- _PROFILES
abbrev pub augment_profiles : List ImpairmentProfile
augment_profiles = pluto_sdr ∷ hackrf ∷ rtl_sdr ∷ over_the_air ∷ clean ∷ []

pub record AugmentDraws (F : Type 0) : Type 0 where
  pub chosen : ℕ → ℕ → List ℕ
  pub snr_jitter : ℕ → ℕ → F
  pub channel : ℕ → ℕ → Channel F

-- X_copy[i, k] = v, where one value is repeated along the row
unfoldable pub fitted : {F : Type 0} → ℕ → List F → Result (List F)
fitted l (v ∷ []) = ok (replicate l v)
fitted l vs = if length vs == l then ok vs else raised "could not broadcast input array from shape"

module _ {F : Type 0} ⦃fl : Float F⦄ ⦃np : Numpy F⦄ where
  open fl use {lit, add, sqrt, lt}

  -- the power of a copy, brought back to one
  unfoldable pub unit_iq : List (Complex F) → List (Complex F)
  unit_iq iq =
      let pwr = np.mean (powers iq) in
      if lt (lit 0 0) pwr then map (λ v. np.over v (sqrt pwr)) iq else iq

  -- the copy of a sample, and its SNR
  unfoldable pub impaired_sample :
      Channel F → F → ImpairmentProfile → List F × List F → Result ((List F × List F) × F)
  unfolding fitted unit_iq
  impaired_sample ch snr_jitter profile (is, qs) =
      let cfg = profiles profile in
      let cfg_j : ImpairmentConfig F = record cfg { snr_db = add cfg.snr_db snr_jitter } in
      add_impairments ch (zip_with iq_value is qs) (lit 1000000 0) (some cfg_j) rtl_sdr
      >>= λ iq_imp. fitted (length is) (map (λ v. v.re) (unit_iq iq_imp)) >>= λ re.
          fitted (length is) (map (λ v. v.im) (unit_iq iq_imp)) >>= λ im.
          ok ((re, im), cfg_j.snr_db)

  module _ (draws : AugmentDraws F) where
    -- the samples from the i-th on, of a copy
    unfoldable pub copy_loop :
        ℕ → List ℕ → ℕ → List (List F × List F) → Result (List ((List F × List F) × F))
    unfolding impaired_sample
    copy_loop copy_idx chosen i [] = ok []
    copy_loop copy_idx chosen i (x ∷ xs) = index chosen i >>= λ k.
        index augment_profiles k >>= λ profile.
        impaired_sample (draws.channel copy_idx i) (draws.snr_jitter copy_idx i) profile x >>= λ s.
        copy_loop copy_idx chosen (suc i) xs >>= λ rest. ok (s ∷ rest)

    unfoldable pub impaired_copy :
        List (List F × List F) → ℕ → Result (List ((List F × List F) × F))
    unfolding copy_loop
    impaired_copy x copy_idx = copy_loop copy_idx (draws.chosen copy_idx (length x)) 0 x

    -- what is saved
    unfoldable pub augment : Npz F → ℕ → Result (Npz F)
    unfolding impaired_copy
    augment d copies =
        let snrs_in = default_to (replicate (length d.y) (lit 0 1)) d.snrs in
        each (impaired_copy d.x) (range copies) >>= λ made. ok (record {
          x = d.x ++ concat_all (map (map (λ s. s.0)) made);
          y = d.y ++ concat_all (replicate copies d.y);
          snrs = some (snrs_in ++ concat_all (map (map (λ s. s.1)) made));
          classes = d.classes;
        })

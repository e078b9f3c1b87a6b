-- ===== src/Datasets.antt =====
-- tools/test_harness/datasets.py.
pub mod Raw
pub mod Radioml
pub mod Counts
pub mod Hub
pub mod Npz
pub mod Generators
pub mod Synthetic
use analysis_app.Prelude.{
  ℕ, ◌≡◌, refl, String, List, length, length-map, map, if-both, if◌then◌else◌,
}
use analysis_app.Float.{Float}
use analysis_app.Numpy.{Complex, Numpy}

pub record IqSample (F : Type 0) : Type 0 where
  pub iq : List (Complex F)
  pub sample_rate : F
  pub center_freq : F
  pub ground_truth : String
  pub snr_db : F
  pub source_file : String
  pub segment_idx : ℕ
  pub extra : List (String × String)

module _ {F : Type 0} ⦃fl : Float F⦄ ⦃np : Numpy F⦄ where
  open fl use {lit, lt, pow, sqrt}

  -- Unit-power normalisation. The conversion to complex64 is left out.
  abbrev pub power_of : List (Complex F) → F
  power_of iq = np.mean (map (λ x. pow (np.abs x) 2) iq)

  unfoldable pub normalise : List (Complex F) → List (Complex F)
  normalise iq =
      if lt (lit 0 0) (power_of iq) then map (λ x. np.over x (sqrt (power_of iq))) iq else iq

  pub length-normalise : (iq : List (Complex F)) → length (normalise iq) ≡ length iq
  unfolding normalise
  length-normalise iq =
      if-both (λ (x : List (Complex F)). length x ≡ length iq) (lt (lit 0 0) (power_of iq))
        (length-map _ iq) refl

-- ===== src/Datasets/Synthetic.antt =====
-- tools/test_harness/datasets.py: `generate_synthetic`. What the generator of random numbers draws for
-- a sample is given by the number of the sample.
pub mod Counted
use analysis_app.Prelude.{
  ℕ, zero, suc, ◌+◌, ◌-◌, ◌*◌, ◌/◌, leb, ltb, ◌==◌, String, Bool, true, false, Option, none, some,
  List, [], ◌∷◌, ◌++◌, length, take, drop, map, replicate, if◌then◌else◌,
}
use analysis_app.Prelude.Assoc.{lookup}
use analysis_app.Prelude.Results.{Result, ok, raised, ◌>>=◌, each}
use analysis_app.Features.Arrays.{arange, index, of_real, range, zip_with}
use analysis_app.Features.Arrays.Chunks.{concat_all, repeated}
use analysis_app.Features.Detectors.{powers}
use analysis_app.Float.{Float}
use analysis_app.Numpy.{Complex, Numpy}
use analysis_app.Datasets.{IqSample, normalise}
use analysis_app.Datasets.Raw.{iq_value}
use analysis_app.Datasets.Generators.{
  Draws, Tools, Kind, psk, qam, fm, am, ofdm, fsk, css, gen_kind, awgn,
}

abbrev pub synthetic_mods : List String
synthetic_mods =
    "BPSK" ∷ "QPSK" ∷ "8PSK" ∷ "QAM16" ∷ "QAM64" ∷ "FM_NB" ∷ "FM_WB" ∷ "AM_DSB_LC" ∷ "AM_DSB_SC"
    ∷ "OFDM" ∷ "FSK" ∷ "MSK" ∷ "CSS" ∷ []

-- modulations or SYNTHETIC_MODS
abbrev pub mods_or : Option (List String) → List String
mods_or none = synthetic_mods
mods_or (some []) = synthetic_mods
mods_or (some (m ∷ mods)) = m ∷ mods

module _ {F : Type 0} ⦃fl : Float F⦄ ⦃np : Numpy F⦄ where
  open fl use {lit}

  abbrev pub synth_generators : List (String × (Kind F × F))
  synth_generators =
      ("BPSK", (psk 2 8, lit 200000 0))
      ∷ ("QPSK", (psk 4 8, lit 200000 0))
      ∷ ("8PSK", (psk 8 8, lit 200000 0))
      ∷ ("QAM16", (qam 16 8, lit 200000 0))
      ∷ ("QAM64", (qam 64 8, lit 200000 0))
      ∷ ("FM_NB", (fm (lit 20000 0), lit 200000 0))
      ∷ ("FM_WB", (fm (lit 75000 0), lit 800000 0))
      ∷ ("AM_DSB_LC", (am (lit 85 2) false, lit 200000 0))
      ∷ ("AM_DSB_SC", (am (lit 100 2) true, lit 200000 0))
      ∷ ("OFDM", (ofdm 64 16, lit 1000000 0))
      ∷ ("FSK", (fsk 20 (lit 8000 0), lit 200000 0))
      ∷ ("MSK", (fsk 10 (lit 5000 0), lit 200000 0))
      ∷ ("CSS", (css (lit 125000 0) 512, lit 500000 0))
      ∷ []

  module _ (tools : Tools F) where
    -- The loops, with the draws of each sample; `idx` is the number of samples so far.
    module _ (draws : ℕ → Draws F) (n : ℕ) where
      unfoldable pub synth_sample : String → Kind F → F → F → ℕ → Result (IqSample F)
      unfolding gen_kind awgn
      synth_sample m kind sr snr idx = gen_kind tools kind (draws idx) n sr >>= λ iq. ok (record {
        iq = awgn tools (draws idx) iq snr;
        sample_rate = sr;
        center_freq = lit 0 1;
        ground_truth = m;
        snr_db = snr;
        source_file = "synthetic";
        segment_idx = idx;
        extra = ("dataset", "synthetic") ∷ [];
      })

      unfoldable pub synth_bucket : String → Kind F → F → F → ℕ → ℕ → Result (List (IqSample F))
      unfolding synth_sample
      synth_bucket m kind sr snr idx zero = ok []
      synth_bucket m kind sr snr idx (suc count) = synth_sample m kind sr snr idx >>= λ s.
          synth_bucket m kind sr snr (idx + 1) count >>= λ rest. ok (s ∷ rest)

      unfoldable pub synth_snrs : ℕ → String → Kind F → F → ℕ → List F → Result (List (IqSample F))
      unfolding synth_bucket
      synth_snrs n_per_class m kind sr idx [] = ok []
      synth_snrs n_per_class m kind sr idx (snr ∷ snrs) =
          synth_bucket m kind sr snr idx n_per_class >>= λ bucket.
          synth_snrs n_per_class m kind sr (idx + length bucket) snrs >>= λ rest.
          ok (bucket ++ rest)

      -- an unknown modulation is skipped
      unfoldable pub synth_mod :
          ℕ → List F → String → Option (Kind F × F) → ℕ → Result (List (IqSample F))
      unfolding synth_snrs
      synth_mod n_per_class snrs m none idx = ok []
      synth_mod n_per_class snrs m (some (kind, sr)) idx = synth_snrs n_per_class m kind sr idx snrs

      unfoldable pub synth_mods : ℕ → List F → List String → ℕ → Result (List (IqSample F))
      unfolding synth_mod
      synth_mods n_per_class snrs [] idx = ok []
      synth_mods n_per_class snrs (m ∷ mods) idx =
          synth_mod n_per_class snrs m (lookup m synth_generators) idx >>= λ first.
          synth_mods n_per_class snrs mods (idx + length first) >>= λ rest. ok (first ++ rest)

      -- the grid np.arange of the SNRs is given
      unfoldable pub generate_synthetic :
          ℕ → List F → Option (List String) → Result (List (IqSample F))
      unfolding synth_mods
      generate_synthetic n_per_class snrs modulations =
          synth_mods n_per_class snrs (mods_or modulations) 0

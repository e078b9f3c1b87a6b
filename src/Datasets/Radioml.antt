-- ===== src/Datasets/Radioml.antt =====
-- tools/test_harness/datasets.py: `load_radioml_2016` and `load_radioml_2018`, from the contents of
-- the HDF5 files.
pub mod Loaded
use analysis_app.Prelude.{
  ℕ, suc, ◌+◌, ◌*◌, min, String, Bool, true, false, Option, none, some, List, [], ◌∷◌, ◌++◌, length,
  take, ltb, get_elem?, map, if◌then◌else◌,
}
use analysis_app.Prelude.Text.{concat}
use analysis_app.Prelude.Results.{Result, ok, raised, ◌>>=◌}
use analysis_app.Float.{Float}
use analysis_app.Numpy.{Complex, Numpy}
use analysis_app.Features.Arrays.{index, range_from}
use analysis_app.Datasets.{IqSample}
use analysis_app.Datasets.Raw.{combined, iq_value}

abbrev pub radioml_2016_url : String
radioml_2016_url = "https://opendata.deepsig.io/datasets/2016.10/RML2016.10a.tar.bz2"

abbrev pub radioml_2018_mods : List String
radioml_2018_mods =
    "OOK" ∷ "4ASK" ∷ "8ASK" ∷ "BPSK" ∷ "QPSK" ∷ "8PSK" ∷ "16PSK" ∷ "32PSK" ∷ "16APSK" ∷ "32APSK"
    ∷ "64APSK" ∷ "128APSK" ∷ "16QAM" ∷ "32QAM" ∷ "64QAM" ∷ "128QAM" ∷ "256QAM" ∷ "AM-SSB-WC"
    ∷ "AM-SSB-SC" ∷ "AM-DSB-WC" ∷ "AM-DSB-SC" ∷ "FM" ∷ "GMSK" ∷ "OQPSK" ∷ []

-- A group of the 2016 file: what its key evaluates to, where it does, and its examples, each of
-- two channels.
pub record Keyed (F : Type 0) : Type 0 where
  pub key : Option (String × F)
  pub examples : List (List F × List F)

-- The 2018 file: one-hot labels, SNRs, and examples of pairs.
pub record Radioml2018 (F : Type 0) : Type 0 where
  pub labels : List (List F)
  pub snrs : List F
  pub arrays : List (List (F × F))

-- What is there: the h5py library, and the file at the path.
abbrev pub opened {ℓ} : {A : Type ℓ} → Bool → Bool → String → String → A → Result A
opened false exists missing_lib missing_file file = raised missing_lib
opened true false missing_lib missing_file file = raised missing_file
opened true true missing_lib missing_file file = ok file

module _ {F : Type 0} ⦃fl : Float F⦄ (path : String) (snr_min_db : F) (max_per_class : ℕ) where
  open fl use {lit, lt}

  abbrev pub sample_2016 : String → F → ℕ → List (Complex F) → IqSample F
  sample_2016 mod_name snr i iq = record {
    iq = iq;
    sample_rate = lit 200000 0;
    center_freq = lit 0 1;
    ground_truth = mod_name;
    snr_db = snr;
    source_file = path;
    segment_idx = i;
    extra = ("dataset", "RadioML2016.10a") ∷ [];
  }

  -- for i, ex in enumerate(arrays), from i on
  abbrev pub examples_2016 : String → F → ℕ → List (List F × List F) → Result (List (IqSample F))
  examples_2016 mod_name snr i [] = ok []
  examples_2016 mod_name snr i ((is, qs) ∷ arrays) = do
    iq ← combined is qs
    rest ← examples_2016 mod_name snr (i + 1) arrays
    ok (sample_2016 mod_name snr i iq ∷ rest)

  -- The samples of one key; none if the key does not evaluate, or below the SNR.
  abbrev pub of_key : Option (String × F) → List (List F × List F) → Result (List (IqSample F))
  of_key none arrays = ok []
  of_key (some (mod_name, snr)) arrays =
      if lt snr snr_min_db then ok [] else examples_2016 mod_name snr 0 (take max_per_class arrays)

  unfoldable pub of_keys : List (Keyed F) → Result (List (IqSample F))
  unfolding combined
  of_keys [] = ok []
  of_keys (k ∷ ks) = do first ← of_key k.key k.examples; rest ← of_keys ks; ok (first ++ rest)

  unfoldable pub load_radioml_2016 : Bool → Bool → List (Keyed F) → Result (List (IqSample F))
  unfolding of_keys
  load_radioml_2016 has_h5py exists file =
      opened has_h5py exists "h5py not installed: pip install h5py"
        (concat (
          "RadioML 2016.10a not found at " ∷ path ∷ ".\nDownload from: " ∷ radioml_2016_url
          ∷ "\nThen extract the .hdf5 file." ∷ []))
        file
      >>= of_keys

  abbrev pub mod_name_of : Option String → String
  mod_name_of none = "UNKNOWN"
  mod_name_of (some name) = name

  abbrev pub sample_2018 : String → F → ℕ → List (F × F) → IqSample F
  sample_2018 mod_name snr idx raw = record {
    iq = map (λ p. iq_value p.0 p.1) raw;
    sample_rate = lit 1000000 0;
    center_freq = lit 0 1;
    ground_truth = mod_name;
    snr_db = snr;
    source_file = path;
    segment_idx = idx;
    extra = ("dataset", "RadioML2018.01a") ∷ [];
  }

  module _ ⦃np : Numpy F⦄ where
    -- The sample of an index whose SNR is not below the minimum.
    abbrev pub loud_2018 : Radioml2018 F → ℕ → F → Result (List (IqSample F))
    loud_2018 file idx snr = do
      label ← index file.labels idx
      mod_idx ← np.argmax label
      raw ← index file.arrays idx
      ok (sample_2018 (mod_name_of (get_elem? radioml_2018_mods mod_idx)) snr idx raw ∷ [])

    -- One turn of the loop
    abbrev pub turn_2018 : Radioml2018 F → ℕ → Result (List (IqSample F))
    turn_2018 file idx = do
      snr ← index file.snrs idx
      (if lt snr snr_min_db then ok [] else loud_2018 file idx snr)

    abbrev pub turns_2018 : Radioml2018 F → List ℕ → Result (List (IqSample F))
    turns_2018 file [] = ok []
    turns_2018 file (idx ∷ more) = do
      first ← turn_2018 file idx
      rest ← turns_2018 file more
      ok (first ++ rest)

    unfoldable pub load_radioml_2018 : Bool → Bool → Radioml2018 F → Result (List (IqSample F))
    load_radioml_2018 has_h5py exists file =
        opened has_h5py exists "h5py not installed"
          (concat ("RadioML 2018.01a not found at " ∷ path ∷ [])) file
        >>= (λ f.
            turns_2018 f
              (range_from 0 (min (length f.arrays) (max_per_class * length radioml_2018_mods))))

-- ===== src/Datasets/Raw.antt =====
-- tools/test_harness/datasets.py: `load_raw_iq` and `load_sigmf`, from the values that
-- `np.fromfile` reads. A description of a SigMF file is the JSON object that `json.load` gives.
pub mod Segments
pub mod RoundTrip
use analysis_app.Prelude.{
  ℕ, zero, suc, ◌+◌, ◌*◌, ◌/◌, min, String, Bool, true, false, ◌&&◌, ◌||◌, Option, none, some, List,
  [], ◌∷◌, length, ◌==◌, if◌then◌else◌, map,
}
use analysis_app.Prelude.Text.{str_eq, codes, within, concat}
use analysis_app.Prelude.Results.{Result, ok, raised, ◌>>=◌}
use analysis_app.Float.{Float}
use analysis_app.Numpy.{Complex, Numpy}
use analysis_app.Features.Arrays.{slice, zip_with, range}
use analysis_app.Datasets.{IqSample}

-- What the loader reads of an annotation, and of the whole description.
pub record Annotation (F : Type 0) : Type 0 where
  pub freq_lower_edge : Option F
  pub freq_upper_edge : Option F
  pub label : Option String

pub record SigmfMeta (F : Type 0) : Type 0 where
  pub sample_rate : Option F
  pub datatype : Option String
  pub description : Option String
  pub annotations : List (Annotation F)
  -- the core:frequency of each capture
  pub captures : List (Option F)

-- d.get(key, default)
abbrev pub default_to {ℓ} : {A : Type ℓ} → A → Option A → A
default_to d none = d
default_to d (some a) = a

-- raw[0::2] and raw[1::2]
abbrev pub evens {ℓ} : {A : Type ℓ} → List A → List A
evens [] = []
evens (x ∷ []) = x ∷ []
evens (x ∷ (y ∷ ys)) = x ∷ evens ys

abbrev pub odds {ℓ} : {A : Type ℓ} → List A → List A
odds [] = []
odds (x ∷ []) = []
odds (x ∷ (y ∷ ys)) = y ∷ odds ys

module _ {F : Type 0} where
  abbrev pub iq_value : F → F → Complex F
  iq_value i q = record { re = i; im = q }

  -- a + 1j * b: arrays of one length, or one of them of length 1, which is then repeated
  unfoldable pub combined : List F → List F → Result (List (Complex F))
  combined is (q ∷ []) = ok (map (λ i. iq_value i q) is)
  combined (i ∷ []) [] = ok []
  combined (i ∷ []) (q ∷ (r ∷ qs)) = ok (map (iq_value i) (q ∷ (r ∷ qs)))
  combined [] [] = ok []
  combined [] (q ∷ (r ∷ qs)) = raised "operands could not be broadcast together"
  combined (i ∷ (j ∷ is)) [] = raised "operands could not be broadcast together"
  combined (i ∷ (j ∷ is)) (q ∷ (r ∷ qs)) =
      if length is == length qs
      then ok (zip_with iq_value (i ∷ (j ∷ is)) (q ∷ (r ∷ qs)))
      else raised "operands could not be broadcast together"

  abbrev pub deinterleaved : List F → Result (List (Complex F))
  deinterleaved raw = combined (evens raw) (odds raw)

  -- The samples of the whole segments, at most `max_segments` of them.
  unfoldable pub segments_of :
      ℕ → ℕ → (ℕ → List (Complex F) → IqSample F) → List (Complex F) → Result (List (IqSample F))
  segments_of segment_len max_segments sample iq =
      if segment_len == 0
      then raised "integer division or modulo by zero"
      else ok (
          map (λ i. sample i (slice (i * segment_len) ((i + 1) * segment_len) iq))
            (range (min max_segments (length iq / segment_len))))

module _ {F : Type 0} ⦃fl : Float F⦄ where
  open fl use {lit, add, sub, div}

  -- The three ways to read a raw file.
  unfoldable pub decode_raw : String → List F → Result (List (Complex F))
  decode_raw dtype raw =
      if str_eq dtype "float32"
      then deinterleaved raw
      else if str_eq dtype "int16"
      then combined (map (λ v. div v (lit 327680 1)) (evens raw))
          (map (λ v. div v (lit 327680 1)) (odds raw))
      else if str_eq dtype "uint8"
      then deinterleaved (map (λ v. div (sub v (lit 1275 1)) (lit 1275 1)) raw)
      else raised (concat ("Unsupported dtype: " ∷ dtype ∷ []))

  -- A file with its values in each of the formats, and a float that is not a number.
  unfoldable pub load_raw_iq :
      F → (String → List F) → String → F → F → String → String → ℕ → ℕ → Result (List (IqSample F))
  unfolding decode_raw segments_of
  load_raw_iq nan file path sample_rate center_freq ground_truth dtype segment_len max_segments = do
    iq ← decode_raw dtype (file dtype)
    segments_of segment_len max_segments
        (λ i chunk. record {
          iq = chunk;
          sample_rate = sample_rate;
          center_freq = center_freq;
          ground_truth = ground_truth;
          snr_db = nan;
          source_file = path;
          segment_idx = i;
          extra = ("dataset", "raw_binary") ∷ [];
        })
        iq

  -- (lower + upper) / 2, where both edges are there
  abbrev pub middle_or : F → Option F → Option F → F
  middle_or other none upper = other
  middle_or other (some lo) none = other
  middle_or other (some lo) (some hi) = div (add lo hi) (lit 2 0)

  -- The middle of the first annotation that has both edges.
  abbrev pub annotated_freq : List (Annotation F) → F
  annotated_freq [] = lit 0 1
  annotated_freq (a ∷ rest) = middle_or (annotated_freq rest) a.freq_lower_edge a.freq_upper_edge

  -- captures[0].get("core:frequency", center_freq)
  abbrev pub capture_freq : F → List (Option F) → F
  capture_freq freq [] = freq
  capture_freq freq (c ∷ cs) = default_to freq c

  -- The label of the first annotation that has one, else the description.
  abbrev pub sigmf_label : String → List (Annotation F) → String
  sigmf_label description [] = description
  sigmf_label description (a ∷ rest) = default_to (sigmf_label description rest) a.label

  unfoldable pub decode_sigmf : String → (String → List F) → Result (List (Complex F))
  decode_sigmf dtype file =
      if within (codes "cf32") (codes dtype)
      then deinterleaved (file "float32")
      else if within (codes "ci16") (codes dtype) || within (codes "cs16") (codes dtype)
      then combined (map (λ v. div v (lit 327680 1)) (evens (file "int16")))
          (map (λ v. div v (lit 327680 1)) (odds (file "int16")))
      else raised (concat ("Unsupported SigMF datatype: " ∷ dtype ∷ []))

  unfoldable pub load_sigmf :
      F → SigmfMeta F → (String → List F) → String → ℕ → ℕ → Result (List (IqSample F))
  unfolding decode_sigmf segments_of
  load_sigmf nan meta file path segment_len max_segments =
      let description = default_to "" meta.description in
      do
        iq ← decode_sigmf (default_to "cf32_le" meta.datatype) file
        segments_of segment_len max_segments
            (λ i chunk. record {
              iq = chunk;
              sample_rate = default_to (lit 0 0) meta.sample_rate;
              center_freq = capture_freq (annotated_freq meta.annotations) meta.captures;
              ground_truth = sigmf_label description meta.annotations;
              snr_db = nan;
              source_file = path;
              segment_idx = i;
              extra = ("dataset", "SigMF") ∷ [];
            })
            iq

-- ===== src/Datasets/Hub.antt =====
-- tools/test_harness/datasets.py: `load_hf_dataset`, from the rows that the `datasets` library gives.
pub mod Capped
use analysis_app.Prelude.{
  ℕ, suc, ◌+◌, ◌%◌, String, Bool, true, false, Option, none, some, List, [], ◌∷◌, length, leb, ◌==◌,
  if◌then◌else◌,
}
use analysis_app.Prelude.Text.{concat}
use analysis_app.Prelude.Results.{Result, ok, raised, ◌>>=◌}
use analysis_app.Float.{Float}
use analysis_app.Numpy.{Complex}
use analysis_app.Datasets.{IqSample}
use analysis_app.Datasets.Raw.{combined, deinterleaved}
use analysis_app.Datasets.Counts.{Counts, count_of, bump}

-- The value of the IQ column: none, a dictionary of channels, or an array, of which `ravel` leaves
-- the values in order.
pub data RawIq (F : Type 0) : Type 0 where
  missing : RawIq F
  channels : List F → List F → RawIq F
  flat : List F → RawIq F

pub record HubRow (F : Type 0) : Type 0 where
  pub snr : F
  pub label : String
  pub raw : RawIq F

module _ {F : Type 0} where
  -- After `ravel` there is one dimension, so that the branch for two rows has the length 2, which is
  -- even: it is not reached. No value stands for `continue`.
  unfoldable pub decode_hub : RawIq F → Result (Option (List (Complex F)))
  decode_hub missing = ok none
  decode_hub (channels is qs) = do iq ← combined is qs; ok (some iq)
  decode_hub (flat arr) =
      if length arr % 2 == 0 then (deinterleaved arr >>= (λ iq. ok (some iq))) else ok none

module _ {F : Type 0} ⦃fl : Float F⦄ (dataset_id split : String) (sample_rate snr_min_db : F)
    (max_per_class : ℕ) where
  open fl use {lit, lt}

  abbrev pub hub_sample : HubRow F → ℕ → List (Complex F) → IqSample F
  hub_sample row n iq = record {
    iq = iq;
    sample_rate = sample_rate;
    center_freq = lit 0 1;
    ground_truth = row.label;
    snr_db = row.snr;
    source_file = concat ("hf:" ∷ dataset_id ∷ []);
    segment_idx = n;
    extra = ("dataset", dataset_id) ∷ ("split", split) ∷ [];
  }

  -- The guards before the value is decoded.
  abbrev pub skipped : Counts → HubRow F → Bool
  skipped counts row =
      if lt row.snr snr_min_db then true else leb max_per_class (count_of row.label counts)

  -- The end of the loop's body: the sample, where there is a value.
  abbrev pub keep_or :
      HubRow F
      → ℕ
      → Result (List (IqSample F))
      → Result (List (IqSample F))
      → Option (List (Complex F))
      → Result (List (IqSample F))
  keep_or row n passed kept none = passed
  keep_or row n passed kept (some iq) = do rest ← kept; ok (hub_sample row n iq ∷ rest)

  -- The loop, with the number of samples so far; the result has the further samples.
  unfoldable pub hub_loop : Counts → ℕ → List (HubRow F) → Result (List (IqSample F))
  unfolding bump count_of decode_hub
  hub_loop counts n [] = ok []
  hub_loop counts n (row ∷ rows) =
      let passed = hub_loop counts n rows in
      let kept = hub_loop (bump row.label counts) (n + 1) rows in
      if skipped counts row then passed else decode_hub row.raw >>= keep_or row n passed kept

  unfoldable pub load_hf_dataset : List (HubRow F) → Result (List (IqSample F))
  unfolding hub_loop
  load_hf_dataset rows = hub_loop [] 0 rows

-- ===== src/Capture/Loop.antt =====
-- tools/ml/capture_real.py: the loop of `main` over the targets, and the labels of the data set.
pub mod Names
pub mod Samples
pub mod Labelled
use analysis_app.Prelude.{
  ℕ, suc, ◌+◌, ◌*◌, min, String, Bool, true, false, ◌==◌, Option, none, some, List, [], ◌∷◌, ◌++◌,
  length, map, replicate, if◌then◌else◌,
}
use analysis_app.Prelude.Text.{str_eq, member}
use analysis_app.Prelude.Results.{Result, ok, raised, ◌>>=◌, each}
use analysis_app.Float.{Float}
use analysis_app.Numpy.{Complex, Numpy}
use analysis_app.Datasets.Counts.{Counts, count_of}
use analysis_app.Capture.Targets.{Target}
use analysis_app.Capture.Windows.{estimate_snr_db, extract_windows}

-- label_map, whose keys are looked up from the first
abbrev pub Labels : Type 0
Labels = List (String × ℕ)

unfoldable pub find_label : String → Labels → Option ℕ
find_label label [] = none
find_label label ((l, i) ∷ m) =
    let later = find_label label m in if str_eq l label then some i else later

-- class_counts[label] = class_counts.get(label, 0) + n
unfoldable pub add_count : String → ℕ → Counts → Counts
add_count label n [] = (label, n) ∷ []
add_count label n ((l, k) ∷ c) =
    let rest = add_count label n c in if str_eq l label then (l, k + n) ∷ c else (l, k) ∷ rest

-- all_X, all_y, all_snr, label_names, label_map and class_counts
pub record Collected (F : Type 0) : Type 0 where
  pub all_x : List (List (Complex F))
  pub all_y : List ℕ
  pub all_snr : List F
  pub label_names : List String
  pub label_map : Labels
  pub class_counts : Counts

abbrev pub nothing_collected : {F : Type 0} → Collected F
nothing_collected = record {
  all_x = [];
  all_y = [];
  all_snr = [];
  label_names = [];
  label_map = [];
  class_counts = [];
}

-- label_map[label], after the label is entered where it is new
unfoldable pub enter_label : {F : Type 0} → String → Option ℕ → Collected F → ℕ × Collected F
enter_label label (some idx) s = (idx, s)
enter_label label none s = (
  length s.label_names,
  record s {
    label_names = s.label_names ++ label ∷ [];
    label_map = s.label_map ++ (label, length s.label_names) ∷ [];
  },
)

-- if filter_cls and label not in filter_cls and label != "_NOISE": continue
abbrev pub is_wanted : List String → String → Bool
is_wanted [] label = true
is_wanted (c ∷ cs) label = if member label (c ∷ cs) then true else str_eq label "_NOISE"

module _ {F : Type 0} where
  -- the windows of a target, and their SNRs, as samples of the label of an index
  unfoldable pub add_samples :
      String → List (List (Complex F)) → List F → ℕ × Collected F → Collected F
  unfolding add_count
  add_samples label windows snrs (idx, t) = record t {
    all_x = t.all_x ++ windows;
    all_y = t.all_y ++ replicate (length windows) idx;
    all_snr = t.all_snr ++ snrs;
    class_counts = add_count label (length windows) t.class_counts;
  }

  unfoldable pub add_windows : String → List (List (Complex F)) → List F → Collected F → Collected F
  unfolding find_label enter_label add_samples
  add_windows label windows snrs s =
      add_samples label windows snrs (enter_label label (find_label label s.label_map) s)

module _ {F : Type 0} ⦃fl : Float F⦄ ⦃np : Numpy F⦄ where
  -- a target, and what request_capture returned for it
  unfoldable pub add_capture :
      (List ℕ → List ℕ)
      → F
      → ℕ
      → Target
      → Option (List (Complex F))
      → Collected F
      → Result (Collected F)
  unfolding add_windows extract_windows estimate_snr_db
  add_capture shuffle snr_min max_per_class t none s = ok s
  add_capture shuffle snr_min max_per_class t (some iq) s =
      if str_eq t.label "_NOISE"
      then ok s
      else (extract_windows shuffle iq (fl.lit t.sr_sps 0) snr_min (min t.max_windows max_per_class)
          >>= λ windows. each (λ w. estimate_snr_db w (fl.lit t.sr_sps 0)) windows >>= λ snrs.
              ok (if length windows == 0 then s else add_windows t.label windows snrs s))

  unfoldable pub capture_all :
      (List ℕ → List ℕ)
      → F
      → ℕ
      → List String
      → List (Target × Option (List (Complex F)))
      → Collected F
      → Result (Collected F)
  unfolding add_capture
  capture_all shuffle snr_min max_per_class filter_cls [] s = ok s
  capture_all shuffle snr_min max_per_class filter_cls ((t, iq) ∷ captures) s =
      (if is_wanted filter_cls t.label
        then add_capture shuffle snr_min max_per_class t iq s
        else ok s)
      >>= λ next. capture_all shuffle snr_min max_per_class filter_cls captures next

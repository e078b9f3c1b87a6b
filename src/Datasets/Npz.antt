-- ===== src/Datasets/Npz.antt =====
-- tools/test_harness/datasets.py: `save_synthetic_npz` and `load_numpy_npz`, with the arrays of the file
-- as a record. np.float32 of a value is the argument `single`.
pub mod Reloaded
use analysis_app.Prelude.{
  ℕ, zero, suc, ◌+◌, ◌-◌, Bool, true, false, ◌&&◌, leb, ◌==◌, all, String, Option, none, some, List,
  [], ◌∷◌, ◌++◌, length, drop, get_elem?, map, replicate, if◌then◌else◌,
}
use analysis_app.Prelude.Int.{ℤ, pos, negsuc}
use analysis_app.Prelude.Assoc.{lookup}
use analysis_app.Prelude.Results.{Result, ok, raised, ◌>>=◌, each}
use analysis_app.Features.Arrays.{index}
use analysis_app.Float.{Float}
use analysis_app.Numpy.{Complex}
use analysis_app.FamilyMap.{sorted_set, enumerated}
use analysis_app.Datasets.{IqSample}
use analysis_app.Datasets.Raw.{combined, default_to}

-- The arrays of a file: X[n, 0] and X[n, 1], y, snrs, which may be missing, and classes.
pub record Npz (F : Type 0) : Type 0 where
  pub x : List (List F × List F)
  pub y : List ℤ
  pub snrs : Option (List F)
  pub classes : List String

-- The keys of the dictionary `counts` are whole numbers.
abbrev pub same_ℤ : ℤ → ℤ → Bool
same_ℤ (pos a) (pos b) = a == b
same_ℤ (negsuc a) (negsuc b) = a == b
same_ℤ _ _ = false

abbrev pub ClassCounts : Type 0
ClassCounts = List (ℤ × ℕ)

-- counts.get(cls_i, 0)
unfoldable pub class_count : ℤ → ClassCounts → ℕ
class_count k [] = 0
class_count k ((j, n) ∷ c) = let rest = class_count k c in if same_ℤ j k then n else rest

-- counts[cls_i] = counts.get(cls_i, 0) + 1
unfoldable pub class_bump : ℤ → ClassCounts → ClassCounts
class_bump k [] = (k, 1) ∷ []
class_bump k ((j, n) ∷ c) =
    let rest = class_bump k c in if same_ℤ j k then (j, suc n) ∷ c else (j, n) ∷ rest

-- classes[cls_i] if cls_i < len(classes) else str(cls_i), where a negative index counts from the end
unfoldable pub class_name : (ℤ → String) → List String → ℤ → Result String
class_name str classes (pos i) = ok (default_to (str (pos i)) (get_elem? classes i))
class_name str classes (negsuc n) =
    if leb (suc n) (length classes)
    then index classes (length classes - suc n)
    else raised "list index out of range"

-- What is there, or an exception.
abbrev pub or_raised : {A : Type 0} → String → Option A → Result A
or_raised e none = raised e
or_raised e (some a) = ok a

module _ {F : Type 0} ⦃fl : Float F⦄ (str : ℤ → String) (path : String) (classes : List String)
    (snr_min_db : F) (max_per_class : ℕ) where
  -- the sample of an index, from its class on
  unfoldable pub npz_sample : ℕ → List F × List F → F → ℤ → Result (IqSample F)
  unfolding class_name
  npz_sample idx (is, qs) snr cls_i = class_name str classes cls_i >>= λ name.
      combined is qs >>= λ iq. ok (record {
        iq = iq;
        sample_rate = fl.lit 0 1;
        center_freq = fl.lit 0 1;
        ground_truth = name;
        snr_db = snr;
        source_file = path;
        segment_idx = idx;
        extra = ("dataset", "npz") ∷ [];
      })

  -- a turn of the loop: the counts after it, and the sample, if there is one
  unfoldable pub npz_turn :
      ℕ → List F × List F → Option ℤ → F → ClassCounts → Result (ClassCounts × List (IqSample F))
  unfolding npz_sample class_count class_bump
  npz_turn idx x label snr counts =
      if fl.lt snr snr_min_db
      then ok (counts, [])
      else (or_raised "index is out of bounds" label >>= λ cls_i.
          if leb max_per_class (class_count cls_i counts)
          then ok (counts, [])
          else (npz_sample idx x snr cls_i >>= λ s. ok (class_bump cls_i counts, s ∷ [])))

  unfoldable pub npz_loop :
      ℕ → ClassCounts → List (List F × List F) → List ℤ → List F → Result (List (IqSample F))
  unfolding npz_turn
  npz_loop idx counts [] ys snrs = ok []
  npz_loop idx counts (x ∷ xs) ys [] = raised "index is out of bounds"
  npz_loop idx counts (x ∷ xs) ys (snr ∷ snrs) =
      npz_turn idx x (get_elem? ys 0) snr counts >>= λ turn.
      npz_loop (idx + 1) turn.0 xs (drop 1 ys) snrs >>= λ rest. ok (turn.1 ++ rest)

module _ {F : Type 0} ⦃fl : Float F⦄ (single : F → F) where
  -- snrs, or NaN for each label
  abbrev pub snrs_or : F → Npz F → List F
  snrs_or nan d = map single (elim d.snrs [ none ↦ replicate (length d.y) nan | some snrs ↦ snrs ])

  abbrev pub singles : List F × List F → List F × List F
  singles (is, qs) = (map single is, map single qs)

  unfoldable pub load_numpy_npz :
      F → (ℤ → String) → String → F → ℕ → Npz F → Result (List (IqSample F))
  unfolding npz_loop
  load_numpy_npz nan str path snr_min_db max_per_class d =
      npz_loop str path d.classes snr_min_db max_per_class 0 [] (map singles d.x) d.y
        (snrs_or nan d)

-- label_map[s.ground_truth]
unfoldable pub label_index : List String → String → Result ℤ
label_index classes t = or_raised t (lookup t (enumerated 0 classes))

module _ {F : Type 0} where
  -- [s.iq.real, s.iq.imag]
  abbrev pub channels_of : IqSample F → List F × List F
  channels_of s = (map (λ c. c.re) s.iq, map (λ c. c.im) s.iq)

  -- np.stack refuses no arrays, and arrays of different lengths
  unfoldable pub save_synthetic_npz : (F → F) → List (IqSample F) → Result (Npz F)
  unfolding label_index
  save_synthetic_npz single [] = raised "need at least one array to stack"
  save_synthetic_npz single (s ∷ samples) =
      let classes = sorted_set (map (λ t. t.ground_truth) (s ∷ samples)) in
      if all (λ t. length t.iq == length s.iq) samples
      then (each (λ t. label_index classes t.ground_truth) (s ∷ samples) >>= λ y. ok (record {
        x = map channels_of (s ∷ samples);
        y = y;
        snrs = some (map (λ t. single t.snr_db) (s ∷ samples));
        classes = classes;
      }))
      else raised "all input arrays must have the same shape"

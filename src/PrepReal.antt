-- ===== src/PrepReal.antt =====
-- tools/ml/prep_real_v8.py: the real captures put together into one data set. glob.glob, the files that
-- np.load reads (none where one is not found) and scipy.signal.resample are arguments.
pub mod Merged
pub mod Named
pub mod Parts
pub mod Sources
use analysis_app.Prelude.{
  ℕ, zero, suc, ◌-◌, String, ◌==◌, leb, Option, none, some, List, [], ◌∷◌, ◌++◌, length, map,
  if◌then◌else◌,
}
use analysis_app.Prelude.Int.{ℤ, pos, negsuc}
use analysis_app.Prelude.Text.{str_eq, member}
use analysis_app.Prelude.Results.{Result, ok, raised, ◌>>=◌, each}
use analysis_app.Features.Arrays.{index}
use analysis_app.Features.Arrays.Chunks.{concat_all}
use analysis_app.FamilyMap.{sorted_set}
use analysis_app.Datasets.Npz.{Npz, or_raised}

-- SOURCES
abbrev pub base_sources : List String
base_sources = "data/real_fresh.npz" ∷ "data/real_ils.npz" ∷ []

-- of a list of texts: an entry that is not yet there is appended
unfoldable pub append_new : List String → String → List String
append_new names cls = if member cls names then names else names ++ cls ∷ []

unfoldable pub append_all_new : List String → List String → List String
unfolding append_new
append_all_new names [] = names
append_all_new names (cls ∷ classes) = append_all_new (append_new names cls) classes

-- a glob names no path twice, so that sorted and sorted(set) agree
unfoldable pub all_sources : (String → List String) → List String → List String
unfolding append_all_new
all_sources glob extra =
    append_all_new (base_sources ++ concat_all (map (λ pat. sorted_set (glob pat)) extra))
      (sorted_set (glob "data/real_v11_*.npz"))

-- class_names.index(c)
unfoldable pub index_of : List String → String → Result ℕ
index_of [] c = raised "is not in list"
index_of (n ∷ names) c =
    let rest = index_of names c in if str_eq n c then ok zero else (rest >>= λ i. ok (suc i))

-- remap[y] for one label, where a negative index counts from the end
unfoldable pub label_at : {A : Type 0} → List A → ℤ → Result A
label_at remap (pos i) = index remap i
label_at remap (negsuc n) =
    if leb (suc n) (length remap)
    then index remap (length remap - suc n)
    else raised "index is out of bounds"

-- The windows, the labels and the SNRs of a file.
pub record Part (F : Type 0) : Type 0 where
  pub x : List (List F × List F)
  pub y : List ℕ
  pub snrs : List F

-- np.concatenate refuses a list of no arrays
unfoldable pub concatenated : {F : Type 0} → List String → List (Part F) → Result (Npz F)
concatenated class_names [] = raised "need at least one array to concatenate"
concatenated class_names (p ∷ parts) = ok (record {
  x = concat_all (map (λ q. q.x) (p ∷ parts));
  y = map (λ i. pos i) (concat_all (map (λ q. q.y) (p ∷ parts)));
  snrs = some (concat_all (map (λ q. q.snrs) (p ∷ parts)));
  classes = class_names;
})

module _ {F : Type 0} (resample : ℕ → List F → List F) (target_len : ℕ) where
  unfoldable pub resized : List (List F × List F) → List (List F × List F)
  resized [] = []
  resized (w ∷ ws) =
      if length w.0 == target_len
      then w ∷ ws
      else map (λ v. (resample target_len v.0, resample target_len v.1)) (w ∷ ws)

  -- class_names after it, and what is appended to the three lists
  unfoldable pub merge_file : Npz F → List String → Result (List String × Part F)
  unfolding append_all_new index_of label_at resized
  merge_file d class_names = or_raised "snrs is not a file in the archive" d.snrs >>= λ snrs.
      let names = append_all_new class_names d.classes in
      each (index_of names) d.classes >>= λ remap. each (label_at remap) d.y >>= λ y_remapped.
      ok (names, record { x = resized d.x; y = y_remapped; snrs = snrs })

  -- a turn of the loop: class_names, and the part of a file that is found
  unfoldable pub merge_turn : Option (Npz F) → List String → Result (List String × List (Part F))
  unfolding merge_file
  merge_turn none class_names = ok (class_names, [])
  merge_turn (some d) class_names =
      merge_file d class_names >>= λ merged. ok (merged.0, merged.1 ∷ [])

  module _ (load : String → Option (Npz F)) where
    unfoldable pub merge_all : List String → List String → Result (List String × List (Part F))
    unfolding merge_turn
    merge_all [] class_names = ok (class_names, [])
    merge_all (path ∷ paths) class_names = merge_turn (load path) class_names >>= λ merged.
        merge_all paths merged.0 >>= λ rest. ok (rest.0, merged.1 ++ rest.1)

    -- what main writes
    unfoldable pub prep_real : (String → List String) → List String → Result (Npz F)
    unfolding all_sources merge_all concatenated
    prep_real glob extra =
        merge_all (all_sources glob extra) [] >>= λ merged. concatenated merged.0 merged.1

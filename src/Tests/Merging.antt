-- ===== src/Tests/Merging.antt =====
-- A run of the merge of the real captures.
use analysis_app.Prelude.{
  ℕ, ◌≡◌, refl, String, Option, none, some, List, [], ◌∷◌, length, length-replicate, replicate, map,
  All, if◌then◌else◌, arith,
}
use analysis_app.Prelude.Int.{ℤ, pos, negsuc}
use analysis_app.Prelude.Text.{str_eq}
use analysis_app.Prelude.Results.{ok, each}
use analysis_app.Features.Arrays.Chunks.{concat_all}
use analysis_app.Datasets.Npz.{Npz, class_name}
use analysis_app.PrepReal.{all_sources, append_all_new, label_at, prep_real}
use analysis_app.PrepReal.Sources.{AreDistinct}
use analysis_app.PrepReal.Parts.{labels_of, snrs_of, found, IsSource, IsLong}
use analysis_app.PrepReal.Merged.{prep_real_lem}

-- Two windows of three values, the second labelled with the last class.
abbrev fresh : Npz ℤ
fresh = record {
  x = (replicate 3 (pos 1), replicate 3 (pos 2)) ∷ (replicate 3 (pos 3), replicate 3 (pos 4)) ∷ [];
  y = pos 1 ∷ negsuc 0 ∷ [];
  snrs = some (pos 10 ∷ pos 11 ∷ []);
  classes = "FM_WB" ∷ "GFSK" ∷ [];
}

abbrev ils : Npz ℤ
ils = record {
  x = (replicate 2 (pos 5), replicate 2 (pos 6)) ∷ [];
  y = pos 0 ∷ [];
  snrs = some (pos 12 ∷ []);
  classes = "GFSK" ∷ "ILS" ∷ [];
}

abbrev two_files : String → Option (Npz ℤ)
two_files path =
    if str_eq path "data/real_fresh.npz"
    then some fresh
    else if str_eq path "data/real_ils.npz"
    then some ils
    else none

abbrev all_files : List (Npz ℤ)
all_files = found two_files (all_sources (λ pattern. []) [])

abbrev blank : ℕ → List ℤ → List ℤ
blank n xs = replicate n (pos 0)

all_files_found : all_files ≡ fresh ∷ ils ∷ []
unfolding all_sources append_all_new
all_files_found = refl

fresh-IsSource : IsSource fresh
unfolding label_at
fresh-IsSource = ((_, refl), ("GFSK" ∷ "GFSK" ∷ [], refl), (3, ((refl, refl), ((refl, refl), tt))))

ils-IsSource : IsSource ils
unfolding label_at
ils-IsSource = ((_, refl), ("GFSK" ∷ [], refl), (2, ((refl, refl), tt)))

prep_real_lem_example :
    (d : Npz ℤ) × (prep_real blank 3 two_files (λ pattern. []) [] ≡ ok d)
    × ((tss : List (List String)) × (each labels_of all_files ≡ ok tss)
        × (each (class_name (λ z. "") d.classes) d.y ≡ ok (concat_all tss)))
    × ((sss : List (List ℤ)) × (each snrs_of all_files ≡ ok sss) × (d.snrs ≡ some (concat_all sss)))
    × (length d.x ≡ length (concat_all (map (λ s. s.x) all_files)))
    × All (IsLong 3) d.x
    × AreDistinct d.classes
prep_real_lem_example =
    prep_real_lem blank 3 (λ xs. length-replicate 3 (pos 0)) two_files (λ pattern. []) [] (λ z. "")
      (rw all_files_found (omega arith)) (rw all_files_found (fresh-IsSource, (ils-IsSource, tt)))

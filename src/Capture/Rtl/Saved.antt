-- ===== src/Capture/Rtl/Saved.antt =====
-- The data set that is saved gives each window the label of its bucket.
use analysis_app.Prelude.{
  ℕ, zero, suc, ◌<◌, ◌≡◌, refl, ◌∙◌, String, true, ◌==◌, all, List, [], ◌∷◌, ◌++◌, length,
  length-append, length-map, length-replicate, replicate, map, All, All-append, All-weaken, arith,
}
use analysis_app.Prelude.Int.{ℤ}
use analysis_app.Prelude.Text.{member}
use analysis_app.Prelude.Results.{Result, ok, each, each-append}
use analysis_app.Features.Arrays.Chunks.{concat_all}
use analysis_app.Float.{Float}
use analysis_app.Numpy.{Complex, Numpy}
use analysis_app.FamilyMap.{sorted_set}
use analysis_app.Datasets.Npz.{Npz, class_name}
use analysis_app.Datasets.Npz.Reloaded.{
  All-sorted_set, label_index-class_name, all-true, All-of_map,
}
use analysis_app.Capture.Windows.{window}
use analysis_app.Capture.Rtl.{Planes, listed, stacked, saved_npz}
use analysis_app.Capture.Rtl.Filled.{Each, IsLoud}

-- The label of a text for each window of its bucket, and the windows, bucket by bucket.
abbrev pub labels_in : {A : Type 0} → List (String × List A) → List String
labels_in buckets = concat_all (map (λ e. replicate (length e.1) e.0) buckets)

abbrev pub windows_in : {A : Type 0} → List (String × List A) → List A
windows_in buckets = concat_all (map (λ e. e.1) buckets)

each-replicate :
    {A B : Type 0} (f : A → Result B) (n : ℕ) (a : A) (b : B)
    → f a ≡ ok b
    → each f (replicate n a) ≡ ok (replicate n b)
each-replicate f zero a b h = refl
each-replicate f (suc n) a b h = rw (h, each-replicate f n a b h)

module _ {F : Type 0} (str : ℤ → String) (all_labels : List String) where
  listed_lem :
      (buckets : List (String × List (Planes F)))
      → All (λ e. member e.0 all_labels ≡ true) buckets
      → (ys : List ℤ) × (listed all_labels buckets ≡ ok (windows_in buckets, ys))
        × (each (class_name str all_labels) ys ≡ ok (labels_in buckets))
        × (length ys ≡ length (windows_in buckets))
  unfolding listed
  listed_lem [] h = ([], refl, refl, refl)
  listed_lem ((label, wins) ∷ buckets) (m, ms) =
      let (idx, e, named) = label_index-class_name str all_labels label m in
      let (ys, d, names, n) = listed_lem buckets ms in
      let of_bucket = each-replicate (class_name str all_labels) (length wins) idx label named in
      (
        replicate (length wins) idx ++ ys,
        rw (e, d) refl,
        each-append (class_name str all_labels) (replicate (length wins) idx) ys
            ∙ rw (of_bucket, names) refl,
        omega (
          arith,
          n,
          length-append (replicate (length wins) idx) ys,
          length-append wins (windows_in buckets),
          length-replicate (length wins) idx,
        ),
      )

module _ {F : Type 0} ⦃fl : Float F⦄ ⦃np : Numpy F⦄ (snr_min : F) where
  length-IsLoud : (w : Planes F) → IsLoud snr_min w → length w.0 ≡ window
  length-IsLoud w (v, same, n, loud) = rw same (length-map (λ (c : Complex F). c.re) v ∙ n)

  windows-IsLoud :
      (buckets : List (String × List (Planes F)))
      → Each (IsLoud snr_min) buckets
      → All (IsLoud snr_min) (windows_in buckets)
  windows-IsLoud [] h = tt
  windows-IsLoud ((label, wins) ∷ buckets) ((n, h), hs) =
      All-append (IsLoud snr_min) wins (windows_in buckets) h (windows-IsLoud buckets hs)

  stacked_lem :
      (ws : List (Planes F)) → 0 < length ws → All (IsLoud snr_min) ws → stacked ws ≡ ok ws
  unfolding stacked
  stacked_lem [] n h = absurd (omega (arith, n))
  stacked_lem (w ∷ ws) n (h, hs) =
      let first = length-IsLoud w h in
      let alike : all (λ v. length v.0 == length w.0) ws ≡ true =
        all-true (λ v. length v.0 == length w.0) ws
          (All-weaken (IsLoud snr_min) (λ v. (length v.0 == length w.0) ≡ true) ws
            (λ v k. let same = length-IsLoud v k in ground (arith, first, same)) hs) in
      rw alike

  -- From buckets as the loop over the targets leaves them, at least one: the data set is saved, with all
  -- windows of the buckets in their order, and a label for each; and the labels, read in the classes of the
  -- data set, are those of the windows' buckets.
  pub saved_npz_lem :
      (str : ℤ → String) (buckets : List (String × List (Planes F)))
      → 0 < length buckets
      → Each (IsLoud snr_min) buckets
      → (d : Npz F) × (saved_npz buckets ≡ ok d)
        × (d.x ≡ windows_in buckets)
        × (length d.y ≡ length d.x)
        × (each (class_name str d.classes) d.y ≡ ok (labels_in buckets))
  unfolding saved_npz
  saved_npz_lem str [] n h = absurd (omega (arith, n))
  saved_npz_lem str ((label, wins) ∷ buckets) n ((some_window, h), hs) =
      let texts = map (λ e. e.0) ((label, wins) ∷ buckets) in
      let (ys, e, names, m) = listed_lem str (sorted_set texts) ((label, wins) ∷ buckets) (
        All-of_map (λ t. member t (sorted_set texts) ≡ true) (λ (e : String × List (Planes F)). e.0)
          ((label, wins) ∷ buckets) (All-sorted_set texts)) in
      let stack =
        stacked_lem (wins ++ windows_in buckets)
          (omega (arith, some_window, length-append wins (windows_in buckets)))
          (windows-IsLoud ((label, wins) ∷ buckets) ((some_window, h), hs)) in
      rw (e, stack) (_, refl, refl, m, names)

-- ===== src/Datasets/Npz/Reloaded.antt =====
-- What is saved is loaded again.
use analysis_app.Prelude.{
  ℕ, suc, ◌+◌, ◌≤◌, ◌≡◌, refl, ap, ◌∙◌, sym, inl, inr, Bool, true, false, leb, ◌==◌, all, String,
  some, List, [], ◌∷◌, length, get_elem?, map, All, All-weaken, arith, Bool-cases, or_true_right,
  if-each, if◌then◌else◌,
}
use analysis_app.Prelude.Int.{ℤ, pos}
use analysis_app.Prelude.Text.{str_eq, eq_iff, eq_refl, str_ne_sym, member}
use analysis_app.Prelude.Assoc.{lookup}
use analysis_app.Prelude.Results.{ok, each}
use mathlib.Core.List.{map-map}
use analysis_app.Float.{Float}
use analysis_app.Numpy.{Complex}
use analysis_app.FamilyMap.{sorted_set, insert_new, text_below, enumerated}
use analysis_app.Datasets.{IqSample}
use analysis_app.Datasets.Raw.{combined}
use analysis_app.Datasets.Raw.RoundTrip.{combined_parts}
use analysis_app.Datasets.Npz.{
  Npz, ClassCounts, same_ℤ, class_count, class_bump, class_name, npz_sample, npz_turn, npz_loop,
  load_numpy_npz, channels_of, label_index, save_synthetic_npz, singles,
}

-- The sorted set of texts has each of them.
member-insert_new : (s : String) (ts : List String) → member s (insert_new s ts) ≡ true
member-insert_new s [] = rw (eq_refl s) refl
member-insert_new s (t ∷ ts) = elim (Bool-cases (str_eq s t)) [
  | inl e ↦ rw (e, e) refl
  | inr e ↦ rw e (
      if-each (λ l. member s l ≡ true) (text_below s t) (λ b. rw (eq_refl s) refl)
        (λ b. or_true_right (str_eq s t) _ (member-insert_new s ts)))
]

member-insert_new_other :
    (x s : String) (ts : List String) → member x ts ≡ true → member x (insert_new s ts) ≡ true
member-insert_new_other x s [] h = cc
member-insert_new_other x s (t ∷ ts) h = elim (Bool-cases (str_eq s t)) [
  | inl e ↦ rw e h
  | inr e ↦ rw e (
      if-each (λ l. member x l ≡ true) (text_below s t) (λ b. or_true_right (str_eq x s) _ h)
        (λ b. elim (Bool-cases (str_eq x t)) [
          | inl d ↦ rw d refl
          | inr d ↦
              let later : member x ts ≡ true = rw d at h in
              rw d (member-insert_new_other x s ts later)
        ]))
]

pub All-sorted_set : (ts : List String) → All (λ t. member t (sorted_set ts) ≡ true) ts
All-sorted_set [] = tt
All-sorted_set (s ∷ ts) = (
  member-insert_new s (sorted_set ts),
  All-weaken (λ t. member t (sorted_set ts) ≡ true)
      (λ t. member t (insert_new s (sorted_set ts)) ≡ true) ts
      (λ t h. member-insert_new_other t s (sorted_set ts) h) (All-sorted_set ts),
)

-- The index of a text in a list that has it.
lookup-enumerated :
    (k : ℕ) (ts : List String) (t : String)
    → member t ts ≡ true
    → (i : ℕ) × (lookup t (enumerated k ts) ≡ some (pos (k + i))) × (get_elem? ts i ≡ some t)
lookup-enumerated k [] t h = cc
lookup-enumerated k (f ∷ ts) t h = elim (Bool-cases (str_eq f t)) [
  | inl e ↦ let z : k + 0 ≡ k = omega arith in (0, rw (e, z) refl, ap some ((eq_iff f t).0 e))
  | inr e ↦
      let later : member t ts ≡ true = rw (str_ne_sym f t e) at h in
      let (i, d, g) = lookup-enumerated (suc k) ts t later in
      let z : k + suc i ≡ suc k + i = omega arith in (suc i, rw (e, z) d, g)
]

pub label_index-class_name :
    (str : ℤ → String) (classes : List String) (t : String)
    → member t classes ≡ true
    → (z : ℤ) × (label_index classes t ≡ ok z) × (class_name str classes z ≡ ok t)
unfolding label_index class_name
label_index-class_name str classes t h =
    let (i, d, g) = lookup-enumerated 0 classes t h in
    let z : 0 + i ≡ i = omega arith in (pos i, rw (d, z) refl, rw g refl)

class_count-class_bump :
    (k l : ℤ) (c : ClassCounts) → class_count l (class_bump k c) ≤ suc (class_count l c)
unfolding class_count class_bump
class_count-class_bump k l [] =
    if-each (λ n. n ≤ 1) (same_ℤ k l) (λ e. omega arith) (λ e. omega arith)
class_count-class_bump k l ((j, n) ∷ c) = elim (Bool-cases (same_ℤ j k)) [
  | inl e ↦ rw e (
      if-each (λ m. m ≤ suc (if same_ℤ j l then n else class_count l c)) (same_ℤ j l)
        (λ d. rw d (omega arith)) (λ d. rw d (omega arith)))
  | inr e ↦ rw e (
      if-each (λ m. m ≤ suc (if same_ℤ j l then n else class_count l c)) (same_ℤ j l)
        (λ d. rw d (omega arith)) (λ d. rw d (class_count-class_bump k l c)))
]

module _ {F : Type 0} ⦃fl : Float F⦄ (single : F → F) (path : String) where
  -- A value of a sample, as the file keeps it.
  abbrev pub kept : Complex F → Complex F
  kept c = record { re = single c.re; im = single c.im }

  combined_singles :
      (iq : List (Complex F))
      → combined (map single (map (λ c. c.re) iq)) (map single (map (λ c. c.im) iq))
        ≡ ok (map kept iq)
  combined_singles iq =
      let re : map single (map (λ (c : Complex F). c.re) iq)
          ≡ map (λ (c : Complex F). c.re) (map kept iq) =
        map-map single (λ c. c.re) iq ∙ sym (map-map (λ (c : Complex F). c.re) kept iq) in
      let im : map single (map (λ (c : Complex F). c.im) iq)
          ≡ map (λ (c : Complex F). c.im) (map kept iq) =
        map-map single (λ c. c.im) iq ∙ sym (map-map (λ (c : Complex F). c.im) kept iq) in
      rw (re, im) (combined_parts (map kept iq))

  -- The sample with what the file does not keep replaced, and its floats at the width of the file.
  abbrev pub reloaded : ℕ → List (IqSample F) → List (IqSample F)
  reloaded idx [] = []
  reloaded idx (s ∷ samples) =
      record s {
        iq = map kept s.iq;
        snr_db = single s.snr_db;
        sample_rate = fl.lit 0 1;
        center_freq = fl.lit 0 1;
        source_file = path;
        segment_idx = idx;
        extra = ("dataset", "npz") ∷ [];
      }
      ∷ reloaded (idx + 1) samples

module _ {F : Type 0} ⦃fl : Float F⦄ (single : F → F)
    (twice : (x : F) → single (single x) ≡ single x) (str : ℤ → String) (path : String)
    (classes : List String) (snr_min_db : F) (max_per_class : ℕ) where
  -- A sample whose class is among the classes, and that is loud enough.
  abbrev IsKept : IqSample F → Type 0
  IsKept s = (member s.ground_truth classes ≡ true) × (fl.lt (single s.snr_db) snr_min_db ≡ false)

  npz_loop-reloaded :
      (idx : ℕ) (counts : ClassCounts) (samples : List (IqSample F))
      → All IsKept samples
      → ((k : ℤ) → class_count k counts ≤ idx)
      → idx + length samples ≤ max_per_class
      → (ys : List ℤ) × (each (λ s. label_index classes s.ground_truth) samples ≡ ok ys)
        × (npz_loop str path classes snr_min_db max_per_class idx counts
              (map (singles single) (map channels_of samples))
              ys
              (map single (map (λ s. single s.snr_db) samples))
            ≡ ok (reloaded single path idx samples))
  unfolding npz_loop npz_turn npz_sample
  npz_loop-reloaded idx counts [] hs few room = ([], refl, refl)
  npz_loop-reloaded idx counts (s ∷ samples) ((known, loud), hs) few room =
      let (z, e, name) = label_index-class_name str classes s.ground_truth known in
      let under : leb max_per_class (class_count z counts) ≡ false = ground (arith, few z, room) in
      let (ys, es, rest) =
        npz_loop-reloaded (idx + 1) (class_bump z counts) samples hs
          (λ k. omega (arith, few k, class_count-class_bump z k counts)) (omega (arith, room)) in
      (
        z ∷ ys,
        rw (e, es) refl,
        rw (twice s.snr_db, loud, under, name, combined_singles single path s.iq, rest) refl,
      )

pub All-of_map :
    {A B : Type 0} (P : B → Type 0) (f : A → B) (xs : List A)
    → All P (map f xs)
    → All (λ x. P (f x)) xs
All-of_map P f [] h = tt
All-of_map P f (x ∷ xs) (h, hs) = (h, All-of_map P f xs hs)

pub all-true :
    {A : Type 0} (p : A → Bool) (xs : List A) → All (λ x. p x ≡ true) xs → all p xs ≡ true
all-true p [] h = refl
all-true p (x ∷ xs) (h, hs) = rw h (all-true p xs hs)

All-and :
    {A : Type 0} (P Q : A → Type 0) (xs : List A) → All P xs → All Q xs → All (λ x. P x × Q x) xs
All-and P Q [] h k = tt
All-and P Q (x ∷ xs) (h, hs) (k, ks) = ((h, k), All-and P Q xs hs ks)

module _ {F : Type 0} ⦃fl : Float F⦄ where
  -- For a rounding `single` that changes nothing the second time, and samples of one length, of which none
  -- has an SNR that is below the threshold once it is rounded, and which are no more than a class may have:
  -- they are saved, and loading what is saved gives them back in their order, with their labels, with their
  -- samples and SNRs rounded by `single`, and with rates and frequencies of 0 and the file's own path and
  -- positions.
  pub load_numpy_npz-save_synthetic_npz :
      (single : F → F)
      → ((x : F) → single (single x) ≡ single x)
      → (nan : F) (str : ℤ → String) (path : String) (snr_min_db : F) (max_per_class : ℕ)
        (s : IqSample F) (samples : List (IqSample F))
      → All (λ t. length t.iq ≡ length s.iq) samples
      → All (λ t. fl.lt (single t.snr_db) snr_min_db ≡ false) (s ∷ samples)
      → length (s ∷ samples) ≤ max_per_class
      → (d : Npz F) × (save_synthetic_npz single (s ∷ samples) ≡ ok d)
        × (load_numpy_npz single nan str path snr_min_db max_per_class d
            ≡ ok (reloaded single path 0 (s ∷ samples)))
  unfolding load_numpy_npz save_synthetic_npz class_count
  load_numpy_npz-save_synthetic_npz single twice nan str path snr_min_db max_per_class s samples
        same loud room =
      let classes = sorted_set (map (λ t. t.ground_truth) (s ∷ samples)) in
      let alike : all (λ t. length t.iq == length s.iq) samples ≡ true =
        all-true (λ t. length t.iq == length s.iq) samples
          (All-weaken (λ t. length t.iq ≡ length s.iq) (λ t. (length t.iq == length s.iq) ≡ true)
            samples (λ t h. ground (arith, h)) same) in
      let known =
        All-of_map (λ t. member t classes ≡ true) (λ t. t.ground_truth) (s ∷ samples)
          (All-sorted_set (map (λ t. t.ground_truth) (s ∷ samples))) in
      let (ys, e, loaded) =
        npz_loop-reloaded single twice str path classes snr_min_db max_per_class 0 [] (s ∷ samples)
          (All-and (λ t. member t.ground_truth classes ≡ true)
            (λ t. fl.lt (single t.snr_db) snr_min_db ≡ false) (s ∷ samples) known loud)
          (λ k. omega arith) (omega (arith, room)) in
      let saved : Npz F = record {
        x = map channels_of (s ∷ samples);
        y = ys;
        snrs = some (map (λ t. single t.snr_db) (s ∷ samples));
        classes = classes;
      } in
      (saved, rw (alike, e) refl, loaded)

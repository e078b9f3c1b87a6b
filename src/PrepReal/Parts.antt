-- ===== src/PrepReal/Parts.antt =====
-- The parts of the files, with their labels as indices of the names of the classes.
use analysis_app.Prelude.{
  ℕ, suc, ◌≡◌, refl, ap, ◌∙◌, inl, inr, String, ◌==◌, Option, none, some, List, [], ◌∷◌, ◌++◌,
  length, length-map, All, All-map, All-weaken, arith, Bool-cases,
}
use analysis_app.Prelude.Results.{Result, ok, each}
use analysis_app.Datasets.Npz.{Npz, or_raised}
use analysis_app.Capture.Loop.Names.{AreNamed}
use analysis_app.PrepReal.{
  append_all_new, label_at, Part, resized, merge_file, merge_turn, merge_all,
}
use analysis_app.PrepReal.Sources.{
  AreDistinct, IsExtended, IsExtended-refl, IsExtended-trans, append_all_new_lem,
}
use analysis_app.PrepReal.Named.{AreNamed-longer, remap_named, labels_named}

-- The names of the labels of a file.
abbrev pub labels_of : {F : Type 0} → Npz F → Result (List String)
labels_of d = each (label_at d.classes) d.y

abbrev pub snrs_of : {F : Type 0} → Npz F → Result (List F)
snrs_of d = or_raised "snrs is not a file in the archive" d.snrs

abbrev pub as_list : {A : Type 0} → Option A → List A
as_list none = []
as_list (some a) = a ∷ []

-- The files that are found, in their order.
abbrev pub found : {F : Type 0} → (String → Option (Npz F)) → List String → List (Npz F)
found load [] = []
found load (path ∷ paths) = as_list (load path) ++ found load paths

pub both_empty :
    {A : Type 0} (o : Option A) (rest : List A) → as_list o ++ rest ≡ [] → (o ≡ none) × (rest ≡ [])
both_empty none rest h = (refl, h)
both_empty (some a) rest h = cc

abbrev pub IsLong : {F : Type 0} → ℕ → List F × List F → Type 0
IsLong n w = (length w.0 ≡ n) × (length w.1 ≡ n)

-- A file with SNRs, with labels that its classes name, and with windows of one length.
abbrev pub IsSource : {F : Type 0} → Npz F → Type 0
IsSource {F} d =
    ((snrs : List F) × (d.snrs ≡ some snrs))
    × ((ts : List String) × (labels_of d ≡ ok ts))
    × ((n : ℕ) × All (IsLong n) d.x)

-- The part of a file, its labels as indices of names.
abbrev pub IsPart : {F : Type 0} → ℕ → List String → Npz F → Part F → Type 0
IsPart n names d p =
    ((ts : List String) × (labels_of d ≡ ok ts) × AreNamed names p.y ts)
    × All (IsLong n) p.x
    × (length p.x ≡ length d.x)
    × (snrs_of d ≡ ok p.snrs)

abbrev pub AreParts : {F : Type 0} → ℕ → List String → List (Npz F) → List (Part F) → Type 0
AreParts n names [] [] = Unit
AreParts n names [] (p ∷ ps) = ⊥
AreParts n names (d ∷ ds) [] = ⊥
AreParts n names (d ∷ ds) (p ∷ ps) = IsPart n names d p × AreParts n names ds ps

All-append_split :
    {A : Type 0} (P : A → Type 0) (xs ys : List A) → All P (xs ++ ys) → All P xs × All P ys
All-append_split P [] ys h = (tt, h)
All-append_split P (x ∷ xs) ys (h, hs) = let (l, r) = All-append_split P xs ys hs in ((h, l), r)

module _ {F : Type 0} (resample : ℕ → List F → List F) (target_len : ℕ)
    (resizes : (xs : List F) → length (resample target_len xs) ≡ target_len) where
  resized_lem :
      (n : ℕ) (ws : List (List F × List F))
      → All (IsLong n) ws
      → All (IsLong target_len) (resized resample target_len ws)
        × (length (resized resample target_len ws) ≡ length ws)
  unfolding resized
  resized_lem n [] h = (tt, refl)
  resized_lem n (w ∷ ws) ((a, b), hs) = elim (Bool-cases (length w.0 == target_len)) [
    | inl e ↦
        let same : n ≡ target_len = ground (arith, a, e) in
        rw e (
          (
            (a ∙ same, b ∙ same),
            All-weaken (IsLong n) (IsLong target_len) ws (λ v (c, d). (c ∙ same, d ∙ same)) hs,
          ),
          refl,
        )
    | inr e ↦
        let sized =
          All-map (IsLong target_len) (λ v. (resample target_len v.0, resample target_len v.1)) ws
            (All-weaken (IsLong n)
              (λ v. IsLong target_len (resample target_len v.0, resample target_len v.1)) ws
              (λ v both. (resizes v.0, resizes v.1)) hs) in
        rw e (((resizes w.0, resizes w.1), sized), ap suc (length-map _ ws))
  ]

  merge_file-IsPart :
      (d : Npz F) (names : List String)
      → IsSource d
      → AreDistinct names
      → (out : List String × Part F) × (merge_file resample target_len d names ≡ ok out)
        × AreDistinct out.0
        × IsExtended names out.0
        × IsPart target_len out.0 d out.1
  unfolding merge_file
  merge_file-IsPart d names ((snrs, e), (ts, labelled), (n, sized)) h =
      let (distinct, more, known) = append_all_new_lem names d.classes h in
      let longer = append_all_new names d.classes in
      let (remap, a, renamed) = remap_named longer d.classes known in
      let (ys, b, named) = labels_named longer remap d.classes d.y ts renamed labelled in
      let (long, alike) = resized_lem n d.x sized in
      (
        (longer, record { x = resized resample target_len d.x; y = ys; snrs = snrs }),
        rw (e, a, b) refl,
        distinct,
        more,
        ((ts, labelled, named), long, alike, rw e refl),
      )

  AreParts-longer :
      (names longer : List String) (ds : List (Npz F)) (ps : List (Part F))
      → IsExtended names longer
      → AreParts target_len names ds ps
      → AreParts target_len longer ds ps
  AreParts-longer names longer [] [] more h = tt
  AreParts-longer names longer [] (p ∷ ps) more h = absurd h
  AreParts-longer names longer (d ∷ ds) [] more h = absurd h
  AreParts-longer names longer (d ∷ ds) (p ∷ ps) more (((ts, e, named), long, alike, loud), hs) = (
    ((ts, e, AreNamed-longer names longer p.y ts more named), long, alike, loud),
    AreParts-longer names longer ds ps more hs,
  )

  AreParts-both :
      (names : List String) (ds es : List (Npz F)) (ps qs : List (Part F))
      → AreParts target_len names ds ps
      → AreParts target_len names es qs
      → AreParts target_len names (ds ++ es) (ps ++ qs)
  AreParts-both names [] es [] qs h g = g
  AreParts-both names [] es (p ∷ ps) qs h g = absurd h
  AreParts-both names (d ∷ ds) es [] qs h g = absurd h
  AreParts-both names (d ∷ ds) es (p ∷ ps) qs (h, hs) g = (h, AreParts-both names ds es ps qs hs g)

  merge_turn-AreParts :
      (o : Option (Npz F)) (names : List String)
      → All IsSource (as_list o)
      → AreDistinct names
      → (out : List String × List (Part F)) × (merge_turn resample target_len o names ≡ ok out)
        × AreDistinct out.0
        × IsExtended names out.0
        × AreParts target_len out.0 (as_list o) out.1
  unfolding merge_turn
  merge_turn-AreParts none names h distinct =
      ((names, []), refl, distinct, IsExtended-refl names, tt)
  merge_turn-AreParts (some d) names (h, hs) distinct =
      let (out, e, good, more, part) = merge_file-IsPart d names h distinct in
      ((out.0, out.1 ∷ []), rw e refl, good, more, (part, tt))

  module _ (load : String → Option (Npz F)) where
    pub merge_all-AreParts :
        (paths : List String) (names : List String)
        → All IsSource (found load paths)
        → AreDistinct names
        → (out : List String × List (Part F)) × (merge_all resample target_len load paths names
            ≡ ok out)
          × AreDistinct out.0
          × IsExtended names out.0
          × AreParts target_len out.0 (found load paths) out.1
    unfolding merge_all
    merge_all-AreParts [] names hs h = ((names, []), refl, h, IsExtended-refl names, tt)
    merge_all-AreParts (path ∷ paths) names hs h =
        let (first, others) =
          All-append_split IsSource (as_list (load path)) (found load paths) hs in
        let (one, e, good, more, part) = merge_turn-AreParts (load path) names first h in
        let (rest, d, distinct, longer, parts) = merge_all-AreParts paths one.0 others good in
        (
          (rest.0, one.1 ++ rest.1),
          rw (e, d) refl,
          distinct,
          IsExtended-trans names one.0 rest.0 more longer,
          AreParts-both rest.0 (as_list (load path)) (found load paths) one.1 rest.1
              (AreParts-longer one.0 rest.0 (as_list (load path)) one.1 longer part) parts,
        )

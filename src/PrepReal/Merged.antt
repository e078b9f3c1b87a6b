-- ===== src/PrepReal/Merged.antt =====
-- The labels of the files, in the classes of the data set that they are put together in.
use analysis_app.Prelude.{
  ℕ, ◌<◌, ◌≡◌, refl, ap, ◌∙◌, String, Option, some, List, [], ◌∷◌, length, length-append, map, All,
  All-append, arith,
}
use analysis_app.Prelude.Int.{ℤ, pos}
use analysis_app.Prelude.Results.{ok, raised, each}
use analysis_app.Features.Arrays.Chunks.{concat_all}
use analysis_app.Datasets.Npz.{Npz, class_name}
use analysis_app.Capture.Loop.Names.{AreNamed}
use analysis_app.PrepReal.{Part, merge_turn, merge_all, concatenated, all_sources, prep_real}
use analysis_app.PrepReal.Sources.{AreDistinct}
use analysis_app.PrepReal.Named.{AreNamed-both, each_named}
use analysis_app.PrepReal.Parts.{
  labels_of, snrs_of, found, both_empty, IsLong, IsSource, AreParts, merge_all-AreParts,
}

module _ {F : Type 0} (target_len : ℕ) where
  -- Parts that are read together: the names of all labels, the SNRs, and the windows.
  parts_read :
      (names : List String) (ds : List (Npz F)) (ps : List (Part F))
      → AreParts target_len names ds ps
      → (tss : List (List String)) × (each labels_of ds ≡ ok tss)
        × (each snrs_of ds ≡ ok (map (λ p. p.snrs) ps))
        × AreNamed names (concat_all (map (λ p. p.y) ps)) (concat_all tss)
        × All (IsLong target_len) (concat_all (map (λ p. p.x) ps))
        × (length (concat_all (map (λ p. p.x) ps)) ≡ length (concat_all (map (λ d. d.x) ds)))
  parts_read names [] [] h = ([], refl, refl, tt, tt, refl)
  parts_read names [] (p ∷ ps) h = absurd h
  parts_read names (d ∷ ds) [] h = absurd h
  parts_read names (d ∷ ds) (p ∷ ps) (((ts, e, named), long, alike, loud), hs) =
      let (tss, a, b, c, l, n) = parts_read names ds ps hs in
      (
        ts ∷ tss,
        rw (e, a) refl,
        rw (loud, b) refl,
        AreNamed-both names p.y (concat_all (map (λ q. q.y) ps)) ts (concat_all tss) named c,
        All-append (IsLong target_len) p.x (concat_all (map (λ q. q.x) ps)) long l,
        omega (
          arith,
          n,
          alike,
          length-append p.x (concat_all (map (λ q. q.x) ps)),
          length-append d.x (concat_all (map (λ q. q.x) ds)),
        ),
      )

  concatenated_lem :
      (names : List String) (ds : List (Npz F)) (ps : List (Part F))
      → 0 < length ds
      → AreParts target_len names ds ps
      → (d : Npz F) × (concatenated names ps ≡ ok d)
        × (d.classes ≡ names)
        × (d.x ≡ concat_all (map (λ p. p.x) ps))
        × (d.y ≡ map (λ i. pos i) (concat_all (map (λ p. p.y) ps)))
        × (d.snrs ≡ some (concat_all (map (λ p. p.snrs) ps)))
  unfolding concatenated
  concatenated_lem names [] ps some_file h = absurd (omega (arith, some_file))
  concatenated_lem names (d ∷ ds) [] some_file h = absurd h
  concatenated_lem names (d ∷ ds) (p ∷ ps) some_file h = (_, refl, refl, refl, refl, refl)

module _ {F : Type 0} (resample : ℕ → List F → List F) (target_len : ℕ)
    (resizes : (xs : List F) → length (resample target_len xs) ≡ target_len)
    (load : String → Option (Npz F)) where
  -- Where `resample` gives arrays of the length asked for, at least one source is found, and every source
  -- that is found has SNRs, labels that its classes name and windows of one length: the data set is
  -- written. Its labels, read in its classes, are the labels of the sources, each read in the classes of
  -- its own file, in the order of the sources; so are its SNRs; it has as many windows as the sources
  -- together, each of the target length; and no class twice.
  pub prep_real_lem :
      (glob : String → List String) (extra : List String) (str : ℤ → String)
      → 0 < length (found load (all_sources glob extra))
      → All IsSource (found load (all_sources glob extra))
      → (d : Npz F) × (prep_real resample target_len load glob extra ≡ ok d)
        × ((tss : List (List String)) × (each labels_of (found load (all_sources glob extra))
              ≡ ok tss)
            × (each (class_name str d.classes) d.y ≡ ok (concat_all tss)))
        × ((sss : List (List F)) × (each snrs_of (found load (all_sources glob extra)) ≡ ok sss)
            × (d.snrs ≡ some (concat_all sss)))
        × (length d.x ≡ length (concat_all (map (λ s. s.x) (found load (all_sources glob extra)))))
        × All (IsLong target_len) d.x
        × AreDistinct d.classes
  unfolding prep_real
  prep_real_lem glob extra str some_file hs =
      let files = found load (all_sources glob extra) in
      let (out, e, distinct, more, parts) =
        merge_all-AreParts resample target_len resizes load (all_sources glob extra) [] hs tt in
      let (tss, a, b, named, long, n) = parts_read target_len out.0 files out.1 parts in
      let (d, c, of_names, of_x, of_y, of_snrs) =
        concatenated_lem target_len out.0 files out.1 some_file parts in
      let names = each_named str out.0 (concat_all (map (λ p. p.y) out.1)) (concat_all tss) named in
      (
        d,
        rw (e, c) refl,
        (tss, a, rw (of_names, of_y) names),
        (map (λ p. p.snrs) out.1, b, of_snrs),
        ap length of_x ∙ n,
        rw of_x long,
        rw of_names distinct,
      )

module _ {F : Type 0} (resample : ℕ → List F → List F) (target_len : ℕ)
    (load : String → Option (Npz F)) where
  none_found :
      (paths : List String) (names : List String)
      → found load paths ≡ []
      → merge_all resample target_len load paths names ≡ ok (names, [])
  unfolding merge_all merge_turn
  none_found [] names h = refl
  none_found (path ∷ paths) names h =
      let (missing, others) = both_empty (load path) (found load paths) h in
      rw (missing, none_found paths names others) refl

  -- Where none of the sources is found, nothing is written: `np.concatenate` raises.
  pub no_source_raises :
      (glob : String → List String) (extra : List String)
      → found load (all_sources glob extra) ≡ []
      → prep_real resample target_len load glob extra
        ≡ raised "need at least one array to concatenate"
  unfolding prep_real concatenated
  no_source_raises glob extra h = rw (none_found (all_sources glob extra) [] h) refl

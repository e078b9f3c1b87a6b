-- ===== src/Capture/Loop/Samples.antt =====
-- Adding the windows of a target keeps the samples labelled.
use analysis_app.Prelude.{
  ℕ, ◌+◌, ◌≡◌, refl, ap, ◌∙◌, sym, String, Option, none, some, List, [], ◌∷◌, ◌++◌, length,
  length-append, length-replicate, get_elem?, replicate, All, All-append, All-weaken, arith,
  if◌then◌else◌,
}
use analysis_app.Prelude.Text.{str_eq}
use analysis_app.Numpy.{Complex}
use analysis_app.Datasets.Counts.{count_of}
use analysis_app.Capture.Loop.{find_label, Collected, enter_label, add_samples, add_windows}
use analysis_app.Capture.Loop.Names.{
  times_in, times_in-append, times_in-replicate, count_of-add_count, elem-append_left,
  elem-append_last, AreNamed, AreNamed-more, AreNamed-append, find_label-named,
}

-- What the samples collected so far are: a label for each window, index and SNR, and for each label as
-- many as its count says.
abbrev pub AreSamples : {F : Type 0} → Collected F → List String → Type 0
AreSamples s texts =
    AreNamed s.label_names s.all_y texts
    × All (λ e. get_elem? s.label_names e.1 ≡ some e.0) s.label_map
    × (length s.all_x ≡ length texts)
    × (length s.all_snr ≡ length texts)
    × ((l : String) → count_of l s.class_counts ≡ times_in l texts)

module _ {F : Type 0} where
  enter_label-AreSamples :
      (label : String) (o : Option ℕ) (s : Collected F) (texts : List String)
      → find_label label s.label_map ≡ o
      → AreSamples s texts
      → AreSamples (enter_label label o s).1 texts
        × (get_elem? (enter_label label o s).1.label_names (enter_label label o s).0 ≡ some label)
  unfolding enter_label
  enter_label-AreSamples label (some idx) s texts e h =
      (h, find_label-named s.label_names label s.label_map idx h.1 e)
  enter_label-AreSamples label none s texts e (named, entries, xs, snrs, counts) =
      let last = elem-append_last s.label_names label in
      (
        (
          AreNamed-more s.label_names label s.all_y texts named,
          All-append (λ e. get_elem? (s.label_names ++ label ∷ []) e.1 ≡ some e.0) s.label_map
              ((label, length s.label_names) ∷ [])
              (All-weaken (λ e. get_elem? s.label_names e.1 ≡ some e.0)
                (λ e. get_elem? (s.label_names ++ label ∷ []) e.1 ≡ some e.0) s.label_map
                (λ e k. elem-append_left s.label_names (label ∷ []) e.1 e.0 k) entries)
              (last, tt),
          xs,
          snrs,
          counts,
        ),
        last,
      )

  add_samples-AreSamples :
      (label : String) (windows : List (List (Complex F))) (snrs : List F) (idx : ℕ)
      (t : Collected F) (texts : List String)
      → length snrs ≡ length windows
      → get_elem? t.label_names idx ≡ some label
      → AreSamples t texts
      → AreSamples
          (add_samples label windows snrs (idx, t))
          (texts ++ replicate (length windows) label)
  unfolding add_samples
  add_samples-AreSamples label windows snrs idx t texts same at_idx
        (named, entries, xs, ss, counts) =
      let n : length (texts ++ replicate (length windows) label) ≡ length texts + length windows =
        length-append texts (replicate (length windows) label)
        ∙ ap (λ k. length texts + k) (length-replicate (length windows) label) in
      (
        AreNamed-append t.label_names t.all_y texts idx label (length windows) named at_idx,
        entries,
        omega (arith, n, xs, length-append t.all_x windows),
        omega (arith, n, ss, same, length-append t.all_snr snrs),
        λ l.
            count_of-add_count l label (length windows) t.class_counts
            ∙ ap (λ k. k + (if str_eq label l then length windows else 0)) (counts l)
            ∙ sym (
                times_in-append l texts (replicate (length windows) label)
                ∙ ap (λ k. times_in l texts + k) (times_in-replicate l label (length windows))),
      )

  pub add_windows-AreSamples :
      (label : String) (windows : List (List (Complex F))) (snrs : List F) (s : Collected F)
      (texts : List String)
      → length snrs ≡ length windows
      → AreSamples s texts
      → AreSamples (add_windows label windows snrs s) (texts ++ replicate (length windows) label)
  unfolding add_windows
  add_windows-AreSamples label windows snrs s texts same h =
      let (entered, at_idx) =
        enter_label-AreSamples label (find_label label s.label_map) s texts refl h in
      let (idx, t) = enter_label label (find_label label s.label_map) s in
      add_samples-AreSamples label windows snrs idx t texts same at_idx entered

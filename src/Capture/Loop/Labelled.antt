-- ===== src/Capture/Loop/Labelled.antt =====
-- The data set gives each window the label of the target that it was captured for.
use analysis_app.Prelude.{
  ℕ, ◌≡◌, refl, inl, inr, String, ◌==◌, Option, none, some, List, [], ◌∷◌, ◌++◌, length, replicate,
  min, All-weaken, In, arith, Bool-cases, append-nil, append_assoc, if◌then◌else◌,
}
use analysis_app.Prelude.Text.{str_eq}
use analysis_app.Prelude.Results.{
  Result, ok, ◌>>=◌, each, bind_ok, length-each, ok-injective, Returns, Returns-each,
}
use analysis_app.Float.{Float}
use analysis_app.Numpy.{Complex, Numpy, IsShaped}
use analysis_app.Datasets.Counts.{count_of}
use analysis_app.Capture.Targets.{Target}
use analysis_app.Capture.Windows.{estimate_snr_db, extract_windows}
use analysis_app.Capture.Loop.{
  Collected, nothing_collected, is_wanted, add_windows, add_capture, capture_all,
}
use analysis_app.Capture.Windows.Kept.{
  IsWindow, length-IsWindow, Returns-estimate_snr_db, extract_windows_lem,
}
use analysis_app.Capture.Loop.Samples.{AreSamples, add_windows-AreSamples}

module _ {F : Type 0} ⦃fl : Float F⦄ ⦃np : Numpy F⦄ (shuffle : List ℕ → List ℕ) (snr_min : F)
    (max_per_class : ℕ) (filter_cls : List String) where
  -- The labels of the windows of a capture: that of its target, as often as it has windows.
  abbrev pub labels_of_capture : Target → Option (List (Complex F)) → Result (List String)
  labels_of_capture t none = ok []
  labels_of_capture t (some iq) =
      if str_eq t.label "_NOISE"
      then ok []
      else (extract_windows shuffle iq (fl.lit t.sr_sps 0) snr_min (min t.max_windows max_per_class)
          >>= λ windows. ok (replicate (length windows) t.label))

  abbrev pub labels_of_captures : List (Target × Option (List (Complex F))) → Result (List String)
  labels_of_captures [] = ok []
  labels_of_captures ((t, iq) ∷ captures) =
      (if is_wanted filter_cls t.label then labels_of_capture t iq else ok []) >>= λ first.
      labels_of_captures captures >>= λ rest. ok (first ++ rest)

  add_capture-AreSamples :
      (t : Target) (iq : Option (List (Complex F))) (s next : Collected F) (texts : List String)
      → AreSamples s texts
      → add_capture shuffle snr_min max_per_class t iq s ≡ ok next
      → (more : List String) × (labels_of_capture t iq ≡ ok more) × AreSamples next (texts ++ more)
  unfolding add_capture
  add_capture-AreSamples t none s next texts h e =
      let same : s ≡ next = ok-injective e in ([], refl, rw (← same, append-nil texts) h)
  add_capture-AreSamples t (some iq) s next texts h e =
      elim (Bool-cases (str_eq t.label "_NOISE")) [
        | inl noise ↦
            let same : s ≡ next = ok-injective (rw noise at e) in
            ([], rw noise refl, rw (← same, append-nil texts) h)
        | inr signal ↦
            let found =
              extract_windows shuffle iq (fl.lit t.sr_sps 0) snr_min
                (min t.max_windows max_per_class) in
            let (windows, e1, h1) = bind_ok found _ next (rw signal at e) in
            let (snrs, e2, h2) =
              bind_ok (each (λ w. estimate_snr_db w (fl.lit t.sr_sps 0)) windows) _ next h1 in
            let same_length =
              length-each (λ w. estimate_snr_db w (fl.lit t.sr_sps 0)) windows snrs e2 in
            elim (Bool-cases (length windows == 0)) [
              | inl empty ↦
                  let same : s ≡ next = ok-injective (rw empty at h2) in
                  let z : length windows ≡ 0 = ground (arith, empty) in
                  ([], rw (signal, e1, z) refl, rw (← same, append-nil texts) h)
              | inr some_window ↦
                  let same : add_windows t.label windows snrs s ≡ next =
                    ok-injective (rw some_window at h2) in
                  (
                    replicate (length windows) t.label,
                    rw (signal, e1) refl,
                    rw (← same) (add_windows-AreSamples t.label windows snrs s texts same_length h),
                  )
            ]
      ]

  capture_all-AreSamples :
      (captures : List (Target × Option (List (Complex F)))) (s out : Collected F)
      (texts : List String)
      → AreSamples s texts
      → capture_all shuffle snr_min max_per_class filter_cls captures s ≡ ok out
      → (more : List String) × (labels_of_captures captures ≡ ok more)
        × AreSamples out (texts ++ more)
  unfolding capture_all
  capture_all-AreSamples [] s out texts h e =
      let same : s ≡ out = ok-injective e in ([], refl, rw (← same, append-nil texts) h)
  capture_all-AreSamples ((t, iq) ∷ captures) s out texts h e =
      elim (Bool-cases (is_wanted filter_cls t.label)) [
        | inr other ↦
            let (more, e1, k) = capture_all-AreSamples captures s out texts h (rw other at e) in
            (more, rw (other, e1) refl, k)
        | inl wanted ↦
            let (next, e1, h1) =
              bind_ok (add_capture shuffle snr_min max_per_class t iq s) _ out (rw wanted at e) in
            let (first, e2, k) = add_capture-AreSamples t iq s next texts h e1 in
            let (rest, e3, l) = capture_all-AreSamples captures next out (texts ++ first) k h1 in
            (first ++ rest, rw (wanted, e2, e3) refl, rw (← append_assoc texts first rest) l)
      ]

  module _ (sh : IsShaped F) (moves : (xs : List ℕ) (x : ℕ) → In x (shuffle xs) → In x xs) where
    Returns-add_capture :
        (t : Target) (iq : Option (List (Complex F))) (s : Collected F)
        → Returns (add_capture shuffle snr_min max_per_class t iq s)
    unfolding add_capture
    Returns-add_capture t none s = (s, refl)
    Returns-add_capture t (some iq) s = elim (Bool-cases (str_eq t.label "_NOISE")) [
      | inl noise ↦ rw noise (s, refl)
      | inr signal ↦
          let sr = fl.lit t.sr_sps 0 in
          let (windows, e, hs, few) =
            extract_windows_lem iq sr snr_min sh shuffle (min t.max_windows max_per_class) moves in
          let (snrs, d) =
            Returns-each (λ w. estimate_snr_db w sr) windows
              (All-weaken (IsWindow iq sr snr_min) (λ w. Returns (estimate_snr_db w sr)) windows
                (λ w h. Returns-estimate_snr_db sh w sr (length-IsWindow iq sr snr_min sh w h))
                hs) in
          rw (signal, e, d) (_, refl)
    ]

    Returns-capture_all :
        (captures : List (Target × Option (List (Complex F)))) (s : Collected F)
        → Returns (capture_all shuffle snr_min max_per_class filter_cls captures s)
    unfolding capture_all
    Returns-capture_all [] s = (s, refl)
    Returns-capture_all ((t, iq) ∷ captures) s = elim (Bool-cases (is_wanted filter_cls t.label)) [
      | inl wanted ↦
          let (next, e) = Returns-add_capture t iq s in
          rw (wanted, e) (Returns-capture_all captures next)
      | inr other ↦ rw other (Returns-capture_all captures s)
    ]

    -- For a shuffle that only moves the elements of a list, and whatever the captures are, the loop over
    -- the targets ends. The data set has a label, an index and an SNR for each window, and the labels that
    -- the indices stand for are those of the targets, each as often as its capture has windows, in the
    -- order of the targets; the count of each label is the number of its windows.
    pub capture_all_refines :
        (captures : List (Target × Option (List (Complex F))))
        → (out : Collected F) × (capture_all shuffle snr_min max_per_class filter_cls captures
              nothing_collected
            ≡ ok out)
          × (texts : List String) × (labels_of_captures captures ≡ ok texts)
          × AreSamples out texts
    unfolding count_of
    capture_all_refines captures =
        let (out, e) = Returns-capture_all captures nothing_collected in
        let (texts, d, samples) =
          capture_all-AreSamples captures nothing_collected out [] (tt, tt, refl, refl, λ l. refl)
            e in
        (out, e, texts, d, samples)

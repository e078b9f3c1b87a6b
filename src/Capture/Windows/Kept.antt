-- ===== src/Capture/Windows/Kept.antt =====
-- The windows that are kept.
use analysis_app.Prelude.{
  ℕ, ◌+◌, ◌-◌, ◌*◌, ◌/◌, ◌≤◌, ◌<◌, ◌≡◌, refl, ◌∙◌, inl, inr, false, leb, List, [], ◌∷◌, ◌++◌,
  length, length-append, length-map, All, All-append, All-map, All-weaken, arith, Bool-cases, min,
  max, In, In-All, All-In,
}
use native.Mathlib.Nat.{div-mul-le_self}
use analysis_app.Prelude.Results.{Result, ok, Returns}
use analysis_app.Features.Arrays.{slice, range}
use analysis_app.Features.Arrays.Shapes.{length-slice, range_from-below}
use analysis_app.Float.{Float}
use analysis_app.Numpy.{Complex, Numpy, IsShaped}
use analysis_app.Capture.Windows.{
  window, stride, normalise_window, estimate_snr_db, window_starts, Turn, goes_on, breaks, resume,
  window_turn, window_loop, extract_windows,
}

pub Returns-estimate_snr_db :
    {F : Type 0} ⦃fl : Float F⦄ ⦃np : Numpy F⦄ (sh : IsShaped F) (w : List (Complex F)) (sr : F)
    → length w ≡ window
    → Returns (estimate_snr_db w sr)
unfolding estimate_snr_db
Returns-estimate_snr_db sh w sr long =
    let segment : min 128 (length w) ≡ 128 = omega (arith, long) in
    let (psd, e, a, b) = sh.welch_some w sr 128 (omega arith) (omega (arith, long)) in
    rw (segment, e) (_, refl)

pub starts_below : (n : ℕ) → All (λ i. i + window < n) (window_starts n)
starts_below n =
    let count : ℕ = (n - window + (stride - 1)) / stride in
    let whole : count * stride ≤ n - window + (stride - 1) =
      div-mul-le_self (n - window + (stride - 1)) stride in
    All-map (λ i. i + window < n) (λ k. k * stride) (range count)
      (All-weaken (λ k. k < 0 + count) (λ k. k * stride + window < n) (range count)
        (λ k h. omega (arith, h, whole)) (range_from-below 0 count))

module _ {F : Type 0} ⦃fl : Float F⦄ ⦃np : Numpy F⦄ (iq : List (Complex F)) (sr snr_min : F) where
  -- A window from a place in the capture, loud enough, normalised.
  abbrev pub IsWindow : List (Complex F) → Type 0
  IsWindow w =
      (i : ℕ) × (snr : F) × (i + window < length iq)
      × (estimate_snr_db (slice i (i + window) iq) sr ≡ ok snr)
      × (fl.lt snr snr_min ≡ false)
      × (w ≡ normalise_window (slice i (i + window) iq))

  -- What a turn leaves: as many windows as leave room for one more, or no more than are asked for.
  abbrev IsGood : ℕ → Turn F → Type 0
  IsGood max_wins (goes_on windows) = All IsWindow windows × (length windows ≤ max_wins - 1)
  IsGood max_wins (breaks windows) = All IsWindow windows × (length windows ≤ max 1 max_wins)

  module _ (sh : IsShaped F) where
    turn-IsGood :
        (max_wins i : ℕ) (windows : List (List (Complex F)))
        → All IsWindow windows
        → length windows ≤ max_wins - 1
        → i + window < length iq
        → (turn : Turn F) × (window_turn iq sr snr_min max_wins windows i ≡ ok turn)
          × IsGood max_wins turn
    unfolding window_turn
    turn-IsGood max_wins i windows hs few below =
        let long_enough = length-slice i (i + window) iq (omega (arith, below)) ∙ omega arith in
        let (snr, e) = Returns-estimate_snr_db sh (slice i (i + window) iq) sr long_enough in
        let kept = windows ++ normalise_window (slice i (i + window) iq) ∷ [] in
        let long : length kept ≡ length windows + 1 =
          length-append windows (normalise_window (slice i (i + window) iq) ∷ []) in
        elim (Bool-cases (fl.lt snr snr_min)) [
          | inl low ↦ (goes_on windows, rw (e, low) refl, (hs, few))
          | inr loud ↦
              let all_kept =
                All-append IsWindow windows (normalise_window (slice i (i + window) iq) ∷ []) hs
                  ((i, snr, below, e, loud, refl), tt) in
              elim (Bool-cases (leb max_wins (length kept))) [
                | inl full ↦
                    (breaks kept, rw (e, loud, full) refl, (all_kept, omega (arith, long, few)))
                | inr room ↦
                    (goes_on kept, rw (e, loud, room) refl, (all_kept, ground (arith, long, room)))
              ]
        ]

    resumed :
        (max_wins : ℕ) (turn : Turn F)
        (rest : List (List (Complex F)) → Result (List (List (Complex F))))
        → IsGood max_wins turn
        → ((kept : List (List (Complex F)))
            → All IsWindow kept
            → length kept ≤ max_wins - 1
            → (out : List (List (Complex F))) × (rest kept ≡ ok out)
              × All IsWindow out
              × (length out ≤ max 1 max_wins))
        → (out : List (List (Complex F))) × (resume turn rest ≡ ok out)
          × All IsWindow out
          × (length out ≤ max 1 max_wins)
    resumed max_wins (goes_on kept) rest (ks, room) h = h kept ks room
    resumed max_wins (breaks kept) rest (ks, full) h = (kept, refl, ks, full)

    loop-IsWindow :
        (max_wins : ℕ) (starts : List ℕ) (windows : List (List (Complex F)))
        → All (λ i. i + window < length iq) starts
        → All IsWindow windows
        → length windows ≤ max_wins - 1
        → (out : List (List (Complex F))) × (window_loop iq sr snr_min max_wins starts windows
            ≡ ok out)
          × All IsWindow out
          × (length out ≤ max 1 max_wins)
    unfolding window_loop
    loop-IsWindow max_wins [] windows below hs few = (windows, refl, hs, omega (arith, few))
    loop-IsWindow max_wins (i ∷ starts) windows (b, bs) hs few =
        let (turn, e, good) = turn-IsGood max_wins i windows hs few b in
        rw e (
          resumed max_wins turn (λ kept. window_loop iq sr snr_min max_wins starts kept) good
            (λ kept ks room. loop-IsWindow max_wins starts kept bs ks room))

    -- For a shuffle that only moves the elements of a list: `extract_windows` returns. Each window that it
    -- keeps is a normalised slice of 1024 samples, which ends before the last sample of the capture and
    -- whose estimated SNR is not below the minimum; and there are at most as many as asked for, or one,
    -- where none are asked for.
    pub extract_windows_lem :
        (shuffle : List ℕ → List ℕ) (max_wins : ℕ)
        → ((xs : List ℕ) (x : ℕ) → In x (shuffle xs) → In x xs)
        → (out : List (List (Complex F))) × (extract_windows shuffle iq sr snr_min max_wins
            ≡ ok out)
          × All IsWindow out
          × (length out ≤ max 1 max_wins)
    unfolding extract_windows
    extract_windows_lem shuffle max_wins h =
        let starts = window_starts (length iq) in
        loop-IsWindow max_wins (shuffle starts) []
          (In-All (λ i. i + window < length iq) (shuffle starts)
            (λ i m.
              All-In (λ i. i + window < length iq) starts (starts_below (length iq))
                (h starts i m)))
          tt (omega arith)

    pub length-IsWindow : (w : List (Complex F)) → IsWindow w → length w ≡ window
    unfolding normalise_window
    length-IsWindow w (i, snr, below, e, loud, same) = rw same (
        length-map _ (slice i (i + window) iq)
        ∙ length-slice i (i + window) iq (omega (arith, below))
        ∙ omega arith)

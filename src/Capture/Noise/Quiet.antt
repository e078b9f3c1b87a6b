-- ===== src/Capture/Noise/Quiet.antt =====
-- The windows of noise that are kept, and how many.
use analysis_app.Prelude.{
  ℕ, suc, ◌+◌, ◌-◌, ◌*◌, ◌/◌, ◌≤◌, ◌<◌, min, max, ◌≡◌, refl, ◌∙◌, inl, inr, false, leb, Option,
  none, some, List, [], ◌∷◌, ◌++◌, length, length-append, map, All, All-append, In, In-All, All-In,
  arith, Bool-cases, if-each,
}
use analysis_app.Features.Arrays.{slice}
use analysis_app.Features.Arrays.Shapes.{length-slice}
use analysis_app.Features.Detectors.{powers}
use analysis_app.Float.{Float}
use analysis_app.Numpy.{Complex, Numpy}
use analysis_app.Capture.Windows.{window, window_starts, Turn, goes_on, breaks}
use analysis_app.Capture.Windows.Kept.{starts_below}
use analysis_app.Capture.Noise.{
  noise_targets, carry_on, peak_gap, noise_turn, noise_loop, extract_noise_windows,
  add_noise_windows, capture_noise,
}

module _ {F : Type 0} ⦃fl : Float F⦄ ⦃np : Numpy F⦄ where
  open fl use {lit, lt, sqrt}

  -- A window of some power and of no strong signal, brought to unit power.
  abbrev pub IsNoise : List (Complex F) → Type 0
  IsNoise w =
      (v : List (Complex F)) × (length v ≡ window)
      × (w ≡ map (λ c. np.over c (sqrt (np.mean (powers v)))) v)
      × (lt (np.mean (powers v)) (lit 1 12) ≡ false)
      × (lt (lit 150 1) (peak_gap v) ≡ false)

  abbrev IsGood : ℕ → Turn F → Type 0
  IsGood max_wins (goes_on windows) = All IsNoise windows × (length windows ≤ max_wins - 1)
  IsGood max_wins (breaks windows) = All IsNoise windows × (length windows ≤ max 1 max_wins)

  module _ (iq : List (Complex F)) (max_wins : ℕ) where
    turn-IsGood :
        (i : ℕ) (windows : List (List (Complex F)))
        → All IsNoise windows
        → length windows ≤ max_wins - 1
        → i + window < length iq
        → IsGood max_wins (noise_turn iq max_wins windows i)
    unfolding noise_turn
    turn-IsGood i windows hs few below =
        let w = slice i (i + window) iq in
        let normed = map (λ c. np.over c (sqrt (np.mean (powers w)))) w in
        let kept = windows ++ normed ∷ [] in
        let long : length kept ≡ length windows + 1 = length-append windows (normed ∷ []) in
        if-each (IsGood max_wins) (lt (np.mean (powers w)) (lit 1 12)) (λ e. (hs, few))
          (λ loud.
            if-each (IsGood max_wins) (lt (lit 150 1) (peak_gap w)) (λ e. (hs, few))
              (λ calm.
                let all_kept = All-append IsNoise windows (normed ∷ []) hs (
                  (
                    w,
                    length-slice i (i + window) iq (omega (arith, below)) ∙ omega arith,
                    refl,
                    loud,
                    calm,
                  ),
                  tt,
                ) in
                if-each (IsGood max_wins) (leb max_wins (length kept))
                  (λ full. (all_kept, omega (arith, long, few)))
                  (λ room. (all_kept, ground (arith, long, room)))))

    carried :
        (turn : Turn F) (rest : List (List (Complex F)) → List (List (Complex F)))
        → IsGood max_wins turn
        → ((kept : List (List (Complex F)))
            → All IsNoise kept
            → length kept ≤ max_wins - 1
            → All IsNoise (rest kept) × (length (rest kept) ≤ max 1 max_wins))
        → All IsNoise (carry_on turn rest) × (length (carry_on turn rest) ≤ max 1 max_wins)
    carried (goes_on kept) rest (ks, room) h = h kept ks room
    carried (breaks kept) rest (ks, full) h = (ks, full)

    noise_loop-IsNoise :
        (indices : List ℕ) (windows : List (List (Complex F)))
        → All (λ i. i + window < length iq) indices
        → All IsNoise windows
        → length windows ≤ max_wins - 1
        → All IsNoise (noise_loop iq max_wins indices windows)
          × (length (noise_loop iq max_wins indices windows) ≤ max 1 max_wins)
    unfolding noise_loop
    noise_loop-IsNoise [] windows below hs few = (hs, omega (arith, few))
    noise_loop-IsNoise (i ∷ indices) windows (b, bs) hs few =
        carried (noise_turn iq max_wins windows i) (noise_loop iq max_wins indices)
          (turn-IsGood i windows hs few b)
          (λ kept ks room. noise_loop-IsNoise indices kept bs ks room)

    extract_noise_windows-IsNoise :
        (shuffle : List ℕ → List ℕ)
        → ((xs : List ℕ) (x : ℕ) → In x (shuffle xs) → In x xs)
        → All IsNoise (extract_noise_windows shuffle iq max_wins)
          × (length (extract_noise_windows shuffle iq max_wins) ≤ max 1 max_wins)
    unfolding extract_noise_windows
    extract_noise_windows-IsNoise shuffle moves =
        let starts = window_starts (length iq) in
        noise_loop-IsNoise (shuffle starts) []
          (In-All (λ i. i + window < length iq) (shuffle starts)
            (λ i m.
              All-In (λ i. i + window < length iq) starts (starts_below (length iq))
                (moves starts i m)))
          tt (omega arith)

  module _ (shuffle : ℕ → List ℕ → List ℕ) (capture : ℕ × ℕ → Option (List (Complex F)))
      (n_windows : ℕ) (moves : (f : ℕ) (xs : List ℕ) (x : ℕ) → In x (shuffle f xs) → In x xs) where
    added-IsNoise :
        (t : ℕ × ℕ) (o : Option (List (Complex F))) (ws : List (List (Complex F)))
        → All IsNoise ws
        → length ws < n_windows
        → All IsNoise (add_noise_windows shuffle capture n_windows t o ws)
          × (length (add_noise_windows shuffle capture n_windows t o ws) ≤ n_windows)
          × (length (add_noise_windows shuffle capture n_windows t o ws)
              ≤ length ws + max 200 (n_windows / 11))
    unfolding add_noise_windows
    added-IsNoise t none ws hs room = (hs, omega (arith, room), omega arith)
    added-IsNoise t (some iq) ws hs room =
        let need = min (max 200 (n_windows / 11)) (n_windows - length ws) in
        let (new, few) = extract_noise_windows-IsNoise iq need (shuffle t.0) (moves t.0) in
        let all_of = length-append ws (extract_noise_windows (shuffle t.0) iq need) in
        (
          All-append IsNoise ws (extract_noise_windows (shuffle t.0) iq need) hs new,
          omega (arith, few, all_of, room),
          omega (arith, few, all_of, room),
        )

    capture_noise-IsNoise :
        (targets : List (ℕ × ℕ)) (ws : List (List (Complex F)))
        → All IsNoise ws
        → length ws ≤ n_windows
        → All IsNoise (capture_noise shuffle capture n_windows targets ws)
          × (length (capture_noise shuffle capture n_windows targets ws) ≤ n_windows)
          × (length (capture_noise shuffle capture n_windows targets ws)
              ≤ length ws + length targets * max 200 (n_windows / 11))
    unfolding capture_noise
    capture_noise-IsNoise [] ws hs few = (hs, few, omega arith)
    capture_noise-IsNoise (t ∷ targets) ws hs few = elim (Bool-cases (leb n_windows (length ws))) [
      | inl full ↦ rw full (hs, few, omega arith)
      | inr e ↦
          let room : length ws < n_windows = ground (arith, e) in
          let next = add_noise_windows shuffle capture n_windows t (capture t) ws in
          let (hs', few', more) = added-IsNoise t (capture t) ws hs room in
          let (gs, all_of, sum) = capture_noise-IsNoise targets next hs' few' in
          let step : suc (length targets) * max 200 (n_windows / 11)
              ≡ max 200 (n_windows / 11) + length targets * max 200 (n_windows / 11) =
            grind arith in
          rw e (gs, all_of, omega (arith, more, sum, step))
    ]

    -- For shuffles that only move the elements of a list, and whatever the captures are: every window that
    -- is collected is a slice of 1024 samples, brought to unit power, whose power is not below 1e-12 and
    -- whose spectrum has no peak more than 15 dB above its median. There are at most as many as asked
    -- for, and also at most eleven times the greater of 200 and an eleventh of that number, rounded down.
    pub capture_noise_lem :
        All IsNoise (capture_noise shuffle capture n_windows noise_targets [])
        × (length (capture_noise shuffle capture n_windows noise_targets []) ≤ n_windows)
        × (length (capture_noise shuffle capture n_windows noise_targets [])
            ≤ 11 * max 200 (n_windows / 11))
    capture_noise_lem =
        let (gs, few, sum) = capture_noise-IsNoise noise_targets [] tt (omega arith) in
        (gs, few, omega (arith, sum))

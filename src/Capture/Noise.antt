-- ===== src/Capture/Noise.antt =====
-- tools/ml/capture_noise.py: windows of noise, for the augmentation of training data. What
-- request_capture returns for a target is given; its session and its packets are those of
-- Capture.Session and Capture.Windows.
pub mod Quiet
use analysis_app.Prelude.{
  ℕ, ◌+◌, ◌-◌, ◌/◌, min, max, leb, Option, none, some, List, [], ◌∷◌, ◌++◌, length, map,
  if◌then◌else◌,
}
use analysis_app.Prelude.Results.{Result, ok, raised, ◌>>=◌}
use analysis_app.Features.Arrays.{slice}
use analysis_app.Features.Detectors.{powers}
use analysis_app.Float.{Float}
use analysis_app.Numpy.{Complex, Numpy}
use analysis_app.Capture.Windows.{window, window_starts, Turn, goes_on, breaks}
use analysis_app.Capture.Rtl.{Planes, planes}

-- NOISE_TARGETS: Hz and seconds
abbrev pub noise_targets : List (ℕ × ℕ)
noise_targets =
    (400100000, 30)
    ∷ (401050000, 30)
    ∷ (406200000, 20)
    ∷ (433250000, 20)
    ∷ (470100000, 30)
    ∷ (510000000, 30)
    ∷ (602000000, 20)
    ∷ (703000000, 20)
    ∷ (758000000, 20)
    ∷ (820000000, 20)
    ∷ (880000000, 20)
    ∷ []

abbrev pub carry_on :
    {F : Type 0}
    → Turn F
    → (List (List (Complex F)) → List (List (Complex F)))
    → List (List (Complex F))
carry_on (goes_on windows) rest = rest windows
carry_on (breaks windows) rest = windows

module _ {F : Type 0} ⦃fl : Float F⦄ ⦃np : Numpy F⦄ where
  open fl use {lit, add, mul, div, sqrt, log10, pow, lt}

  -- peak of the spectrum over its median, in dB
  unfoldable pub peak_gap : List (Complex F) → F
  peak_gap w =
      let psd = map (λ c. pow (np.abs c) 2) (np.fft w) in
      mul (lit 100 1) (log10 (div (np.max psd) (add (np.median psd) (lit 1 30))))

  unfoldable pub noise_turn : List (Complex F) → ℕ → List (List (Complex F)) → ℕ → Turn F
  unfolding peak_gap
  noise_turn iq max_wins windows i =
      let w = slice i (i + window) iq in
      let pwr = np.mean (powers w) in
      let kept = windows ++ map (λ c. np.over c (sqrt pwr)) w ∷ [] in
      if lt pwr (lit 1 12)
      then goes_on windows
      else if lt (lit 150 1) (peak_gap w)
      then goes_on windows
      else if leb max_wins (length kept)
      then breaks kept
      else goes_on kept

  unfoldable pub noise_loop :
      List (Complex F) → ℕ → List ℕ → List (List (Complex F)) → List (List (Complex F))
  unfolding noise_turn
  noise_loop iq max_wins [] windows = windows
  noise_loop iq max_wins (i ∷ indices) windows =
      carry_on (noise_turn iq max_wins windows i) (noise_loop iq max_wins indices)

  -- np.random.shuffle is an argument
  unfoldable pub extract_noise_windows :
      (List ℕ → List ℕ) → List (Complex F) → ℕ → List (List (Complex F))
  unfolding noise_loop
  extract_noise_windows shuffle iq max_wins =
      noise_loop iq max_wins (shuffle (window_starts (length iq))) []

  module _ (shuffle : ℕ → List ℕ → List ℕ) (capture : ℕ × ℕ → Option (List (Complex F)))
      (n_windows : ℕ) where
    abbrev pub per_target : ℕ
    per_target = max 200 (n_windows / length noise_targets)

    -- the windows so far, with those of a target's capture
    unfoldable pub add_noise_windows :
        ℕ × ℕ → Option (List (Complex F)) → List (List (Complex F)) → List (List (Complex F))
    unfolding extract_noise_windows
    add_noise_windows t none all_windows = all_windows
    add_noise_windows t (some iq) all_windows =
        all_windows
        ++ extract_noise_windows (shuffle t.0) iq (min per_target (n_windows - length all_windows))

    unfoldable pub capture_noise : List (ℕ × ℕ) → List (List (Complex F)) → List (List (Complex F))
    unfolding add_noise_windows
    capture_noise [] all_windows = all_windows
    capture_noise (t ∷ targets) all_windows =
        let rest = capture_noise targets (add_noise_windows t (capture t) all_windows) in
        if leb n_windows (length all_windows) then all_windows else rest

    -- X of what is saved; without a window the script ends
    unfoldable pub noise_bank : List (List (Complex F)) → Result (List (Planes F))
    noise_bank [] = raised "SystemExit"
    noise_bank (w ∷ ws) = ok (map planes (w ∷ ws))

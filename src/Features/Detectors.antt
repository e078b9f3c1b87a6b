-- ===== src/Features/Detectors.antt =====
-- tools/test_harness/features.py: `_estimate_symbol_rate`, `_detect_fhss`, `_detect_chirp` and
-- `_detect_burst`.
use analysis_app.Prelude.{
  ℕ, ◌+◌, ◌*◌, ◌/◌, min, max, Bool, false, ◌&&◌, List, [], ◌∷◌, ◌++◌, length, take, drop, ltb,
  if◌then◌else◌, map,
}
use analysis_app.Prelude.Results.{Result, ok, ◌>>=◌}
use analysis_app.Float.{Float}
use analysis_app.Numpy.{Complex, Numpy}
use analysis_app.Features.Arrays.{
  slice, but_last, index, zip_with, range, arange, of_real, clear_first, reciprocal,
}

-- max(1, int(n * k / n)), which is exact in floats
abbrev pub low_bin : ℕ → ℕ
low_bin fft_size = max 1 (fft_size / 100)

module _ {F : Type 0} ⦃fl : Float F⦄ ⦃np : Numpy F⦄ where
  open fl use {lit, neg, abs, pow, add, sub, mul, div, lt, le}

  -- np.abs(x) ** 2
  abbrev pub powers : List (Complex F) → List F
  powers = map (λ c. pow (np.abs c) 2)

  -- np.angle(x[1:] * np.conj(x[:-1]))
  abbrev pub phase_steps : List (Complex F) → List F
  phase_steps x = map np.angle (zip_with np.times (drop 1 x) (map np.conj (but_last x)))

  -- phase_diff * sr / (2 * np.pi)
  abbrev pub inst_freqs : F → List (Complex F) → List F
  inst_freqs sr x = map (λ p. div (mul p sr) (mul (lit 2 0) np.pi)) (phase_steps x)

  -- The place and the height of the highest line of a spectrum between two positions.
  abbrev pub peak_of : ℕ → ℕ → List F → List F → Result (F × F)
  peak_of lo half freqs spectrum = do
    i ← np.argmax (slice lo half spectrum)
    at ← index (slice lo half freqs) i
    amp ← index (slice lo half spectrum) i
    ok (abs at, amp)

  abbrev pub rate_of_peaks : F → F × F → F × F → F
  rate_of_peaks threshold first second =
      if lt threshold first.1 && le second.1 first.1
      then first.0
      else if lt threshold second.1
      then div second.0 (lit 40 1)
      else lit 0 1

  unfoldable pub estimate_symbol_rate : ℕ → List (Complex F) → F → Result F
  estimate_symbol_rate fft_size iq sr =
      let n = min (length iq) 65536 in
      let x = take n iq in
      let avg = np.mean (powers x) in
      let lo = low_bin fft_size in
      let half = n / 2 in
      do
        d ← reciprocal sr
        y ← clear_first (map np.abs (np.fft (map (λ p. of_real (sub p avg)) (powers x))))
        pk1 ← peak_of lo half (np.fftfreq n d) y
        z ← clear_first (map np.abs (np.fft (map (λ c. np.power c 4) x)))
        pk2 ← peak_of lo half (np.fftfreq n d) z
        ok (rate_of_peaks (mul (np.median (slice lo half y)) (lit 20 0)) pk1 pk2)

  -- The spectral centroid of a segment, where it has power.
  abbrev pub centroid : List F → List (Complex F) → Result (List F)
  centroid freqs seg = do
    p ← clear_first (powers (np.fft seg))
    ok (
        if lt (lit 1 12) (np.sum p)
        then div (np.sum (zip_with mul freqs p)) (np.sum p) ∷ []
        else [])

  abbrev pub centroids : ℕ → List (Complex F) → List F → List ℕ → Result (List F)
  centroids seg_len iq freqs [] = ok []
  centroids seg_len iq freqs (i ∷ is) = do
    c ← centroid freqs (slice (i * seg_len) ((i + 1) * seg_len) iq)
    rest ← centroids seg_len iq freqs is
    ok (c ++ rest)

  -- sum(1 for j in range(1, len(c)) if abs(c[j] - c[j-1]) > step)
  abbrev pub transitions : F → List F → ℕ
  transitions step [] = 0
  transitions step (c ∷ []) = 0
  transitions step (c ∷ (d ∷ cs)) =
      let rest = transitions step (d ∷ cs) in if lt step (abs (sub d c)) then 1 + rest else rest

  abbrev pub hops_of : List (Complex F) → F → List F → Bool × F
  hops_of iq sr cs =
      let spread = np.std cs in
      let found = lt (mul sr (lit 1 1)) spread in
      if ltb (length cs) 4
      then (false, lit 0 1)
      else if found && ltb 2 (length cs)
      then (found, div (lit (transitions (mul (lit 5 1) spread) cs) 0) (div (lit (length iq) 0) sr))
      else (found, lit 0 1)

  unfoldable pub detect_fhss : List (Complex F) → F → Result (Bool × F)
  detect_fhss iq sr =
      let seg_len = length iq / 32 in
      if ltb seg_len 64 then ok (false, lit 0 1) else do
        d ← reciprocal sr
        cs ← centroids seg_len iq (np.fftfreq seg_len d) (range 32)
        ok (hops_of iq sr cs)

  -- The instantaneous frequencies of the first 2048 samples, and their times.
  abbrev pub chirp_freqs : List (Complex F) → F → List F
  chirp_freqs iq sr = inst_freqs sr (take (min (length iq) 2048) iq)

  abbrev pub chirp_times : List (Complex F) → F → List F
  chirp_times iq sr = map (λ i. div i sr) (arange (length (chirp_freqs iq sr)))

  -- Whether the line, its slope first, is that of a chirp.
  abbrev pub chirp_of : List (Complex F) → F → F × F → Bool × F
  chirp_of iq sr line =
      let freq = chirp_freqs iq sr in
      let fitted = np.polyval_line line (chirp_times iq sr) in
      let residual = np.sum (zip_with (λ y fit. pow (sub y fit) 2) freq fitted) in
      let avg = np.mean freq in
      let spread = np.sum (map (λ y. pow (sub y avg) 2) freq) in
      let r_sq = sub (lit 10 1) (div residual (add spread (lit 1 30))) in
      let found = lt (lit 90 2) r_sq && lt (div sr (lit 2000 1)) (abs line.0) in
      (found, if found then line.0 else lit 0 1)

  unfoldable pub detect_chirp : List (Complex F) → F → Result (Bool × F)
  detect_chirp iq sr = if ltb (min (length iq) 2048) 64 then ok (false, lit 0 1) else do
    line ← np.polyfit_line (chirp_times iq sr) (chirp_freqs iq sr)
    ok (chirp_of iq sr line)

  -- The power of the windows; an array shorter than a hundred samples has empty windows.
  abbrev pub window_powers : List (Complex F) → ℕ → List F
  window_powers iq win_len =
      map (λ i. np.mean (powers (slice (i * win_len) ((i + 1) * win_len) iq))) (range 100)

  -- on_mask.astype(float), and its mean
  abbrev pub mask_of : List F → List F
  mask_of ps = map (λ p. if le (mul (np.max ps) (lit 10 2)) p then lit 10 1 else lit 0 1) ps

  abbrev pub first_peak : F → ℕ → List ℕ → F
  first_peak sr win_len [] = lit 0 1
  first_peak sr win_len (p ∷ ps) = mul (div (mul (lit p 0) (lit win_len 0)) sr) (lit 10000 1)

  -- ac / (ac[0] + 1e-30), of an array that is not empty
  abbrev pub normalised : List F → List F
  normalised [] = []
  normalised (a ∷ ac) = map (λ x. div x (add a (lit 1 30))) (a ∷ ac)

  -- The period in milliseconds, from the first peak of the autocorrelation.
  abbrev pub burst_period : F → ℕ → List F → F → F
  burst_period sr win_len mask duty =
      let on = map (λ m. sub m duty) mask in
      let ac = drop 99 (np.correlate_full on on) in
      first_peak sr win_len (np.find_peaks (normalised ac) (lit 3 1) 2)

  unfoldable pub detect_burst : List (Complex F) → F → Bool × F × F
  detect_burst iq sr =
      let win_len = max 1 (length iq / 100) in
      let mask = mask_of (window_powers iq win_len) in
      let duty = np.mean mask in
      (
        lt duty (lit 85 2),
        duty,
        if lt duty (lit 85 2) && lt (lit 0 1) duty
            then burst_period sr win_len mask duty
            else lit 0 1,
      )

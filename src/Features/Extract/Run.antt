-- ===== src/Features/Extract/Run.antt =====
-- Which inputs `FeatureExtractor.extract` takes, and on which it raises.
use native.Mathlib.Nat.{mul-le-mul_right}
use analysis_app.Prelude.{
  ℕ, ◌+◌, ◌-◌, ◌*◌, ◌/◌, ◌≤◌, ◌<◌, min, ◌≡◌, refl, ◌∙◌, sym, inl, inr, ◌⊎◌, String, false, List, [],
  ◌∷◌, length, take, length-take, length-map, ltb, arith, map, if-both, Bool-cases, All, All-weaken,
}
use analysis_app.Prelude.Results.{Result, ok, raised, Result-cases, Returns, absurd_raised}
use analysis_app.Float.{Float}
use analysis_app.Numpy.{Complex, Numpy, IsShaped}
use analysis_app.Features.{SignalFeatures}
use analysis_app.Features.Arrays.{
  slice, where_from, last_of, range, arange, of_real, clear_first, reciprocal,
}
use analysis_app.Features.Arrays.Shapes.{
  Returns-index, length-slice, where_from-below, All-last_of, length-zip_with, length-range_from,
  Returns-clear_first, range_from-below,
}
use analysis_app.Features.Detectors.{
  powers, low_bin, peak_of, centroids, estimate_symbol_rate, detect_fhss, chirp_freqs, chirp_times,
  detect_chirp,
}
use analysis_app.Features.Extract.{
  started, compensated, turned, set_bandwidth, spectral, detections, extract, offset_hz,
}

-- The test of the early return, when it fails.
enough : {n : ℕ} → ltb n 256 ≡ false → 256 ≤ n
enough h = ground arith

module _ {F : Type 0} ⦃fl : Float F⦄ ⦃np : Numpy F⦄ where
  -- A sample rate that is neither 0 nor infinite.
  abbrev pub IsFinite : F → Type 0
  IsFinite sr =
      (fl.eq sr (fl.lit 0 0) ≡ false) × (fl.eq (fl.div (fl.lit 10 1) sr) (fl.lit 0 0) ≡ false)

  -- What fitting the line of the first samples gives.
  abbrev pub fitted_line : List (Complex F) → F → Result (F × F)
  fitted_line iq sr = np.polyfit_line (chirp_times iq sr) (chirp_freqs iq sr)

  -- A sample rate at which a line is fitted through the frequencies of every array that is long enough.
  abbrev pub FitsLines : F → Type 0
  FitsLines sr = (iq : List (Complex F)) → 256 ≤ length iq → Returns (fitted_line iq sr)

module _ {F : Type 0} ⦃fl : Float F⦄ ⦃np : Numpy F⦄ (shapes : IsShaped F) where
  open fl use {lit, sub}

  Returns-reciprocal : (sr : F) → IsFinite sr → Returns (reciprocal sr)
  Returns-reciprocal sr (h, k) = rw (h, k) (_, refl)

  Returns-peak_of :
      (lo half : ℕ) (freqs spectrum : List F)
      → lo < half
      → half ≤ length freqs
      → half ≤ length spectrum
      → Returns (peak_of lo half freqs spectrum)
  Returns-peak_of lo half freqs spectrum h hf hs =
      let nf = length-slice lo half freqs hf in
      let ns = length-slice lo half spectrum hs in
      let (i, e, lt) = shapes.argmax_some (slice lo half spectrum) (omega (arith, ns, h)) in
      let (at, e1) = Returns-index (slice lo half freqs) i (omega (arith, lt, nf, ns)) in
      let (amp, e2) = Returns-index (slice lo half spectrum) i lt in rw (e, e1, e2) (_, refl)

  -- A spectrum with its first bin cleared.
  Returns-cleared :
      (x : List (Complex F)) (g : List (Complex F) → List F)
      → ((c : List (Complex F)) → length (g c) ≡ length c)
      → 0 < length x
      → (ys : List F) × (clear_first (g (np.fft x)) ≡ ok ys) × (length ys ≡ length x)
  Returns-cleared x g keeps h =
      let n = keeps (np.fft x) ∙ shapes.length-fft x in
      let (ys, e, m) = Returns-clear_first (g (np.fft x)) (omega (arith, n, h)) in (ys, e, m ∙ n)

  Returns-estimate :
      (fft_size : ℕ) (iq : List (Complex F)) (sr : F)
      → IsFinite sr
      → 256 ≤ length iq
      → low_bin fft_size < min (length iq) 65536 / 2
      → Returns (estimate_symbol_rate fft_size iq sr)
  unfolding estimate_symbol_rate
  Returns-estimate fft_size iq sr nz long low =
      let n = min (length iq) 65536 in
      let x = take n iq in
      let avg = np.mean (powers x) in
      let centred = map (λ p. of_real (sub p avg)) (powers x) in
      let fourth = map (λ c. np.power c 4) x in
      let lo = low_bin fft_size in
      let lx = length-take n iq in
      let lc = length-map (λ p. of_real (sub p avg)) (powers x) ∙ length-map _ x in
      let lf = length-map (λ c. np.power c 4) x in
      let (d, e1) = Returns-reciprocal sr nz in
      let (y, ey, ly) =
        Returns-cleared centred (map np.abs) (length-map np.abs) (omega (arith, lx, lc, long)) in
      let (z, ez, lz) =
        Returns-cleared fourth (map np.abs) (length-map np.abs) (omega (arith, lx, lf, long)) in
      let lq = shapes.length-fftfreq n d in
      let (pk1, e2) =
        Returns-peak_of lo (n / 2) (np.fftfreq n d) y low (omega (arith, lq))
          (omega (arith, ly, lc, lx)) in
      let (pk2, e3) =
        Returns-peak_of lo (n / 2) (np.fftfreq n d) z low (omega (arith, lq))
          (omega (arith, lz, lf, lx)) in
      rw (e1, ey, e2, ez, e3) (_, refl)

  Returns-centroids :
      (seg_len : ℕ) (iq : List (Complex F)) (freqs : List F) (is : List ℕ)
      → 0 < seg_len
      → All (λ i. (i + 1) * seg_len ≤ length iq) is
      → Returns (centroids seg_len iq freqs is)
  Returns-centroids seg_len iq freqs [] pos below = (_, refl)
  Returns-centroids seg_len iq freqs (i ∷ is) pos (b, below) =
      let seg = slice (i * seg_len) ((i + 1) * seg_len) iq in
      let n : length seg ≡ (i + 1) * seg_len - i * seg_len =
        length-slice (i * seg_len) ((i + 1) * seg_len) iq b in
      let (p, e, m) = Returns-cleared seg powers (length-map _) (omega (arith, n, pos)) in
      let (rest, er) = Returns-centroids seg_len iq freqs is pos below in rw (e, er) (_, refl)

  Returns-fhss : (iq : List (Complex F)) (sr : F) → IsFinite sr → Returns (detect_fhss iq sr)
  unfolding detect_fhss
  Returns-fhss iq sr nz =
      let seg_len = length iq / 32 in
      let found : ltb seg_len 64 ≡ false → Returns (detect_fhss iq sr) = λ enough.
        let (d, e1) = Returns-reciprocal sr nz in
        let below : All (λ i. (i + 1) * seg_len ≤ length iq) (range 32) =
          All-weaken (λ i. i < 32) (λ i. (i + 1) * seg_len ≤ length iq) (range 32)
            (λ i h.
              let up : (i + 1) * seg_len ≤ 32 * seg_len =
                mul-le-mul_right seg_len (omega (arith, h)) in
              omega (arith, up))
            (range_from-below 0 32) in
        let (cs, e2) =
          Returns-centroids seg_len iq (np.fftfreq seg_len d) (range 32) (ground arith) below in
        rw (enough, e1, e2) (_, refl) in
      elim (Bool-cases (ltb seg_len 64)) [ inl e ↦ rw e (_, refl) | inr e ↦ found e ]

  Returns-set_bandwidth :
      (freqs : List F) (found : List ℕ) (f : SignalFeatures F)
      → All (λ j. j < length freqs) found
      → Returns (set_bandwidth freqs found f)
  Returns-set_bandwidth freqs [] f below = (_, refl)
  Returns-set_bandwidth freqs (i ∷ is) f (b, below) =
      let (lo, e1) = Returns-index freqs i b in
      let (hi, e2) =
        Returns-index freqs (last_of i is) (All-last_of (λ j. j < length freqs) i is b below) in
      rw (e1, e2) (_, refl)

  Returns-spectral :
      (fft_size : ℕ) (iq : List (Complex F)) (sr : F) (f : SignalFeatures F)
      → 0 < fft_size
      → 256 ≤ length iq
      → Returns (spectral fft_size iq sr f)
  unfolding spectral
  Returns-spectral fft_size iq sr f size long =
      let (p, ep, lf, lp) =
        shapes.welch_some iq sr (min fft_size (length iq / 4)) (omega arith) (omega arith) in
      let psd = np.fftshift (map fl.abs p.1) in
      let ls = shapes.length-fftshift (map fl.abs p.1) in
      let lm = length-map fl.abs p.1 in
      let (i, ei, li) = shapes.argmax_some psd (omega (arith, ls, lm, lp, size, long)) in
      let (peak, ek) = Returns-index psd i li in
      let above = λ (v : F). fl.le (fl.div peak (lit 100 1)) v in
      let freqs = np.fftshift p.0 in
      let same : length psd ≡ length freqs =
        omega (arith, ls, lm, lp, lf, shapes.length-fftshift p.0) in
      let below : All (λ j. j < length freqs) (where_from above 0 psd) =
        All-weaken (λ j. j < 0 + length psd) (λ j. j < length freqs) (where_from above 0 psd)
          (λ j h. omega (arith, h, same)) (where_from-below above 0 psd) in
      let (wide, ew) = Returns-set_bandwidth freqs (where_from above 0 psd) f below in
      rw (ep, ei, ek, ew) (_, refl)

  length-turned : (cfo : F) (iq : List (Complex F)) (sr : F) → length (turned cfo iq sr) ≡ length iq
  length-turned cfo iq sr =
      let steps = length-map (λ i. lit i 0) (range (length iq)) in
      omega (
        arith,
        steps,
        length-range_from 0 (length iq),
        length-zip_with
            (λ (x : Complex F) (i : F).
              np.times x
                (np.cis (fl.neg (fl.mul (fl.mul (fl.mul (lit 2 0) np.pi) cfo) (fl.div i sr)))))
            iq (arange (length iq)),
      )

  pub length-compensated : (iq : List (Complex F)) (sr : F) → length (compensated iq sr) ≡ length iq
  unfolding compensated
  length-compensated iq sr =
      if-both (λ (x : List (Complex F)). length x ≡ length iq)
        (fl.lt (lit 10 1) (fl.abs (offset_hz iq sr))) (length-turned (offset_hz iq sr) iq sr) refl

  Returns-detect_chirp :
      (iq : List (Complex F)) (sr : F) → Returns (fitted_line iq sr) → Returns (detect_chirp iq sr)
  unfolding detect_chirp
  Returns-detect_chirp iq sr (line, e) = elim (Bool-cases (ltb (min (length iq) 2048) 64)) [
    | inl few ↦ rw few (_, refl)
    | inr enough ↦ rw (enough, e) (_, refl)
  ]

  Raises-detect_chirp :
      (iq : List (Complex F)) (sr : F) (e : String)
      → 256 ≤ length iq
      → fitted_line iq sr ≡ raised e
      → detect_chirp iq sr ≡ raised e
  unfolding detect_chirp
  Raises-detect_chirp iq sr e long h =
      let enough : ltb (min (length iq) 2048) 64 ≡ false = ground (arith, long) in
      rw (enough, h) refl

  module _ (fft_size : ℕ) (iq : List (Complex F)) (sr : F) (f : SignalFeatures F)
      (size : fft_size < 12800) (nz : IsFinite sr) (long : 256 ≤ length iq) where
    Returns-detections : Returns (fitted_line iq sr) → Returns (detections fft_size iq sr f)
    unfolding detections
    Returns-detections fits =
        let (rate, e1) = Returns-estimate fft_size iq sr nz long (omega (arith, size, long)) in
        let (hop, e2) = Returns-fhss iq sr nz in
        let (chirp, e3) = Returns-detect_chirp iq sr fits in rw (e1, e2, e3) (_, refl)

    Raises-detections :
        (e : String) → fitted_line iq sr ≡ raised e → detections fft_size iq sr f ≡ raised e
    unfolding detections
    Raises-detections e h =
        let (rate, e1) = Returns-estimate fft_size iq sr nz long (omega (arith, size, long)) in
        let (hop, e2) = Returns-fhss iq sr nz in
        rw (e1, e2, Raises-detect_chirp iq sr e long h) refl

  pub extract_lem :
      (fft_size : ℕ) (iq : List (Complex F)) (sr cf : F)
      → 0 < fft_size
      → fft_size < 12800
      → IsFinite sr
      → Returns (extract fft_size iq sr cf)
        ⊎ ((e : String) × (fitted_line (compensated iq sr) sr ≡ raised e)
            × (256 ≤ length iq)
            × (extract fft_size iq sr cf ≡ raised e))
  unfolding extract
  extract_lem fft_size iq sr cf pos size nz = elim (Bool-cases (ltb (length iq) 256)) [
    | inl e ↦ inl (rw e (_, refl))
    | inr e ↦
        let still = compensated iq sr in
        let same = length-compensated iq sr in
        let long : 256 ≤ length still = omega (arith, same, enough e) in
        let (g, eg) = Returns-spectral fft_size still sr (started iq sr cf) pos long in
        elim (Result-cases (fitted_line still sr)) [
          | inl fits ↦
              let (f, ef) = Returns-detections fft_size still sr _ size nz long fits in
              inl (rw (e, eg) (f, ef))
          | inr (t, fails) ↦ inr (
            t,
            fails,
            enough e,
            rw (e, eg) (Raises-detections fft_size still sr _ size nz long t fails),
          )
        ]
  ]

  pub Returns-extract :
      (fft_size : ℕ) (iq : List (Complex F)) (sr cf : F)
      → 0 < fft_size
      → fft_size < 12800
      → IsFinite sr
      → FitsLines sr
      → Returns (extract fft_size iq sr cf)
  Returns-extract fft_size iq sr cf pos size nz fits =
      elim (extract_lem fft_size iq sr cf pos size nz) [
        | inl returns ↦ returns
        | inr (e, fails, long, same) ↦
            let (line, fit) =
              fits (compensated iq sr) (omega (arith, long, length-compensated iq sr)) in
            absurd_raised (sym fails ∙ fit)
      ]

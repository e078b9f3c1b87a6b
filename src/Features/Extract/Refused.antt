-- ===== src/Features/Extract/Refused.antt =====
-- On which inputs `FeatureExtractor.extract` raises, and on which it returns the default features.
use analysis_app.Prelude.{
  ℕ, ◌/◌, ◌≤◌, ◌<◌, min, ◌≡◌, refl, inl, inr, ◌⊎◌, true, false, List, length, take, ltb, arith, map,
}
use analysis_app.Prelude.Results.{ok, Raises, Raises-bind, Raises-bind_first}
use analysis_app.Float.{Float}
use analysis_app.Numpy.{Complex, Numpy, IsShaped}
use analysis_app.Features.Arrays.{of_real, clear_first, reciprocal}
use analysis_app.Features.Arrays.Shapes.{slice_empty}
use analysis_app.Features.Detectors.{powers, low_bin, peak_of, estimate_symbol_rate}
use analysis_app.Features.Extract.{started, compensated, spectral, detections, extract}
use analysis_app.Features.Extract.Run.{length-compensated}

module _ {F : Type 0} ⦃fl : Float F⦄ ⦃np : Numpy F⦄ (shapes : IsShaped F) where
  open fl use {lit, eq, sub}

  Raises-peak_of :
      (lo half : ℕ) (freqs spectrum : List F) → half ≤ lo → Raises (peak_of lo half freqs spectrum)
  Raises-peak_of lo half freqs spectrum h =
      let (e, p) = shapes.argmax_none in rw (slice_empty lo half spectrum h, p) (e, refl)

  Raises-estimate :
      (fft_size : ℕ) (iq : List (Complex F)) (sr : F)
      → (eq sr (lit 0 0) ≡ true) ⊎ (min (length iq) 65536 / 2 ≤ fft_size / 100)
      → Raises (estimate_symbol_rate fft_size iq sr)
  unfolding estimate_symbol_rate
  Raises-estimate fft_size iq sr (inl zero_rate) = rw zero_rate (_, refl)
  Raises-estimate fft_size iq sr (inr far) =
      let half = min (length iq) 65536 / 2 in
      let lo = low_bin fft_size in
      let none_left : half ≤ lo = omega (arith, far) in
      Raises-bind (reciprocal sr) _ (λ d e.
        Raises-bind
          (clear_first (
            map np.abs (
              np.fft (
                map (λ p. of_real (sub p (np.mean (powers (take (min (length iq) 65536) iq)))))
                  (powers (take (min (length iq) 65536) iq))))))
          _
          (λ y k.
            Raises-bind_first (peak_of lo half (np.fftfreq (min (length iq) 65536) d) y) _
              (Raises-peak_of lo half _ y none_left)))

  -- On an array of 256 samples or more, `extract` raises when the sample rate is 0, and also when
  -- a hundredth of the FFT size reaches half of the number of samples, of which at most 65536 count.
  pub Raises-extract :
      (fft_size : ℕ) (iq : List (Complex F)) (sr cf : F)
      → 256 ≤ length iq
      → (eq sr (lit 0 0) ≡ true) ⊎ (min (length iq) 65536 / 2 ≤ fft_size / 100)
      → Raises (extract fft_size iq sr cf)
  unfolding extract detections
  Raises-extract fft_size iq sr cf long why =
      let few : ltb (length iq) 256 ≡ false = ground (arith, long) in
      let still = compensated iq sr in
      let why' : (eq sr (lit 0 0) ≡ true) ⊎ (min (length still) 65536 / 2 ≤ fft_size / 100) =
        rw (length-compensated shapes iq sr) why in
      rw few (
        Raises-bind (spectral fft_size still sr (started iq sr cf)) _ (λ g e.
          Raises-bind_first (estimate_symbol_rate fft_size still sr) _
            (Raises-estimate fft_size still sr why')))

module _ {F : Type 0} ⦃fl : Float F⦄ ⦃np : Numpy F⦄ where
  pub extract_short :
      (fft_size : ℕ) (iq : List (Complex F)) (sr cf : F)
      → length iq < 256
      → extract fft_size iq sr cf ≡ ok (started iq sr cf)
  unfolding extract
  extract_short fft_size iq sr cf h =
      let few : ltb (length iq) 256 ≡ true = ground (arith, h) in rw few

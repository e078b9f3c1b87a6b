-- ===== src/Features/Extract.antt =====
-- tools/test_harness/features.py: `FeatureExtractor.extract`. Each numbered part of the source is a
-- function that returns the record with the fields it assigns.
pub mod Run
pub mod Refused
use analysis_app.Prelude.{
  ℕ, zero, suc, ◌+◌, ◌-◌, ◌*◌, ◌/◌, min, Bool, true, false, not, List, [], ◌∷◌, ◌++◌, length, take,
  drop, any, ltb, if◌then◌else◌, map,
}
use analysis_app.Prelude.Results.{Result, ok, raised, ◌>>=◌}
use analysis_app.Float.{Float}
use analysis_app.Numpy.{Complex, Numpy}
use analysis_app.Features.{SignalFeatures, no_features}
use analysis_app.Features.Arrays.{
  slice, index, reverse, filter, where_from, last_of, zip_with, range, arange,
}
use analysis_app.Features.Detectors.{
  powers, phase_steps, inst_freqs, estimate_symbol_rate, detect_fhss, detect_chirp, detect_burst,
}
use analysis_app.Features.Ofdm.{detect_ofdm, flatness}

module _ {F : Type 0} ⦃fl : Float F⦄ ⦃np : Numpy F⦄ where
  open fl use {lit, neg, abs, log10, pow, add, sub, mul, div, lt, le}

  -- The features before the first part.
  abbrev pub started : List (Complex F) → F → F → SignalFeatures F
  started iq sr cf = record no_features {
    sample_count = length iq;
    sample_rate_sps = sr;
    center_freq_hz = cf;
  }

  -- Part 0: the coarse frequency offset, and its removal
  abbrev pub offset_hz : List (Complex F) → F → F
  offset_hz iq sr = div (mul (np.mean (phase_steps iq)) sr) (mul (lit 2 0) np.pi)

  abbrev pub turned : F → List (Complex F) → F → List (Complex F)
  turned cfo iq sr =
      let turn = λ (x : Complex F) (i : F).
        np.times x (np.cis (neg (mul (mul (mul (lit 2 0) np.pi) cfo) (div i sr)))) in
      zip_with turn iq (arange (length iq))

  unfoldable pub compensated : List (Complex F) → F → List (Complex F)
  compensated iq sr =
      let cfo = offset_hz iq sr in if lt (lit 10 1) (abs cfo) then turned cfo iq sr else iq

  -- Part 2: the bandwidth, between the first and the last bin that is within 10 dB of the peak
  abbrev pub set_bandwidth : List F → List ℕ → SignalFeatures F → Result (SignalFeatures F)
  set_bandwidth freqs [] f = ok f
  set_bandwidth freqs (first ∷ more) f = do
    lo ← index freqs first
    hi ← index freqs (last_of first more)
    ok (record f { bandwidth_hz = sub hi lo })

  -- Part 3
  abbrev pub set_snr : List F → F → SignalFeatures F → SignalFeatures F
  set_snr psd peak_power f =
      let above = λ (p : F). le (div peak_power (lit 100 1)) p in
      let floor = np.mean (take (length psd / 5) (np.sort psd)) in
      let signal = if any above psd then np.mean (filter above psd) else peak_power in
      if lt (lit 0 0) floor
      then record f { snr_db = mul (lit 10 0) (log10 (div signal floor)) }
      else f

  -- Part 5, without the bin at 0 Hz
  abbrev pub symmetry : List F → F
  symmetry psd =
      let half = length psd / 2 in
      let left = slice 1 half psd in
      let right = reverse (drop (half + 1) psd) in
      let min_len = min (length left) (length right) in
      let l = take min_len left in
      let r = take min_len right in
      let denom = add (np.mean (zip_with add l r)) (lit 1 30) in
      sub (lit 10 1) (div (np.mean (map abs (zip_with sub l r))) denom)

  -- Parts 1 to 5
  unfoldable pub spectral : ℕ → List (Complex F) → F → SignalFeatures F → Result (SignalFeatures F)
  spectral fft_size iq sr f = do
    spectrum ← np.welch iq sr (min fft_size (length iq / 4))
    let psd = np.fftshift (map abs spectrum.1)
    let freqs = np.fftshift spectrum.0
    peak_idx ← np.argmax psd
    peak_power ← index psd peak_idx
    wide ← set_bandwidth freqs (where_from (λ p. le (div peak_power (lit 100 1)) p) 0 psd) f
    let loud = set_snr psd peak_power wide
    ok (record loud { spectral_flatness = flatness psd; spectral_symmetry = symmetry psd })

  -- Part 6
  unfoldable pub envelope : List (Complex F) → SignalFeatures F → SignalFeatures F
  envelope iq f =
      let env = map np.abs iq in
      let emean = np.mean env in
      let emax = np.max env in
      let emin = np.min env in
      record f {
        envelope_mean = emean;
        envelope_std = np.std env;
        envelope_variance_norm =
            if lt (lit 0 0) emean then div (np.var env) (pow emean 2) else f.envelope_variance_norm;
        am_index =
            if lt (lit 0 0) (add emax emin)
            then div (sub emax emin) (add emax emin)
            else f.am_index;
      }

  -- np.diff
  abbrev pub differences : List F → List F
  differences [] = []
  differences (x ∷ []) = []
  differences (x ∷ (y ∷ ys)) = sub y x ∷ differences (y ∷ ys)

  -- Part 7
  unfoldable pub instantaneous : List (Complex F) → F → SignalFeatures F → SignalFeatures F
  instantaneous iq sr f =
      let freq = inst_freqs sr iq in
      let avg = np.mean freq in
      let spread = add (np.var freq) (lit 1 30) in
      let fourth = np.mean (map (λ x. pow (sub x avg) 4) freq) in
      record f {
        inst_freq_mean_hz = avg;
        inst_freq_std_hz = np.std freq;
        fm_deviation_hz = np.std freq;
        inst_freq_kurtosis = sub (div fourth (pow spread 2)) (lit 3 0);
        inst_phase_std = np.std (differences (np.unwrap (map np.angle iq)));
      }

  -- The fourth-order cumulant of an array, from its second and fourth moment
  abbrev pub cumulant40 : Complex F → Complex F → Complex F
  cumulant40 m40 m20 = np.minus m40 (np.scale (lit 3 0) (np.power m20 2))

  -- Part 8
  unfoldable pub cumulants : List (Complex F) → SignalFeatures F → SignalFeatures F
  cumulants x f =
      let m20 = np.mean_complex (map (λ c. np.times c c) x) in
      let m21 = np.mean (powers x) in
      let m40 = np.mean_complex (map (λ c. np.times (np.times (np.times c c) c) c) x) in
      let m42 = np.mean (map (λ c. pow (np.abs c) 4) x) in
      let c40 = cumulant40 m40 m20 in
      let c42 = sub (sub m42 (pow (np.abs m20) 2)) (mul (lit 2 0) (pow m21 2)) in
      if lt (lit 1 30) (pow m21 2)
      then record f {
        c40_real = div c40.re (pow m21 2);
        c40_imag = div c40.im (pow m21 2);
        c42 = div c42 (pow m21 2);
        m20_mag = div (np.abs m20) m21;
      }
      else f

  -- The pairs (c40, m20) of the windows of 256 samples that have power.
  abbrev pub window_cumulants : List (Complex F) → List ℕ → List (F × F)
  window_cumulants iq [] = []
  window_cumulants iq (i ∷ is) =
      let xs = slice (i * 256) ((i + 1) * 256) iq in
      let m21 = np.mean (powers xs) in
      let m20 = np.mean_complex (map (λ c. np.times c c) xs) in
      let m40 = np.mean_complex (map (λ c. np.power c 4) xs) in
      let rest = window_cumulants iq is in
      if lt m21 (lit 1 15)
      then rest
      else (div (cumulant40 m40 m20).re (pow m21 2), div (np.abs m20) m21) ∷ rest

  abbrev pub set_extremes : List (F × F) → SignalFeatures F → SignalFeatures F
  set_extremes [] f = f
  set_extremes (w ∷ ws) f = record f {
    c40_min = np.min (map (λ p. p.0) (w ∷ ws));
    m20_max = np.max (map (λ p. p.1) (w ∷ ws));
  }

  unfoldable pub windowed : List (Complex F) → SignalFeatures F → SignalFeatures F
  windowed iq f = set_extremes (window_cumulants iq (range (length iq / 256))) f

  -- Parts 9 to 14
  unfoldable pub detections :
      ℕ → List (Complex F) → F → SignalFeatures F → Result (SignalFeatures F)
  detections fft_size iq sr f = do
    rate ← estimate_symbol_rate fft_size iq sr
    let ofdm = detect_ofdm iq
    hop ← detect_fhss iq sr
    chirp ← detect_chirp iq sr
    let burst = detect_burst iq sr
    ok (record f {
      symbol_rate_sps = rate;
      ofdm_detected = ofdm.0;
      ofdm_fft_size_est = ofdm.1;
      ofdm_cp_ratio = ofdm.2;
      fhss_detected = hop.0;
      fhss_hop_rate_hz = hop.1;
      chirp_detected = chirp.0;
      chirp_rate_hz_s = chirp.1;
      is_burst = burst.0;
      burst_duty_cycle = burst.1;
      burst_period_ms = burst.2;
      bit_rate_bps = lit 0 1;
    })

  unfoldable pub extract : ℕ → List (Complex F) → F → F → Result (SignalFeatures F)
  extract fft_size iq sr cf =
      let f = started iq sr cf in
      let still = compensated iq sr in
      if ltb (length iq) 256 then ok f else do
        g ← spectral fft_size still sr f
        detections fft_size still sr
            (windowed still (cumulants still (instantaneous still sr (envelope still g))))

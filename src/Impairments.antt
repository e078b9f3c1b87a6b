-- ===== src/Impairments.antt =====
-- tools/test_harness/impairments.py: `add_impairments` and its stages. The generator of
-- random numbers is one stream for each of its calls, that the caller gives.
pub mod Stages
use analysis_app.Prelude.{
  ℕ, zero, suc, ◌+◌, ◌-◌, ◌*◌, min, String, Bool, true, false, not, ◌&&◌, ◌||◌, Option, none, some,
  List, [], ◌∷◌, ◌++◌, length, take, drop, replicate, get_elem?, ltb, leb, if◌then◌else◌, map,
}
use analysis_app.Prelude.Int.{ℤ, pos, negsuc}
use analysis_app.Prelude.Results.{Result, ok, raised, ◌>>=◌}
use analysis_app.Float.{Float}
use analysis_app.Numpy.{Complex, Numpy}
use analysis_app.Features.Arrays.{zip_with, index, range, arange}
use analysis_app.Features.Detectors.{powers}
use analysis_app.Profiles.{
  Tap, ImpairmentConfig, ImpairmentProfile, clean, rtl_sdr, hackrf, pluto_sdr, over_the_air,
  no_impairment, tap, profiles,
}

-- What the stages take from numpy and from the generator beside the arrays: cosine, sine and
-- radians, int(x) and the power 10 ** x, which may raise, the floor of a float that is not negative, and
-- the draws.
pub record Channel (F : Type 0) : Type 0 where
  pub cos : F → F
  pub sin : F → F
  pub radians : F → F
  pub int_of : F → Result ℤ
  pub ten_to : F → Result F
  pub floor : F → ℕ
  -- rng.normal(0, sigma, n) for the phase walk and for the jitter, rng.standard_normal(n) twice
  pub normal_phase : F → ℕ → List F
  pub normal_jitter : F → ℕ → List F
  pub noise_re : ℕ → List F
  pub noise_im : ℕ → List F

module _ {F : Type 0} ⦃fl : Float F⦄ ⦃np : Numpy F⦄ (ch : Channel F) where
  open fl use {lit, neg, add, sub, mul, div, sqrt, lt, le, eq}

  abbrev pub zero_value : Complex F
  zero_value = record { re = lit 0 0; im = lit 0 0 }

  -- zeros, with x[:n - d] from position d on; all zeros if d >= n
  abbrev pub delayed_by : ℕ → List (Complex F) → List (Complex F)
  delayed_by d x =
      if ltb d (length x)
      then replicate d zero_value ++ take (length x - d) x
      else replicate (length x) zero_value

  -- zeros, with delayed[d:] = x[:n - d], where a negative place counts from the end
  unfoldable pub placed : ℤ → List (Complex F) → Result (List (Complex F))
  placed (pos d) x = ok (delayed_by d x)
  placed (negsuc k) x =
      if leb (length x) (suc k) then ok x else raised "could not broadcast input array from shape"

  -- An integer as a float, the integer after it, and whether it is below a length.
  abbrev pub float_of : ℤ → F
  float_of (pos d) = lit d 0
  float_of (negsuc k) = neg (lit (suc k) 0)

  abbrev pub after : ℤ → ℤ
  after (pos d) = pos (d + 1)
  after (negsuc zero) = pos 0
  after (negsuc (suc k)) = negsuc k

  abbrev pub before : ℤ → ℕ → Bool
  before (pos d) n = ltb d n
  before (negsuc k) n = true

  -- The delayed copy of a tap, with linear interpolation between two whole delays.
  unfoldable pub delayed : Tap F → List (Complex F) → Result (List (Complex F))
  unfolding placed
  delayed t x = ch.int_of t.delay >>= λ d_int. placed d_int x >>= λ whole.
      let d_frac = sub t.delay (float_of d_int) in
      if lt (lit 0 0) d_frac && before (after d_int) (length x)
      then (placed (after d_int) x >>= λ later. ok (
          zip_with np.plus (map (np.scale (sub (lit 1 0) d_frac)) whole)
            (map (np.scale d_frac) later)))
      else ok whole

  -- y += amp * ph * delayed
  abbrev pub add_tap : Tap F → List (Complex F) → List (Complex F) → Result (List (Complex F))
  add_tap t x y =
      let gain = np.scale t.amplitude (np.cis (ch.radians t.phase_deg)) in
      delayed t x >>= λ late. ok (zip_with np.plus y (map (np.times gain) late))

  abbrev pub add_taps :
      List (Tap F) → List (Complex F) → List (Complex F) → Result (List (Complex F))
  add_taps [] x y = ok y
  add_taps (t ∷ ts) x y = add_tap t x y >>= λ z. add_taps ts x z

  unfoldable pub multipath : ImpairmentConfig F → List (Complex F) → Result (List (Complex F))
  unfolding delayed
  multipath cfg x = add_taps cfg.multipath_taps x x

  -- The offset in Hz, if it is given, else the one in parts per million.
  unfoldable pub frequency_offset : F → ImpairmentConfig F → F
  frequency_offset sample_rate cfg =
      if not (eq cfg.freq_offset_hz (lit 0 1))
      then cfg.freq_offset_hz
      else if not (eq cfg.freq_offset_ppm (lit 0 1))
      then mul (mul cfg.freq_offset_ppm (lit 1 6)) sample_rate
      else lit 0 1

  -- x * np.exp(1j * phase)
  abbrev pub rotated : List F → List (Complex F) → List (Complex F)
  rotated phases x = zip_with (λ v p. np.times v (np.cis p)) x phases

  unfoldable pub frequency_shift : F → ImpairmentConfig F → List (Complex F) → List (Complex F)
  unfolding frequency_offset
  frequency_shift sample_rate cfg x =
      let f_off = frequency_offset sample_rate cfg in
      if not (eq f_off (lit 0 1))
      then rotated
          (map (λ i. mul (mul (mul (lit 2 0) np.pi) f_off) (div i sample_rate)) (arange (length x)))
          x
      else x

  -- The division by the sample rate is one of Python's own floats.
  unfoldable pub phase_noise : F → ImpairmentConfig F → List (Complex F) → Result (List (Complex F))
  phase_noise sample_rate cfg x =
      let sigma = sqrt (div (mul (mul (lit 2 0) np.pi) cfg.phase_noise_linewidth_hz) sample_rate) in
      if lt (lit 0 0) cfg.phase_noise_linewidth_hz
      then if eq sample_rate (lit 0 0)
        then raised "float division by zero"
        else ok (rotated (np.cumsum (ch.normal_phase sigma (length x))) x)
      else ok x

  unfoldable pub iq_imbalance : ImpairmentConfig F → List (Complex F) → Result (List (Complex F))
  iq_imbalance cfg x =
      let phi = ch.radians cfg.iq_phase_imbalance_deg in
      if not (eq cfg.iq_amplitude_imbalance_db (lit 0 1))
        || not (eq cfg.iq_phase_imbalance_deg (lit 0 1))
      then (ch.ten_to (div cfg.iq_amplitude_imbalance_db (lit 200 1)) >>= λ alpha. ok (
          map
            (λ v. record {
              re = v.re;
              im = add (mul (mul v.im alpha) (ch.cos phi)) (mul v.re (ch.sin phi));
            })
            x))
      else ok x

  unfoldable pub dc_offset : ImpairmentConfig F → List (Complex F) → List (Complex F)
  dc_offset cfg x =
      let pwr = np.mean (powers x) in
      let rms = if lt (lit 0 0) pwr then sqrt pwr else lit 10 1 in
      let offset = np.scale rms (record { re = cfg.dc_offset_i; im = cfg.dc_offset_q }) in
      map (λ v. np.plus v offset) x

  -- The value at a time between two samples.
  abbrev pub resampled_at : List (Complex F) → F → Result (Complex F)
  resampled_at x t =
      let lo = ch.floor t in
      let frac = sub t (lit lo 0) in
      do
        low ← index x lo
        high ← index x (min (lo + 1) (length x - 1))
        ok (np.plus (np.scale (sub (lit 1 0) frac) low) (np.scale frac high))

  abbrev pub resampled : List (Complex F) → List F → Result (List (Complex F))
  resampled x [] = ok []
  resampled x (t ∷ ts) = do v ← resampled_at x t; rest ← resampled x ts; ok (v ∷ rest)

  -- The perturbed times, clipped to the array, which is not empty where there is a time.
  abbrev pub jittered : ImpairmentConfig F → ℕ → List F
  jittered cfg n =
      map (λ t. np.clip t (lit 0 0) (lit (n - 1) 0))
        (zip_with add (arange n) (ch.normal_jitter cfg.timing_jitter_sigma n))

  unfoldable pub timing_jitter : ImpairmentConfig F → List (Complex F) → Result (List (Complex F))
  timing_jitter cfg x =
      if lt (lit 0 0) cfg.timing_jitter_sigma then resampled x (jittered cfg (length x)) else ok x

  unfoldable pub add_noise : ImpairmentConfig F → List (Complex F) → Result (List (Complex F))
  add_noise cfg x =
      let noise =
        zip_with (λ a b. record { re = a; im = b }) (ch.noise_re (length x))
          (ch.noise_im (length x)) in
      if lt cfg.snr_db (lit 100 0)
      then (ch.ten_to (div cfg.snr_db (lit 10 0)) >>= λ ratio.
          let noise_pwr = div (np.mean (powers x)) ratio in
          ok (zip_with np.plus x (map (np.scale (sqrt (div noise_pwr (lit 2 0)))) noise)))
      else ok x

  -- cfg or PROFILES[profile]
  abbrev pub config_of : Option (ImpairmentConfig F) → ImpairmentProfile → ImpairmentConfig F
  config_of none profile = profiles profile
  config_of (some cfg) profile = cfg

  unfoldable pub add_impairments :
      List (Complex F)
      → F
      → Option (ImpairmentConfig F)
      → ImpairmentProfile
      → Result (List (Complex F))
  unfolding multipath frequency_shift phase_noise iq_imbalance dc_offset timing_jitter add_noise
      profiles
  add_impairments iq sample_rate given profile =
      let cfg = config_of given profile in
      do
        w ← multipath cfg iq
        x ← phase_noise sample_rate cfg (frequency_shift sample_rate cfg w)
        v ← iq_imbalance cfg x
        y ← timing_jitter cfg (dc_offset cfg v)
        add_noise cfg y

-- ===== src/Impairments/Stages.antt =====
-- `add_impairments` keeps the number of samples, and when it raises.
use analysis_app.Prelude.{
  ℕ, suc, ◌+◌, ◌-◌, ◌*◌, ◌/◌, ◌^◌, ◌≤◌, ◌<◌, min, ◌≡◌, refl, ap, ◌∙◌, true, false, not, ◌||◌, ◌&&◌,
  sym, Option, List, [], ◌∷◌, length, length-append, length-take, length-replicate, length-map,
  take, replicate, map, ltb, ltb→lt, arith, All, All-map, All-weaken, Bool-cases, inl, inr, if-both,
  if-each,
}
use analysis_app.Prelude.Int.{pos}
use analysis_app.Prelude.Results.{Result, ok, Returns, ◌>>=◌}
use analysis_app.Float.{Float}
use analysis_app.Numpy.{Complex, Numpy, IsShaped}
use analysis_app.Features.Arrays.{zip_with, range, arange}
use analysis_app.Features.Arrays.Shapes.{Returns-index, length-zip_with, length-range_from}
use analysis_app.Impairments.{
  Channel, zero_value, delayed_by, placed, delayed, add_taps, multipath, frequency_offset, rotated,
  frequency_shift, phase_noise, iq_imbalance, dc_offset, resampled, jittered, timing_jitter,
  add_noise, config_of, add_impairments,
}
use analysis_app.Profiles.{
  Tap, ImpairmentConfig, ImpairmentProfile, profiles, clean, rtl_sdr, hackrf, pluto_sdr,
  over_the_air,
}

-- The times of the jitter, before they are clipped.
abbrev pub jitter_times :
    {F : Type 0} ⦃fl : Float F⦄ ⦃np : Numpy F⦄ (ch : Channel F) → F → ℕ → List F
jitter_times ⦃fl⦄ ch sigma n = zip_with fl.add (arange n) (ch.normal_jitter sigma n)

-- What Python and numpy document: as many draws as asked for; the floor of a number clipped to 0 .. m is
-- at most m, where m is a float without rounding; int() of a literal cuts its decimals; 10 ** x does not
-- overflow where it stands for less than 100 dB; and draws of a sigma that is a literal are finite.
pub record IsSound (F : Type 0) ⦃fl : Float F⦄ ⦃np : Numpy F⦄ (ch : Channel F) : Type 0 where
  pub length-normal_phase : (sigma : F) (n : ℕ) → length (ch.normal_phase sigma n) ≡ n
  pub length-normal_jitter : (sigma : F) (n : ℕ) → length (ch.normal_jitter sigma n) ≡ n
  pub length-noise_re : (n : ℕ) → length (ch.noise_re n) ≡ n
  pub length-noise_im : (n : ℕ) → length (ch.noise_im n) ≡ n
  pub floor_clip :
      (t : F) (m : ℕ)
      → fl.eq t t ≡ true
      → m ≤ 2 ^ 53
      → ch.floor (np.clip t (fl.lit 0 0) (fl.lit m 0)) ≤ m
  pub int_literal : (m e : ℕ) → m ≤ 10 ^ 9 → e ≤ 6 → ch.int_of (fl.lit m e) ≡ ok (pos (m / 10 ^ e))
  pub ten_to_snr :
      (db : F) → fl.lt db (fl.lit 100 0) ≡ true → Returns (ch.ten_to (fl.div db (fl.lit 10 0)))
  pub ten_to_literal :
      (m e : ℕ) → m ≤ 100 * 10 ^ e → Returns (ch.ten_to (fl.div (fl.lit m e) (fl.lit 200 1)))
  pub finite_jitter :
      (m e n : ℕ) → m ≤ 10 ^ 9 → All (λ t. fl.eq t t ≡ true) (jitter_times ch (fl.lit m e) n)

-- A configuration whose delays int() takes to integers that are not negative, whose imbalance is no more dB
-- than a float can hold as a factor, and whose jitter gives numbers.
pub record IsUsable (F : Type 0) ⦃fl : Float F⦄ ⦃np : Numpy F⦄ (ch : Channel F)
    (cfg : ImpairmentConfig F) : Type 0 where
  pub delays : All (λ t. (d : ℕ) × (ch.int_of t.delay ≡ ok (pos d))) cfg.multipath_taps
  pub imbalance : Returns (ch.ten_to (fl.div cfg.iq_amplitude_imbalance_db (fl.lit 200 1)))
  pub jitter : (n : ℕ) → All (λ t. fl.eq t t ≡ true) (jitter_times ch cfg.timing_jitter_sigma n)

module _ {F : Type 0} ⦃fl : Float F⦄ ⦃np : Numpy F⦄ (ch : Channel F) where
  open fl use {lit, div, lt, eq}

  length-arange : (n : ℕ) → length (arange {F = F} n) ≡ n
  length-arange n = length-map (λ i. lit i 0) (range n) ∙ length-range_from 0 n

  length-delayed_by : (d : ℕ) (x : List (Complex F)) → length (delayed_by ch d x) ≡ length x
  length-delayed_by d x = elim (Bool-cases (ltb d (length x))) [
    | inl e ↦ rw e (
        omega (
          arith,
          length-append (replicate d (zero_value ch)) (take (length x - d) x),
          length-replicate d (zero_value ch),
          length-take (length x - d) x,
          ltb→lt d (length x) e,
        ))
    | inr e ↦ rw e (length-replicate (length x) (zero_value ch))
  ]

  zip_keeps :
      {A B C : Type 0} (f : A → B → C) (xs : List A) (ys : List B)
      → length ys ≡ length xs
      → length (zip_with f xs ys) ≡ length xs
  zip_keeps f xs ys h = omega (arith, length-zip_with f xs ys, h)

  -- A stage that may raise, and returns as many samples as it got.
  abbrev pub Keeps : List (Complex F) → Result (List (Complex F)) → Type 0
  Keeps x m = (y : List (Complex F)) × (m ≡ ok y) × (length y ≡ length x)

  Keeps-delayed :
      (t : Tap F) (x : List (Complex F)) (d : ℕ)
      → ch.int_of t.delay ≡ ok (pos d)
      → Keeps x (delayed ch t x)
  unfolding delayed placed
  Keeps-delayed t x d e =
      let whole = length-delayed_by d x in
      let next = length-delayed_by (d + 1) x in
      rw e (
        if-both (Keeps x) (lt (lit 0 0) (fl.sub t.delay (lit d 0)) && ltb (d + 1) (length x))
          (
            _,
            refl,
            zip_keeps np.plus _ _ (length-map _ _ ∙ next ∙ sym whole ∙ sym (length-map _ _))
                ∙ length-map _ _
                ∙ whole,
          )
          (_, refl, whole))

  Keeps-add_taps :
      (ts : List (Tap F)) (x y : List (Complex F))
      → All (λ t. (d : ℕ) × (ch.int_of t.delay ≡ ok (pos d))) ts
      → length y ≡ length x
      → Keeps x (add_taps ch ts x y)
  Keeps-add_taps [] x y delays h = (y, refl, h)
  Keeps-add_taps (t ∷ ts) x y ((d, e), delays) h =
      let (late, f, n) = Keeps-delayed t x d e in
      let gain = np.scale t.amplitude (np.cis (ch.radians t.phase_deg)) in
      let next = zip_with np.plus y (map (np.times gain) late) in
      let kept : length next ≡ length x =
        zip_keeps np.plus y _ (length-map (np.times gain) late ∙ n ∙ sym h) ∙ h in
      let (z, g, m) = Keeps-add_taps ts x next delays kept in (z, rw f g, m)

  Keeps-multipath :
      (cfg : ImpairmentConfig F) (x : List (Complex F))
      → IsUsable F ch cfg
      → Keeps x (multipath ch cfg x)
  unfolding multipath
  Keeps-multipath cfg x usable = Keeps-add_taps cfg.multipath_taps x x usable.delays refl

  length-rotated :
      (phases : List F) (x : List (Complex F))
      → length phases ≡ length x
      → length (rotated ch phases x) ≡ length x
  length-rotated phases x h = zip_keeps (λ v p. np.times v (np.cis p)) x phases h

  length-frequency_shift :
      (sr : F) (cfg : ImpairmentConfig F) (x : List (Complex F))
      → length (frequency_shift ch sr cfg x) ≡ length x
  unfolding frequency_shift
  length-frequency_shift sr cfg x =
      if-both (λ (y : List (Complex F)). length y ≡ length x)
        (not (eq (frequency_offset ch sr cfg) (lit 0 1)))
        (length-rotated _ x (length-map _ _ ∙ length-arange (length x))) refl

  Keeps-iq_imbalance :
      (cfg : ImpairmentConfig F) (x : List (Complex F))
      → IsUsable F ch cfg
      → Keeps x (iq_imbalance ch cfg x)
  unfolding iq_imbalance
  Keeps-iq_imbalance cfg x usable =
      let (alpha, e) = usable.imbalance in
      let factor : (f : F → Complex F → Complex F)
          → Keeps x (
              ch.ten_to (div cfg.iq_amplitude_imbalance_db (lit 200 1)) >>= λ a. ok (map (f a) x)) =
        λ f. rw e (_, refl, length-map (f alpha) x) in
      if-both (Keeps x)
        (not (eq cfg.iq_amplitude_imbalance_db (lit 0 1))
          || not (eq cfg.iq_phase_imbalance_deg (lit 0 1)))
        (factor _) (x, refl, refl)

  length-dc_offset :
      (cfg : ImpairmentConfig F) (x : List (Complex F)) → length (dc_offset ch cfg x) ≡ length x
  unfolding dc_offset
  length-dc_offset cfg x = length-map _ x

  module _ (shapes : IsShaped F) (sound : IsSound F ch) where
    Keeps-phase_noise :
        (sr : F) (cfg : ImpairmentConfig F) (x : List (Complex F))
        → eq sr (lit 0 0) ≡ false
        → Keeps x (phase_noise ch sr cfg x)
    unfolding phase_noise
    Keeps-phase_noise sr cfg x nz =
        if-both (Keeps x) (lt (lit 0 0) cfg.phase_noise_linewidth_hz)
          (rw nz (
            _,
            refl,
            length-rotated _ x (shapes.length-cumsum _ ∙ sound.length-normal_phase _ (length x)),
          ))
          (x, refl, refl)

    Returns-resampled :
        (x : List (Complex F)) (ts : List F)
        → All (λ t. ch.floor t < length x) ts
        → (y : List (Complex F)) × (resampled ch x ts ≡ ok y) × (length y ≡ length ts)
    Returns-resampled x [] below = ([], refl, refl)
    Returns-resampled x (t ∷ ts) (b, below) =
        let (low, e1) = Returns-index x (ch.floor t) b in
        let (high, e2) = Returns-index x (min (ch.floor t + 1) (length x - 1)) (omega (arith, b)) in
        let (rest, e3, n) = Returns-resampled x ts below in rw (e1, e2, e3) (_, refl, ap suc n)

    jittered_below :
        (cfg : ImpairmentConfig F) (x : List (Complex F))
        → IsUsable F ch cfg
        → length x ≤ 2 ^ 53
        → All (λ t. ch.floor t < length x) (jittered ch cfg (length x))
    jittered_below cfg [] usable few = tt
    jittered_below cfg (v ∷ x) usable few =
        let n = length (v ∷ x) in
        let times = jitter_times ch cfg.timing_jitter_sigma n in
        All-map (λ t. ch.floor t < n) (λ t. np.clip t (lit 0 0) (lit (n - 1) 0)) times
          (All-weaken (λ t. eq t t ≡ true) (λ t. ch.floor (np.clip t (lit 0 0) (lit (n - 1) 0)) < n)
            times
            (λ t number.
              let low = sound.floor_clip t (n - 1) number (omega (arith, few)) in
              omega (arith, low))
            (usable.jitter n))

    Keeps-timing_jitter :
        (cfg : ImpairmentConfig F) (x : List (Complex F))
        → IsUsable F ch cfg
        → length x ≤ 2 ^ 53
        → Keeps x (timing_jitter ch cfg x)
    unfolding timing_jitter
    Keeps-timing_jitter cfg x usable few =
        let ts = jittered ch cfg (length x) in
        let drawn = sound.length-normal_jitter cfg.timing_jitter_sigma (length x) in
        let n : length ts ≡ length x =
          length-map _ _
          ∙ zip_keeps fl.add (arange (length x)) _ (drawn ∙ sym (length-arange (length x)))
          ∙ length-arange (length x) in
        let below : All (λ t. ch.floor t < length x) ts = jittered_below cfg x usable few in
        let (y, e, m) = Returns-resampled x ts below in
        if-both (Keeps x) (lt (lit 0 0) cfg.timing_jitter_sigma) (y, e, m ∙ n) (x, refl, refl)

    Keeps-add_noise :
        (cfg : ImpairmentConfig F) (x : List (Complex F)) → Keeps x (add_noise ch cfg x)
    unfolding add_noise
    Keeps-add_noise cfg x =
        let re = sound.length-noise_re (length x) in
        let im = sound.length-noise_im (length x) in
        if-each (Keeps x) (lt cfg.snr_db (lit 100 0))
          (λ loud.
            let (ratio, e) = sound.ten_to_snr cfg.snr_db loud in
            rw e (
              _,
              refl,
              zip_keeps np.plus x _ (length-map _ _ ∙ zip_keeps _ _ _ (im ∙ sym re) ∙ re),
            ))
          (λ quiet. (x, refl, refl))

    -- With a sample rate other than 0, at most 2^53 samples, and a configuration, given or of a profile,
    -- whose delays int() takes to integers that are not negative, whose amplitude imbalance gives a
    -- factor without overflow and whose jitter gives no NaN: `add_impairments` returns, with exactly
    -- as many samples as the input. No index of the resampling is out of range.
    pub add_impairments_lem :
        (iq : List (Complex F)) (sr : F) (given : Option (ImpairmentConfig F))
        (profile : ImpairmentProfile)
        → eq sr (lit 0 0) ≡ false
        → length iq ≤ 2 ^ 53
        → IsUsable F ch (config_of ch given profile)
        → Keeps iq (add_impairments ch iq sr given profile)
    unfolding add_impairments
    add_impairments_lem iq sr given profile nz few usable =
        let cfg = config_of ch given profile in
        let (w, ew, nw) = Keeps-multipath cfg iq usable in
        let (x, ex, nx) = Keeps-phase_noise sr cfg (frequency_shift ch sr cfg w) nz in
        let (v, ev, nv) = Keeps-iq_imbalance cfg x usable in
        let shift : length (dc_offset ch cfg v) ≡ length iq =
          length-dc_offset cfg v ∙ nv ∙ nx ∙ length-frequency_shift sr cfg w ∙ nw in
        let (y, ey, ny) =
          Keeps-timing_jitter cfg (dc_offset ch cfg v) usable (omega (arith, few, shift)) in
        let (z, ez, nz_) = Keeps-add_noise cfg y in
        let n : length z ≡ length iq = nz_ ∙ ny ∙ shift in rw (ew, ex, ev, ey) (z, ez, n)

    pub profiles-IsUsable : (profile : ImpairmentProfile) → IsUsable F ch (profiles profile)
    unfolding profiles
    profiles-IsUsable clean = record {
      delays = tt;
      imbalance = sound.ten_to_literal 1 1 (omega arith);
      jitter = λ n. sound.finite_jitter 0 1 n (omega arith);
    }
    profiles-IsUsable rtl_sdr = record {
      delays = tt;
      imbalance = sound.ten_to_literal 5 1 (omega arith);
      jitter = λ n. sound.finite_jitter 2 3 n (omega arith);
    }
    profiles-IsUsable hackrf = record {
      delays = tt;
      imbalance = sound.ten_to_literal 3 1 (omega arith);
      jitter = λ n. sound.finite_jitter 1 3 n (omega arith);
    }
    profiles-IsUsable pluto_sdr = record {
      delays = tt;
      imbalance = sound.ten_to_literal 15 2 (omega arith);
      jitter = λ n. sound.finite_jitter 0 1 n (omega arith);
    }
    profiles-IsUsable over_the_air =
        let whole = λ (m : ℕ) (h : m ≤ 10 ^ 9). sound.int_literal m 1 h (omega arith) in
        record {
          delays = (
            (2, whole 21 (omega arith)),
            ((5, whole 53 (omega arith)), ((11, whole 117 (omega arith)), tt)),
          );
          imbalance = sound.ten_to_literal 4 1 (omega arith);
          jitter = λ n. sound.finite_jitter 3 3 n (omega arith);
        }

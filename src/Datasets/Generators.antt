-- ===== src/Datasets/Generators.antt =====
-- tools/test_harness/datasets.py: the generators of `generate_synthetic`. What the generator of random
-- numbers draws for a sample is given, and so is what numpy computes beside the arrays.
pub mod Lengths
use analysis_app.Prelude.{
  ℕ, zero, suc, ◌+◌, ◌-◌, ◌*◌, ◌/◌, leb, ltb, ◌==◌, String, Bool, true, false, Option, none, some,
  List, [], ◌∷◌, ◌++◌, length, take, drop, map, replicate, if◌then◌else◌,
}
use analysis_app.Prelude.Assoc.{lookup}
use analysis_app.Prelude.Results.{Result, ok, raised, ◌>>=◌, each}
use analysis_app.Features.Arrays.{arange, index, of_real, range, zip_with}
use analysis_app.Features.Arrays.Chunks.{concat_all, repeated}
use analysis_app.Features.Detectors.{powers}
use analysis_app.Float.{Float}
use analysis_app.Numpy.{Complex, Numpy}
use analysis_app.Datasets.{IqSample, normalise}
use analysis_app.Datasets.Raw.{iq_value}

-- rng.choice of a constellation of so many points as places in it, rng.choice for a symbol of OFDM,
-- rng.integers(0, 2, n), rng.standard_normal(n) for the audio and for the noise.
pub record Draws (F : Type 0) : Type 0 where
  pub places : ℕ → ℕ → List ℕ
  pub ofdm_places : ℕ → ℕ → List ℕ
  pub bits : ℕ → List ℕ
  pub audio : ℕ → List F
  pub noise_re : ℕ → List F
  pub noise_im : ℕ → List F

-- np.fft.ifft, the floor of a float that is not negative, and 10 ** x.
pub record Tools (F : Type 0) : Type 0 where
  pub ifft : List (Complex F) → List (Complex F)
  pub floor : F → ℕ
  pub ten_to : F → F

-- An entry of _SYNTH_GENERATORS: the kind with its arguments.
pub data Kind (F : Type 0) : Type 0 where
  psk : ℕ → ℕ → Kind F
  qam : ℕ → ℕ → Kind F
  fm : F → Kind F
  am : F → Bool → Kind F
  ofdm : ℕ → ℕ → Kind F
  fsk : ℕ → F → Kind F
  css : F → ℕ → Kind F

-- int(math.sqrt(n)): the greatest number up to m whose square is at most n, for m = n
abbrev pub root_from : ℕ → ℕ → ℕ
root_from n zero = 0
root_from n (suc m) = let rest = root_from n m in if leb (suc m * suc m) n then suc m else rest

module _ {F : Type 0} ⦃fl : Float F⦄ ⦃np : Numpy F⦄ where
  open fl use {lit, neg, add, sub, mul, div, sqrt, pow}

  abbrev pub psk_points : ℕ → List (Complex F)
  psk_points order =
      map (λ k. np.cis (div (mul (mul k (lit 2 0)) np.pi) (lit order 0))) (arange order)

  -- np.arange(-(k - 1), k, 2), and the grid of two of them
  abbrev pub qam_points : ℕ → List (Complex F)
  qam_points order =
      let k = root_from order order in
      let vals = map (λ i. sub (lit (2 * i) 0) (lit (k - 1) 0)) (range k) in
      concat_all (map (λ q. map (λ i. iq_value i q) vals) vals)

  -- np.repeat(rng.choice(const, n // sps + 1), sps)[:n]
  unfoldable pub symbols_of : List (Complex F) → Draws F → ℕ → ℕ → Result (List (Complex F))
  symbols_of const draws n sps =
      each (index const) (draws.places (length const) (n / sps + 1)) >>= λ syms.
      ok (normalise (take n (repeated sps syms)))

  unfoldable pub gen_fm : F → Draws F → ℕ → F → List (Complex F)
  gen_fm dev_hz draws n sr =
      let peak = add (np.max (map fl.abs (draws.audio n))) (lit 1 9) in
      let audio = map (λ a. div a peak) (draws.audio n) in
      let gain = div (mul (mul (lit 2 0) np.pi) dev_hz) sr in
      normalise (map (λ p. np.cis (mul gain p)) (np.cumsum audio))

  unfoldable pub gen_am_audio : F → Bool → Draws F → ℕ → List (Complex F)
  gen_am_audio mod_depth suppress draws n =
      let audio = map (λ a. mul a (lit 5 1)) (draws.audio n) in
      normalise (
        if suppress
        then map of_real audio
        else map (λ a. of_real (add (lit 10 1) (mul mod_depth a))) audio)

  module _ (tools : Tools F) where
    abbrev pub four_points : List (Complex F)
    four_points =
        iq_value (lit 1 0) (lit 1 0)
        ∷ iq_value (lit 1 0) (neg (lit 1 0))
        ∷ iq_value (neg (lit 1 0)) (lit 1 0)
        ∷ iq_value (neg (lit 1 0)) (neg (lit 1 0))
        ∷ []

    unfoldable pub synth_symbol : ℕ → ℕ → Draws F → ℕ → Result (List (Complex F))
    synth_symbol nfft cp draws k = each (index four_points) (draws.ofdm_places k nfft) >>= λ fd.
        let td = tools.ifft fd in ok (drop (length td - cp) td ++ td)

    -- the symbols from the k-th on, while they are too short
    unfoldable pub synth_symbols : ℕ → ℕ → Draws F → ℕ → ℕ → ℕ → Result (List (List (Complex F)))
    unfolding synth_symbol
    synth_symbols nfft cp draws n zero k = ok []
    synth_symbols nfft cp draws n (suc fuel) k =
        let rest = synth_symbols nfft cp draws n fuel (suc k) in
        if ltb (k * (nfft + cp)) n
        then (synth_symbol nfft cp draws k >>= λ s. rest >>= λ ss. ok (s ∷ ss))
        else ok []

    unfoldable pub gen_ofdm_symbols : ℕ → ℕ → Draws F → ℕ → Result (List (Complex F))
    unfolding synth_symbols
    gen_ofdm_symbols nfft cp draws n =
        synth_symbols nfft cp draws n (n / (nfft + cp) + 1) 0 >>= λ syms.
        if length syms == 0
        then raised "need at least one array to concatenate"
        else ok (normalise (take n (concat_all syms)))

    unfoldable pub gen_fsk_bits : ℕ → F → Draws F → ℕ → F → List (Complex F)
    gen_fsk_bits sps dev draws n sr =
        let hop : ℕ → F = λ b. mul (sub (mul (lit 2 0) (lit b 0)) (lit 1 0)) dev in
        let freqs = repeated sps (map hop (draws.bits (n / sps + 1))) in
        let gain = div (mul (lit 2 0) np.pi) sr in
        normalise (map (λ p. np.cis (mul gain p)) (np.cumsum (take n freqs)))

    unfoldable pub css_sweep : F → F → ℕ → List (Complex F)
    css_sweep sr bw cl =
        let slope = div bw (div (mul (lit 2 0) (lit cl 0)) sr) in
        let t = map (λ i. div i sr) (arange cl) in
        map
          (λ x. np.cis (
            mul (mul (lit 2 0) np.pi) (add (mul (div (neg bw) (lit 2 0)) x) (mul slope (pow x 2)))))
          t

    unfoldable pub gen_css : F → ℕ → ℕ → F → Result (List (Complex F))
    unfolding css_sweep
    gen_css bw n_chirp n sr =
        let cl = tools.floor (mul (div sr bw) (lit n_chirp 0)) in
        if cl == 0
        then raised "integer division or modulo by zero"
        else ok (normalise (take n (concat_all (replicate (n / cl + 1) (css_sweep sr bw cl)))))

    -- the branch of a kind
    unfoldable pub gen_kind : Kind F → Draws F → ℕ → F → Result (List (Complex F))
    unfolding symbols_of gen_fm gen_am_audio gen_ofdm_symbols gen_fsk_bits gen_css
    gen_kind (psk order sps) draws n sr = symbols_of (psk_points order) draws n sps
    gen_kind (qam order sps) draws n sr = symbols_of (qam_points order) draws n sps
    gen_kind (fm dev_hz) draws n sr = ok (gen_fm dev_hz draws n sr)
    gen_kind (am mod_depth suppress) draws n sr = ok (gen_am_audio mod_depth suppress draws n)
    gen_kind (ofdm nfft cp) draws n sr = gen_ofdm_symbols nfft cp draws n
    gen_kind (fsk sps dev) draws n sr = ok (gen_fsk_bits sps dev draws n sr)
    gen_kind (css bw n_chirp) draws n sr = gen_css bw n_chirp n sr

    unfoldable pub awgn : Draws F → List (Complex F) → F → List (Complex F)
    awgn draws iq snr_db =
        let noise_pwr = div (np.mean (powers iq)) (tools.ten_to (div snr_db (lit 10 0))) in
        let noise = zip_with iq_value (draws.noise_re (length iq)) (draws.noise_im (length iq)) in
        zip_with np.plus iq (map (np.scale (sqrt (div noise_pwr (lit 2 0)))) noise)

-- ===== src/Datasets/Generators/Lengths.antt =====
-- The lengths of the generated samples.
use native.Mathlib.Nat.{lt-div-mul-add}
use analysis_app.Prelude.{
  ℕ, zero, suc, ◌+◌, ◌-◌, ◌*◌, ◌/◌, ◌≤◌, ◌<◌, ◌≡◌, refl, ap, ◌∙◌, inl, inr, ltb, Bool, false, ◌==◌,
  List, [], ◌∷◌, length, length-append, length-map, length-take, length-drop, map, take, drop,
  replicate, All, arith, Bool-cases, if-both,
}
use analysis_app.Prelude.Results.{Result, ok}
use analysis_app.Features.Arrays.{of_real, zip_with}
use analysis_app.Features.Arrays.Shapes.{each-index, length-zip_with, length-map-arange}
use analysis_app.Features.Arrays.Chunks.{concat_all, repeated, length-repeated, length-tiled}
use analysis_app.Float.{Float}
use analysis_app.Numpy.{Complex, Numpy, IsShaped}
use analysis_app.Datasets.{length-normalise}
use analysis_app.Datasets.Raw.{iq_value}
use analysis_app.Datasets.Generators.{
  Draws, Tools, Kind, psk, qam, fm, am, ofdm, fsk, css, psk_points, qam_points, symbols_of, gen_fm,
  gen_am_audio, four_points, synth_symbol, synth_symbols, gen_ofdm_symbols, gen_fsk_bits, css_sweep,
  gen_css, gen_kind, awgn,
}

-- What numpy documents of the draws: as many as asked for, and places of one of the points.
pub record IsDrawn (F : Type 0) (draws : Draws F) : Type 0 where
  pub length-places : (k n : ℕ) → length (draws.places k n) ≡ n
  pub places_below : (k n : ℕ) → 0 < k → All (λ p. p < k) (draws.places k n)
  pub length-ofdm_places : (k n : ℕ) → length (draws.ofdm_places k n) ≡ n
  pub ofdm_places_below : (k n : ℕ) → All (λ p. p < 4) (draws.ofdm_places k n)
  pub length-bits : (n : ℕ) → length (draws.bits n) ≡ n
  pub length-audio : (n : ℕ) → length (draws.audio n) ≡ n
  pub length-noise_re : (n : ℕ) → length (draws.noise_re n) ≡ n
  pub length-noise_im : (n : ℕ) → length (draws.noise_im n) ≡ n

-- A list that is long enough is cut to the length.
cut : {A : Type 0} (n : ℕ) (xs : List A) → n ≤ length xs → length (take n xs) ≡ n
cut n xs h = omega (arith, length-take n xs, h)

some_symbol :
    {A : Type 0} (n : ℕ) (syms : List (List A))
    → 0 < n
    → n ≤ length (concat_all syms)
    → (length syms == 0) ≡ false
some_symbol n [] h k = absurd (omega (arith, h, k))
some_symbol n (s ∷ syms) h k = ground arith

whole_cover : (n k : ℕ) → 0 < k → n ≤ (n / k + 1) * k
whole_cover n k h =
    let next : (n / k + 1) * k ≡ n / k * k + k = grind arith in
    omega (arith, next, lt-div-mul-add {a = n} {b = k} h)

-- A generator that returns, with so many samples.
abbrev pub Gives : {F : Type 0} → ℕ → Result (List (Complex F)) → Type 0
Gives {F} n m = (iq : List (Complex F)) × (m ≡ ok iq) × (length iq ≡ n)

module _ {F : Type 0} ⦃fl : Float F⦄ ⦃np : Numpy F⦄ (tools : Tools F) where
  -- The arguments of a kind that give a signal: some points, some samples for each symbol, a prefix no
  -- longer than its symbol, a sweep that is not empty.
  abbrev pub IsKind : F → Kind F → Type 0
  IsKind sr (psk order sps) = (0 < length (psk_points {F = F} order)) × (0 < sps)
  IsKind sr (qam order sps) = (0 < length (qam_points {F = F} order)) × (0 < sps)
  IsKind sr (fm dev_hz) = Unit
  IsKind sr (am mod_depth suppress) = Unit
  IsKind sr (ofdm nfft cp) = (0 < nfft) × (cp ≤ nfft)
  IsKind sr (fsk sps dev) = 0 < sps
  IsKind sr (css bw n_chirp) = 0 < tools.floor (fl.mul (fl.div sr bw) (fl.lit n_chirp 0))

module _ {F : Type 0} ⦃fl : Float F⦄ ⦃np : Numpy F⦄ (shapes : IsShaped F) (tools : Tools F)
    (length-ifft : (xs : List (Complex F)) → length (tools.ifft xs) ≡ length xs) (draws : Draws F)
    (drawn : IsDrawn F draws) where
  symbols_of-Gives :
      (const : List (Complex F)) (n sps : ℕ)
      → 0 < length const
      → 0 < sps
      → Gives n (symbols_of const draws n sps)
  unfolding symbols_of
  symbols_of-Gives const n sps some_point some_sample =
      let (syms, e, m) =
        each-index const (draws.places (length const) (n / sps + 1))
          (drawn.places_below (length const) (n / sps + 1) some_point) in
      let many : length (repeated sps syms) ≡ (n / sps + 1) * sps =
        length-repeated sps syms
        ∙ ap (λ k. k * sps) (m ∙ drawn.length-places (length const) (n / sps + 1)) in
      rw e (
        _,
        refl,
        length-normalise _
            ∙ cut n (repeated sps syms) (omega (arith, many, whole_cover n sps some_sample)),
      )

  length-gen_fm : (dev sr : F) (n : ℕ) → length (gen_fm dev draws n sr) ≡ n
  unfolding gen_fm
  length-gen_fm dev sr n =
      length-normalise _
      ∙ length-map _ (np.cumsum _)
      ∙ shapes.length-cumsum _
      ∙ length-map _ (draws.audio n)
      ∙ drawn.length-audio n

  length-gen_am_audio :
      (depth : F) (suppress : Bool) (n : ℕ) → length (gen_am_audio depth suppress draws n) ≡ n
  unfolding gen_am_audio
  length-gen_am_audio depth suppress n =
      let audio = map (λ a. fl.mul a (fl.lit 5 1)) (draws.audio n) in
      let m : length audio ≡ n = length-map _ (draws.audio n) ∙ drawn.length-audio n in
      length-normalise _
      ∙ if-both (λ (x : List (Complex F)). length x ≡ n) suppress (length-map of_real audio ∙ m)
          (length-map _ audio ∙ m)

  synth_symbol-Gives :
      (nfft cp k : ℕ) → cp ≤ nfft → Gives (nfft + cp) (synth_symbol tools nfft cp draws k)
  unfolding synth_symbol
  synth_symbol-Gives nfft cp k short =
      let (fd, e, m) =
        each-index (four_points tools) (draws.ofdm_places k nfft)
          (drawn.ofdm_places_below k nfft) in
      let td = tools.ifft fd in
      let n : length td ≡ nfft = length-ifft fd ∙ m ∙ drawn.length-ofdm_places k nfft in
      rw e (
        _,
        refl,
        omega (
          arith,
          n,
          short,
          length-append (drop (length td - cp) td) td,
          length-drop (length td - cp) td,
        ),
      )

  -- With a turn for each symbol that is missing, the symbols reach the length.
  synth_symbols-reach :
      (nfft cp n fuel k : ℕ)
      → cp ≤ nfft
      → n ≤ (k + fuel) * (nfft + cp)
      → (syms : List (List (Complex F))) × (synth_symbols tools nfft cp draws n fuel k ≡ ok syms)
        × (n ≤ k * (nfft + cp) + length (concat_all syms))
  unfolding synth_symbols
  synth_symbols-reach nfft cp n zero k short h =
      let z : k + 0 ≡ k = omega arith in
      let end : n ≤ k * (nfft + cp) = rw z at h in ([], refl, omega (arith, end))
  synth_symbols-reach nfft cp n (suc fuel) k short h = elim (Bool-cases (ltb (k * (nfft + cp)) n)) [
    | inr e ↦ rw e ([], refl, ground (arith, e))
    | inl e ↦
        let z : k + suc fuel ≡ suc k + fuel = omega arith in
        let (s, d, m) = synth_symbol-Gives nfft cp k short in
        let (syms, c, reach) = synth_symbols-reach nfft cp n fuel (suc k) short (rw z at h) in
        let next : suc k * (nfft + cp) ≡ k * (nfft + cp) + (nfft + cp) = grind arith in
        rw (e, d, c)
          (s ∷ syms, refl, omega (arith, reach, m, next, length-append s (concat_all syms)))
  ]

  gen_ofdm_symbols-Gives :
      (nfft cp n : ℕ)
      → 0 < n
      → 0 < nfft
      → cp ≤ nfft
      → Gives n (gen_ofdm_symbols tools nfft cp draws n)
  unfolding gen_ofdm_symbols
  gen_ofdm_symbols-Gives nfft cp n some_sample some_bin short =
      let (syms, e, reach) =
        synth_symbols-reach nfft cp n (n / (nfft + cp) + 1) 0 short
          (omega (arith, whole_cover n (nfft + cp) (omega (arith, some_bin)))) in
      let covers : n ≤ length (concat_all syms) = omega (arith, reach) in
      rw (e, some_symbol n syms some_sample covers)
        (_, refl, length-normalise _ ∙ cut n (concat_all syms) covers)

  length-gen_fsk_bits :
      (sps n : ℕ) (dev sr : F) → 0 < sps → length (gen_fsk_bits tools sps dev draws n sr) ≡ n
  unfolding gen_fsk_bits
  length-gen_fsk_bits sps n dev sr some_sample =
      let hops =
        map (λ b. fl.mul (fl.sub (fl.mul (fl.lit 2 0) (fl.lit b 0)) (fl.lit 1 0)) dev)
          (draws.bits (n / sps + 1)) in
      let many : length (repeated sps hops) ≡ (n / sps + 1) * sps =
        length-repeated sps hops
        ∙ ap (λ k. k * sps)
            (length-map _ (draws.bits (n / sps + 1)) ∙ drawn.length-bits (n / sps + 1)) in
      length-normalise _
      ∙ length-map _ (np.cumsum (take n (repeated sps hops)))
      ∙ shapes.length-cumsum (take n (repeated sps hops))
      ∙ cut n (repeated sps hops) (omega (arith, many, whole_cover n sps some_sample))

  length-css_sweep : (sr bw : F) (cl : ℕ) → length (css_sweep tools sr bw cl) ≡ cl
  unfolding css_sweep
  length-css_sweep sr bw cl = length-map _ _ ∙ length-map-arange _ cl

  gen_css-Gives :
      (bw sr : F) (n_chirp n : ℕ)
      → 0 < tools.floor (fl.mul (fl.div sr bw) (fl.lit n_chirp 0))
      → Gives n (gen_css tools bw n_chirp n sr)
  unfolding gen_css
  gen_css-Gives bw sr n_chirp n some_sweep =
      let cl : ℕ = tools.floor (fl.mul (fl.div sr bw) (fl.lit n_chirp 0)) in
      let sweep = css_sweep tools sr bw cl in
      let sweeps = concat_all (replicate (n / cl + 1) sweep) in
      let many : length sweeps ≡ (n / cl + 1) * cl =
        length-tiled (n / cl + 1) sweep ∙ ap (λ k. (n / cl + 1) * k) (length-css_sweep sr bw cl) in
      let test : (cl == 0) ≡ false = ground (arith, some_sweep) in
      rw test (
        _,
        refl,
        length-normalise _ ∙ cut n sweeps (omega (arith, many, whole_cover n cl some_sweep)),
      )

  pub gen_kind-Gives :
      (kind : Kind F) (sr : F) (n : ℕ)
      → 0 < n
      → IsKind tools sr kind
      → Gives n (gen_kind tools kind draws n sr)
  unfolding gen_kind
  gen_kind-Gives (psk order sps) sr n h (some_point, some_sample) =
      symbols_of-Gives (psk_points order) n sps some_point some_sample
  gen_kind-Gives (qam order sps) sr n h (some_point, some_sample) =
      symbols_of-Gives (qam_points order) n sps some_point some_sample
  gen_kind-Gives (fm dev_hz) sr n h k = (_, refl, length-gen_fm dev_hz sr n)
  gen_kind-Gives (am mod_depth suppress) sr n h k =
      (_, refl, length-gen_am_audio mod_depth suppress n)
  gen_kind-Gives (ofdm nfft cp) sr n h (some_bin, short) =
      gen_ofdm_symbols-Gives nfft cp n h some_bin short
  gen_kind-Gives (fsk sps dev) sr n h k = (_, refl, length-gen_fsk_bits sps n dev sr k)
  gen_kind-Gives (css bw n_chirp) sr n h k = gen_css-Gives bw sr n_chirp n k

  pub length-awgn : (iq : List (Complex F)) (snr : F) → length (awgn tools draws iq snr) ≡ length iq
  unfolding awgn
  length-awgn iq snr =
      let noise = zip_with iq_value (draws.noise_re (length iq)) (draws.noise_im (length iq)) in
      omega (
        arith,
        length-zip_with np.plus iq (map (np.scale _) noise),
        length-map (np.scale _) noise,
        length-zip_with (iq_value {F = F}) (draws.noise_re (length iq))
            (draws.noise_im (length iq)),
        drawn.length-noise_re (length iq),
        drawn.length-noise_im (length iq),
      )

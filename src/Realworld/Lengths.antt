-- ===== src/Realworld/Lengths.antt =====
-- The lengths of the generated signals.
use analysis_app.Prelude.{
  ℕ, zero, suc, ◌+◌, ◌-◌, ◌*◌, ◌/◌, ◌≤◌, ◌≡◌, refl, ap, ◌∙◌, inl, inr, ltb, List, [], ◌∷◌, length,
  length-append, length-map, length-take, length-drop, replicate, take, drop, map, arith,
  Bool-cases,
}
use analysis_app.Features.Arrays.{of_real}
use analysis_app.Features.Arrays.Shapes.{length-map-arange}
use analysis_app.Features.Arrays.Chunks.{concat_all, repeated, length-repeated, length-tiled}
use analysis_app.Float.{Float}
use analysis_app.Numpy.{Complex, Numpy, IsShaped}
use analysis_app.Datasets.{length-normalise}
use analysis_app.Realworld.Signals.{
  Source, gen_bpsk, gen_qpsk, gen_fm_nb, gen_am, ofdm_symbol, ofdm_symbols, bit_sign, quarter,
  chirp, chirp_len, gen_ofdm, gen_fsk, gen_css_lora, signals,
}

-- What numpy documents: as many draws as asked for, and an inverse transform of the same length.
pub record IsDrawn (F : Type 0) (src : Source F) : Type 0 where
  pub length-ifft : (xs : List (Complex F)) → length (src.ifft xs) ≡ length xs
  pub length-bpsk_bits : (n : ℕ) → length (src.bpsk_bits n) ≡ n
  pub length-fsk_bits : (n : ℕ) → length (src.fsk_bits n) ≡ n
  pub length-qpsk_points : (n : ℕ) → length (src.qpsk_points n) ≡ n
  pub length-ofdm_points : (k n : ℕ) → length (src.ofdm_points k n) ≡ n
  pub length-audio : (n : ℕ) → length (src.audio n) ≡ n

module _ {F : Type 0} ⦃fl : Float F⦄ ⦃np : Numpy F⦄ (shapes : IsShaped F) (src : Source F)
    (drawn : IsDrawn F src) where
  length-gen_bpsk : (n : ℕ) → length (gen_bpsk src n) ≡ n / 8 * 8
  unfolding gen_bpsk
  length-gen_bpsk n =
      let signs = map (bit_sign src) (src.bpsk_bits (n / 8)) in
      let many : length signs ≡ n / 8 =
        length-map (bit_sign src) _ ∙ drawn.length-bpsk_bits (n / 8) in
      let values = map of_real (repeated 8 signs) in
      let all_of : length values ≡ length signs * 8 =
        length-map of_real _ ∙ length-repeated 8 signs in
      length-normalise (take n values) ∙ omega (arith, many, all_of, length-take n values)

  length-gen_qpsk : (n : ℕ) → length (gen_qpsk src n) ≡ n / 8 * 8
  unfolding gen_qpsk
  length-gen_qpsk n =
      let points = map (quarter src) (src.qpsk_points (n / 8)) in
      let many : length points ≡ n / 8 =
        length-map (quarter src) _ ∙ drawn.length-qpsk_points (n / 8) in
      length-normalise (repeated 8 points) ∙ length-repeated 8 points ∙ ap (λ k. k * 8) many

  length-gen_fm_nb : (n : ℕ) → length (gen_fm_nb src n) ≡ n
  unfolding gen_fm_nb
  length-gen_fm_nb n =
      length-normalise _
      ∙ length-map _ (np.cumsum _)
      ∙ shapes.length-cumsum _
      ∙ length-map _ (src.audio n)
      ∙ drawn.length-audio n

  length-gen_am : (n : ℕ) → length (gen_am src n) ≡ n
  unfolding gen_am
  length-gen_am n = length-normalise _ ∙ length-map _ _ ∙ length-map _ _ ∙ length-map-arange _ n

  length-ofdm_symbol : (k : ℕ) → length (ofdm_symbol src k) ≡ 80
  unfolding ofdm_symbol
  length-ofdm_symbol k =
      let td = src.ifft (map (quarter src) (src.ofdm_points k 64)) in
      let n : length td ≡ 64 =
        drawn.length-ifft _ ∙ length-map (quarter src) _ ∙ drawn.length-ofdm_points k 64 in
      omega (arith, n, length-append (drop (length td - 16) td) td, length-drop (length td - 16) td)

  -- With a turn for each symbol that is missing, the symbols reach the length.
  ofdm_symbols-reach :
      (n fuel k : ℕ)
      → n ≤ (k + fuel) * 80
      → n ≤ k * 80 + length (concat_all (ofdm_symbols src n fuel k))
  unfolding ofdm_symbols
  ofdm_symbols-reach n zero k h = omega (arith, h)
  ofdm_symbols-reach n (suc fuel) k h = elim (Bool-cases (ltb (k * (64 + 16)) n)) [
    | inl e ↦
        let rest = ofdm_symbols-reach n fuel (suc k) (omega (arith, h)) in
        rw e (
          omega (
            arith,
            rest,
            length-append (ofdm_symbol src k) (concat_all (ofdm_symbols src n fuel (suc k))),
            length-ofdm_symbol k,
          ))
    | inr e ↦ rw e (ground (arith, e))
  ]

  length-gen_ofdm : (n : ℕ) → length (gen_ofdm src n) ≡ n
  unfolding gen_ofdm
  length-gen_ofdm n =
      let symbols = concat_all (ofdm_symbols src n (n / 80 + 1) 0) in
      length-normalise (take n symbols)
      ∙ omega (arith, ofdm_symbols-reach n (n / 80 + 1) 0 (omega arith), length-take n symbols)

  length-gen_fsk : (n : ℕ) → length (gen_fsk src n) ≡ n / 20 * 20
  unfolding gen_fsk
  length-gen_fsk n =
      let hops = map (λ b. fl.mul (bit_sign src b) (fl.lit 8000 0)) (src.fsk_bits (n / 20)) in
      let many : length hops ≡ n / 20 = length-map _ _ ∙ drawn.length-fsk_bits (n / 20) in
      let phase =
        map (fl.mul (fl.div (fl.mul (fl.lit 2 0) np.pi) (fl.lit 200000 0)))
          (np.cumsum (repeated 20 hops)) in
      let all_of : length phase ≡ length hops * 20 =
        length-map _ _ ∙ shapes.length-cumsum _ ∙ length-repeated 20 hops in
      length-normalise _
      ∙ length-map np.cis (take n phase)
      ∙ omega (arith, many, all_of, length-take n phase)

  length-chirp : (len : ℕ) → length (chirp src len) ≡ len
  unfolding chirp
  length-chirp len = length-map _ _ ∙ length-map-arange _ len

  length-gen_css_lora : (n : ℕ) → length (gen_css_lora src n) ≡ n
  unfolding gen_css_lora
  length-gen_css_lora n =
      let sweeps = concat_all (replicate (n / chirp_len + 1) (chirp src chirp_len)) in
      let all_of : length sweeps ≡ (n / chirp_len + 1) * chirp_len =
        length-tiled (n / chirp_len + 1) (chirp src chirp_len)
        ∙ ap (λ k. (n / chirp_len + 1) * k) (length-chirp chirp_len) in
      length-normalise (take n sweeps) ∙ omega (arith, all_of, length-take n sweeps)

  -- For draws of the right length: the seven signals that the script generates have 8192 samples each, as
  -- asked for, but the FSK signal has 8180, since 20 samples for each symbol do not divide 8192.
  pub signals_lem :
      map (λ s. length s.iq) (signals src)
      ≡ 8192 ∷ (8192 ∷ (8192 ∷ (8192 ∷ (8192 ∷ (8180 ∷ (8192 ∷ []))))))
  unfolding signals
  signals_lem =
      rw
        (
          length-gen_bpsk 8192,
          length-gen_qpsk 8192,
          length-gen_fm_nb 8192,
          length-gen_am 8192,
          length-gen_ofdm 8192,
          length-gen_fsk 8192,
          length-gen_css_lora 8192,
        )
        refl

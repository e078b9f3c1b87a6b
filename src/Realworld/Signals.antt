-- ===== src/Realworld/Signals.antt =====
-- tools/test_harness/verify_realworld.py: the generators of the signals, at their default rates, and
-- the table SIGNALS. What a generator draws and what numpy computes beside the arrays is given.
use analysis_app.Prelude.{
  ℕ, zero, suc, ◌+◌, ◌-◌, ◌*◌, ◌/◌, ltb, String, List, [], ◌∷◌, ◌++◌, length, take, drop, map,
  replicate, if◌then◌else◌,
}
use analysis_app.Features.Arrays.{arange, of_real}
use analysis_app.Features.Arrays.Chunks.{concat_all, repeated}
use analysis_app.Float.{Float}
use analysis_app.Numpy.{Complex, Numpy}
use analysis_app.Datasets.{normalise}
use analysis_app.Datasets.Raw.{iq_value}

pub record Source (F : Type 0) : Type 0 where
  pub sin : F → F
  pub ifft : List (Complex F) → List (Complex F)
  -- rng.integers(0, 2, n) of the two generators of bits, the places that rng.choice draws of four
  -- points, the k-th time for OFDM, and rng.standard_normal(n)
  pub bpsk_bits : ℕ → List ℕ
  pub fsk_bits : ℕ → List ℕ
  pub qpsk_points : ℕ → List ℕ
  pub ofdm_points : ℕ → ℕ → List ℕ
  pub audio : ℕ → List F

pub record Signal (F : Type 0) : Type 0 where
  pub label : String
  pub iq : List (Complex F)
  pub sample_rate : F

-- int(sr / bw * 512), at 500 kHz and 125 kHz
abbrev pub chirp_len : ℕ
chirp_len = 2048

module _ {F : Type 0} ⦃fl : Float F⦄ ⦃np : Numpy F⦄ (src : Source F) where
  open fl use {lit, neg, add, sub, mul, div, pow}

  -- 2 * bits - 1
  abbrev pub bit_sign : ℕ → F
  bit_sign b = sub (mul (lit 2 0) (lit b 0)) (lit 1 0)

  unfoldable pub gen_bpsk : ℕ → List (Complex F)
  gen_bpsk n = normalise (take n (map of_real (repeated 8 (map bit_sign (src.bpsk_bits (n / 8))))))

  abbrev pub quarter : ℕ → Complex F
  quarter zero = iq_value (lit 1 0) (lit 1 0)
  quarter (suc zero) = iq_value (lit 1 0) (neg (lit 1 0))
  quarter (suc (suc zero)) = iq_value (neg (lit 1 0)) (lit 1 0)
  quarter (suc (suc (suc i))) = iq_value (neg (lit 1 0)) (neg (lit 1 0))

  unfoldable pub gen_qpsk : ℕ → List (Complex F)
  gen_qpsk n = normalise (repeated 8 (map quarter (src.qpsk_points (n / 8))))

  unfoldable pub gen_fm_nb : ℕ → List (Complex F)
  gen_fm_nb n =
      let peak = add (np.max (map fl.abs (src.audio n))) (lit 1 9) in
      let audio = map (λ a. div a peak) (src.audio n) in
      let gain = div (mul (mul (lit 2 0) np.pi) (lit 20000 0)) (lit 200000 0) in
      normalise (map (λ p. np.cis (mul gain p)) (np.cumsum audio))

  unfoldable pub gen_am : ℕ → List (Complex F)
  gen_am n =
      let tone : ℕ → F → F =
        λ hz t. mul (lit 5 1) (src.sin (mul (mul (mul (lit 2 0) np.pi) (lit hz 0)) t)) in
      let t = map (λ i. div i (lit 200000 0)) (arange n) in
      let audio = map (λ x. add (tone 800 x) (tone 1200 x)) t in
      normalise (map (λ a. of_real (add (lit 10 1) (mul (lit 85 2) a))) audio)

  -- the k-th symbol of 64 values, behind its last 16
  unfoldable pub ofdm_symbol : ℕ → List (Complex F)
  ofdm_symbol k =
      let td = src.ifft (map quarter (src.ofdm_points k 64)) in drop (length td - 16) td ++ td

  -- while len(syms) * (nfft + cp_len) < n, from the k-th symbol on
  unfoldable pub ofdm_symbols : ℕ → ℕ → ℕ → List (List (Complex F))
  unfolding ofdm_symbol
  ofdm_symbols n zero k = []
  ofdm_symbols n (suc fuel) k =
      let rest = ofdm_symbols n fuel (suc k) in
      if ltb (k * (64 + 16)) n then ofdm_symbol k ∷ rest else []

  unfoldable pub gen_ofdm : ℕ → List (Complex F)
  unfolding ofdm_symbols
  gen_ofdm n = normalise (take n (concat_all (ofdm_symbols n (n / 80 + 1) 0)))

  unfoldable pub gen_fsk : ℕ → List (Complex F)
  gen_fsk n =
      let freq = repeated 20 (map (λ b. mul (bit_sign b) (lit 8000 0)) (src.fsk_bits (n / 20))) in
      let gain = div (mul (lit 2 0) np.pi) (lit 200000 0) in
      let phase = map (mul gain) (np.cumsum freq) in normalise (map np.cis (take n phase))

  -- a sweep of that many samples
  unfoldable pub chirp : ℕ → List (Complex F)
  chirp len =
      let f0 = div (neg (lit 125000 0)) (lit 2 0) in
      let slope = div (lit 125000 0) (div (mul (lit 2 0) (lit len 0)) (lit 500000 0)) in
      let t = map (λ i. div i (lit 500000 0)) (arange len) in
      map (λ x. np.cis (mul (mul (lit 2 0) np.pi) (add (mul f0 x) (mul slope (pow x 2))))) t

  unfoldable pub gen_css_lora : ℕ → List (Complex F)
  unfolding chirp
  gen_css_lora n = normalise (take n (concat_all (replicate (n / chirp_len + 1) (chirp chirp_len))))

  -- SIGNALS, with the signals generated
  unfoldable pub signals : List (Signal F)
  signals =
      record { label = "BPSK"; iq = gen_bpsk 8192; sample_rate = lit 200000 0 }
      ∷ record { label = "QPSK"; iq = gen_qpsk 8192; sample_rate = lit 200000 0 }
      ∷ record { label = "FM_NB"; iq = gen_fm_nb 8192; sample_rate = lit 200000 0 }
      ∷ record { label = "AM_DSB_LC"; iq = gen_am 8192; sample_rate = lit 200000 0 }
      ∷ record { label = "OFDM"; iq = gen_ofdm 8192; sample_rate = lit 1000000 0 }
      ∷ record { label = "FSK"; iq = gen_fsk 8192; sample_rate = lit 200000 0 }
      ∷ record { label = "CSS/LoRa"; iq = gen_css_lora 8192; sample_rate = lit 500000 0 }
      ∷ []

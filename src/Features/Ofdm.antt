-- ===== src/Features/Ofdm.antt =====
-- tools/test_harness/features.py: `_detect_ofdm`, the search for a cyclic prefix.
pub mod Search
use analysis_app.Prelude.{
  ℕ, zero, suc, ◌+◌, ◌-◌, ◌*◌, ◌/◌, min, max, Bool, true, false, List, [], ◌∷◌, length, take, ltb,
  if◌then◌else◌, map,
}
use analysis_app.Float.{Float}
use analysis_app.Numpy.{Complex, Numpy}
use analysis_app.Features.Arrays.{slice, zip_with}
use analysis_app.Features.Detectors.{powers}

abbrev pub nfft_candidates : List ℕ
nfft_candidates = 64 ∷ 128 ∷ 256 ∷ 512 ∷ 1024 ∷ 2048 ∷ []

-- cp_ratios, by their denominators
abbrev pub cp_denominators : List ℕ
cp_denominators = 4 ∷ 8 ∷ 16 ∷ 32 ∷ []

-- max(1, int(nfft * cp_frac)), which is exact in floats for powers of two
abbrev pub prefix_length : ℕ → ℕ → ℕ
prefix_length nfft den = max 1 (nfft / den)

-- The positions of a symbol's prefix and tail, up to the break.
pub record Segment : Type 0 where
  pub cp_start : ℕ
  pub cp_end : ℕ
  pub tail_start : ℕ
  pub tail_end : ℕ

abbrev pub segment_of : ℕ → ℕ → ℕ → Segment
segment_of nfft ncp i =
    let cp_start = i * (nfft + ncp) in
    let tail_start = cp_start + ncp + nfft - ncp in
    record {
      cp_start = cp_start;
      cp_end = cp_start + ncp;
      tail_start = tail_start;
      tail_end = tail_start + ncp;
    }

-- for i in range(i, i + n): ... if tail_end > len(x): break
unfoldable pub segments : ℕ → ℕ → ℕ → ℕ → ℕ → List Segment
segments len nfft ncp i zero = []
segments len nfft ncp i (suc n) =
    let rest = segments len nfft ncp (i + 1) n in
    let seg = segment_of nfft ncp i in if ltb len seg.tail_end then [] else seg ∷ rest

-- The best candidate so far: its correlation, and the pair.
pub record Best (F : Type 0) : Type 0 where
  pub corr : F
  pub nfft : ℕ
  pub cp : F

module _ {F : Type 0} ⦃fl : Float F⦄ ⦃np : Numpy F⦄ where
  open fl use {lit, exp, pow, add, sub, mul, div, lt}

  abbrev pub cp_ratio : ℕ → F
  cp_ratio den = div (lit 1 0) (lit den 0)

  -- np.abs(np.mean(cp_seg * np.conj(tail_seg)))
  abbrev pub correlation : List (Complex F) → Segment → F
  correlation x s = np.abs (
      np.mean_complex (
        zip_with np.times (slice s.cp_start s.cp_end x)
          (map np.conj (slice s.tail_start s.tail_end x))))

  abbrev pub correlation_sum : List (Complex F) → F → List Segment → F
  correlation_sum x acc [] = acc
  correlation_sum x acc (s ∷ ss) = correlation_sum x (add acc (correlation x s)) ss

  -- The mean over the symbols, against the power, where there was a symbol.
  unfoldable pub better : List (Complex F) → F → ℕ → ℕ → List Segment → Best F → Best F
  better x pwr nfft den [] best = best
  better x pwr nfft den (s ∷ ss) best =
      let total = correlation_sum x (lit 0 1) (s ∷ ss) in
      let corr = div (div total (lit (length (s ∷ ss)) 0)) (add pwr (lit 1 30)) in
      if lt best.corr corr then record { corr = corr; nfft = nfft; cp = cp_ratio den } else best

  unfoldable pub try_candidate : List (Complex F) → F → ℕ → ℕ → Best F → Best F
  unfolding segments better
  try_candidate x pwr nfft den best =
      let ncp = prefix_length nfft den in
      let n_sym = length x / (nfft + ncp) in
      if ltb n_sym 2
      then best
      else better x pwr nfft den (segments (length x) nfft ncp 0 n_sym) best

  abbrev pub try_prefixes : List (Complex F) → F → ℕ → List ℕ → Best F → Best F
  try_prefixes x pwr nfft [] best = best
  try_prefixes x pwr nfft (den ∷ dens) best =
      try_prefixes x pwr nfft dens (try_candidate x pwr nfft den best)

  abbrev pub try_sizes : List (Complex F) → F → List ℕ → Best F → Best F
  try_sizes x pwr [] best = best
  try_sizes x pwr (nfft ∷ sizes) best =
      try_sizes x pwr sizes (try_prefixes x pwr nfft cp_denominators best)

  -- np.clip(geo / ari, 0, 1) of a power spectrum
  unfoldable pub flatness : List F → F
  flatness p =
      let geo = exp (np.mean (map (λ v. np.log (add v (lit 1 30))) p)) in
      let ari = add (np.mean p) (lit 1 30) in np.clip (div geo ari) (lit 0 0) (lit 1 0)

  abbrev pub no_candidate : Best F
  no_candidate = record { corr = lit 0 1; nfft = 0; cp = lit 0 1 }

  abbrev pub verdict : Best F → Bool × ℕ × F
  verdict best =
      let found = lt (lit 60 2) best.corr in
      (found, if found then best.nfft else 0, if found then best.cp else lit 0 1)

  unfoldable pub detect_ofdm : List (Complex F) → Bool × ℕ × F
  unfolding try_candidate flatness
  detect_ofdm iq =
      let x = take (min (length iq) 32768) iq in
      let pwr = np.mean (powers x) in
      let spectrum = powers (np.fft (take (min (length x) 4096) x)) in
      if lt pwr (lit 1 12)
      then (false, 0, lit 0 1)
      else if lt (flatness spectrum) (lit 30 2)
      then (false, 0, lit 0 1)
      else verdict (try_sizes x pwr nfft_candidates no_candidate)

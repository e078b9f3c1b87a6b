-- ===== src/Features/Ofdm/Search.antt =====
-- What `_detect_ofdm` reads of its array, and what it can report.
use native.Mathlib.Nat.{mul-le-mul_right, div-mul-le_self}
use analysis_app.Prelude.{
  ℕ, zero, suc, ◌+◌, ◌*◌, ◌/◌, ◌≤◌, ◌≡◌, refl, ap, ◌∙◌, inl, inr, ◌⊎◌, Bool, true, false, List, [],
  ◌∷◌, length, All, In, ltb, arith, if-both, Bool-cases, absurd_test, sym, In-All, take, min,
}
use analysis_app.Float.{Float, IsOrdered}
use analysis_app.Float.Order.{lt_asymm}
use analysis_app.Numpy.{Complex, Numpy}
use analysis_app.Features.Ofdm.{
  nfft_candidates, cp_denominators, Segment, segment_of, segments, Best, cp_ratio, better,
  try_candidate, try_prefixes, try_sizes, no_candidate, verdict, detect_ofdm,
}

-- A segment of the i-th symbol lies in the array: its prefix, and, one FFT length later, its tail.
abbrev pub IsInside : ℕ → ℕ → ℕ → Segment → Type 0
IsInside len nfft ncp s =
    (s.cp_end ≡ s.cp_start + ncp)
    × (s.tail_start ≡ s.cp_start + nfft)
    × (s.tail_end ≡ s.tail_start + ncp)
    × (s.tail_end ≤ len)

segments-IsInside :
    (len nfft ncp i n : ℕ)
    → (i + n) * (nfft + ncp) ≤ len
    → (length (segments len nfft ncp i n) ≡ n)
      × All (IsInside len nfft ncp) (segments len nfft ncp i n)
unfolding segments
segments-IsInside len nfft ncp i zero h = (refl, tt)
segments-IsInside len nfft ncp i (suc n) h =
    let up : (i + 1) * (nfft + ncp) ≤ (i + suc n) * (nfft + ncp) =
      mul-le-mul_right (nfft + ncp) (omega arith) in
    let fits : ltb len (segment_of nfft ncp i).tail_end ≡ false = ground (arith, up, h) in
    let (count, inside) = segments-IsInside len nfft ncp (i + 1) n (omega (arith, h)) in
    rw fits (omega (arith, count), ((refl, omega arith, refl, omega (arith, up, h)), inside))

-- Cutting an array into as many whole symbols as it has, `_detect_ofdm` visits every one of them:
-- the test that would leave the loop never holds, and each prefix and tail that is read lies inside
-- the array, the tail one FFT length behind the prefix.
pub segments_lem :
    (len nfft ncp : ℕ)
    → let n_sym = len / (nfft + ncp) in
      (length (segments len nfft ncp 0 n_sym) ≡ n_sym)
      × All (IsInside len nfft ncp) (segments len nfft ncp 0 n_sym)
segments_lem len nfft ncp =
    let n_sym = len / (nfft + ncp) in
    let fit : n_sym * (nfft + ncp) ≤ len = div-mul-le_self len (nfft + ncp) in
    segments-IsInside len nfft ncp 0 n_sym (omega (arith, fit))

module _ {F : Type 0} ⦃fl : Float F⦄ ⦃np : Numpy F⦄ where
  open fl use {lit, lt}

  -- The start of the search, or a candidate of the two lists.
  abbrev pub IsCandidate : Best F → Type 0
  IsCandidate best =
      (best ≡ no_candidate)
      ⊎ (In best.nfft nfft_candidates
          × ((den : ℕ) × In den cp_denominators × (best.cp ≡ cp_ratio den)))

  better-IsCandidate :
      (x : List (Complex F)) (pwr : F) (nfft den : ℕ) (ss : List Segment) (best : Best F)
      → In nfft nfft_candidates
      → In den cp_denominators
      → IsCandidate best
      → IsCandidate (better x pwr nfft den ss best)
  unfolding better
  better-IsCandidate x pwr nfft den [] best m k c = c
  better-IsCandidate x pwr nfft den (s ∷ ss) best m k c =
      if-both IsCandidate (lt best.corr _) (inr (m, (den, k, refl))) c

  try_candidate-IsCandidate :
      (x : List (Complex F)) (pwr : F) (nfft den : ℕ) (best : Best F)
      → In nfft nfft_candidates
      → In den cp_denominators
      → IsCandidate best
      → IsCandidate (try_candidate x pwr nfft den best)
  unfolding try_candidate
  try_candidate-IsCandidate x pwr nfft den best m k c =
      if-both IsCandidate (ltb _ 2) c (better-IsCandidate x pwr nfft den _ best m k c)

  try_prefixes-IsCandidate :
      (x : List (Complex F)) (pwr : F) (nfft : ℕ) (dens : List ℕ) (best : Best F)
      → In nfft nfft_candidates
      → All (λ d. In d cp_denominators) dens
      → IsCandidate best
      → IsCandidate (try_prefixes x pwr nfft dens best)
  try_prefixes-IsCandidate x pwr nfft [] best m ks c = c
  try_prefixes-IsCandidate x pwr nfft (den ∷ dens) best m (k, ks) c =
      try_prefixes-IsCandidate x pwr nfft dens _ m ks
        (try_candidate-IsCandidate x pwr nfft den best m k c)

  try_sizes-IsCandidate :
      (x : List (Complex F)) (pwr : F) (sizes : List ℕ) (best : Best F)
      → All (λ n. In n nfft_candidates) sizes
      → IsCandidate best
      → IsCandidate (try_sizes x pwr sizes best)
  try_sizes-IsCandidate x pwr [] best ms c = c
  try_sizes-IsCandidate x pwr (nfft ∷ sizes) best (m, ms) c =
      try_sizes-IsCandidate x pwr sizes _ ms (
        try_prefixes-IsCandidate x pwr nfft cp_denominators best m
          (In-All (λ d. In d cp_denominators) cp_denominators (λ d k. k)) c)

  -- What a call reports: a candidate pair, or nothing and zeros.
  abbrev pub IsReport : Bool × ℕ × F → Type 0
  IsReport (found, nfft, cp) =
      ((found ≡ true)
        × In nfft nfft_candidates
        × ((den : ℕ) × In den cp_denominators × (cp ≡ cp_ratio den)))
      ⊎ ((found ≡ false) × (nfft ≡ 0) × (cp ≡ lit 0 1))

  verdict-IsReport : IsOrdered F → (best : Best F) → IsCandidate best → IsReport (verdict best)
  verdict-IsReport laws best c = elim (Bool-cases (lt (lit 60 2) best.corr)) [
    | inl e ↦ elim c [
      | inl start ↦
          let above : lt (lit 60 2) (lit 0 1) ≡ true =
            ap (λ b. lt (lit 60 2) b.corr) (sym start) ∙ e in
          absurd_test (fl.le (lit 0 1) (lit 60 2)) (laws.lit_le 0 1 60 2 (omega arith))
            (lt_asymm laws (lit 60 2) (lit 0 1) above)
      | inr (m, dk) ↦ rw e (inl (refl, m, dk))
    ]
    | inr e ↦ rw e (inr (refl, refl, refl))
  ]

  -- `_detect_ofdm` reports either one of its FFT sizes with one of its prefix ratios, or no OFDM with
  -- the size 0 and the ratio 0.0: never a detection without a size.
  pub detect_ofdm-IsReport : IsOrdered F → (iq : List (Complex F)) → IsReport (detect_ofdm iq)
  unfolding detect_ofdm
  detect_ofdm-IsReport laws iq =
      let x = take (min (length iq) 32768) iq in
      if-both IsReport (lt _ (lit 1 12)) (inr (refl, refl, refl)) (
        if-both IsReport (lt _ (lit 30 2)) (inr (refl, refl, refl)) (
          verdict-IsReport laws _ (
            try_sizes-IsCandidate x _ nfft_candidates no_candidate
              (In-All (λ n. In n nfft_candidates) nfft_candidates (λ n m. m)) (inl refl))))

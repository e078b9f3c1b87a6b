-- ===== src/Realworld/Verified.antt =====
-- A profile and a sweep return, and what their numbers count.
use analysis_app.Prelude.{
  ℕ, suc, ◌+◌, ◌*◌, ◌^◌, ◌≤◌, ◌<◌, ◌≡◌, refl, ap, String, false, ◌==◌, some, List, [], ◌∷◌, length,
  length-map, map, All, arith,
}
use analysis_app.Prelude.Results.{Result, ok, Raises, ◌>>=◌, each}
use analysis_app.Float.{Float}
use analysis_app.Numpy.{Numpy, IsShaped}
use analysis_app.Protocol.Signature.{Signature}
use analysis_app.Profiles.{ImpairmentConfig, ImpairmentProfile, rtl_sdr, profiles}
use analysis_app.Impairments.{Channel}
use analysis_app.Impairments.Stages.{IsSound, IsUsable, profiles-IsUsable}
use analysis_app.Realworld.Signals.{Signal, Source, signals}
use analysis_app.Realworld.{
  Trial, Tally, no_runs, ProfileRow, ProfileResult, average, snr_levels, snr_config, signal_row,
  run_profile, sweep_signals, run_snr_sweep,
}
use analysis_app.Realworld.Lengths.{IsDrawn, signals_lem}
use analysis_app.Realworld.Rates.{
  IsCounted, IsRate, IsKnown, AreRows, rounds-IsCounted, rows-AreRows,
}

All-unmap :
    {A B : Type 0} (P : B → Type 0) (f : A → B) (xs : List A)
    → All P (map f xs)
    → All (λ x. P (f x)) xs
All-unmap P f [] h = tt
All-unmap P f (x ∷ xs) (h, hs) = (h, All-unmap P f xs hs)

module _ {F : Type 0} ⦃fl : Float F⦄ ⦃np : Numpy F⦄ where
  open fl use {lit}

  few_samples :
      (shapes : IsShaped F) (src : Source F)
      → IsDrawn F src
      → All (λ s. length s.iq ≤ 2 ^ 53) (signals src)
  few_samples shapes src drawn =
      let all_of : ℕ → Type 0 = λ n. n ≤ 2 ^ 53 in
      let eight_thousand : 8192 ≤ 2 ^ 53 = omega arith in
      let fewer : 8180 ≤ 2 ^ 53 = omega arith in
      All-unmap all_of (λ s. length s.iq) (signals src)
        (rw (signals_lem shapes src drawn) (
          eight_thousand,
          (
            eight_thousand,
            (eight_thousand, (eight_thousand, (eight_thousand, (fewer, (eight_thousand, tt))))),
          ),
        ))

  signals-IsKnown :
      (src : Source F)
      → ((n : ℕ) → 0 < n → n ≤ 10 ^ 6 → IsRate (lit n 0))
      → All (λ s. length s.iq ≤ 2 ^ 53) (signals src)
      → All IsKnown (signals src)
  unfolding signals
  signals-IsKnown src rates (b1, (b2, (b3, (b4, (b5, (b6, (b7, end))))))) =
      let at_200k = rates 200000 (omega arith) (omega arith) in
      let at_1m = rates 1000000 (omega arith) (omega arith) in
      let at_500k = rates 500000 (omega arith) (omega arith) in
      (
        ("BPSK", refl, (at_200k, b1)),
        (
          ("QPSK", refl, (at_200k, b2)),
          (
            ("FM_NB", refl, (at_200k, b3)),
            (
              ("AM_DSB_LC", refl, (at_200k, b4)),
              (
                ("OFDM", refl, (at_1m, b5)),
                (("FSK", refl, (at_200k, b6)), (("CSS", refl, (at_500k, b7)), tt)),
              ),
            ),
          ),
        ),
      )

  seven_signals : (src : Source F) → length (signals src) ≡ 7
  unfolding signals
  seven_signals src = refl

  Raises-no_runs :
      (src : Source F) (fft_size : ℕ) (db : List Signature) (profile : ImpairmentProfile)
      (trial : String → ℕ → Trial F)
      → Raises (run_profile fft_size db src profile 0 trial)
  unfolding run_profile signals signal_row
  Raises-no_runs src fft_size db profile trial = (_, refl)

  length-AreRows :
      (repeats : ℕ) (ss : List (Signal F)) (rows : List (ProfileRow F))
      → AreRows repeats ss rows
      → length rows ≡ length ss
  length-AreRows repeats [] [] h = refl
  length-AreRows repeats [] (row ∷ rows) h = absurd h
  length-AreRows repeats (s ∷ ss) [] h = absurd h
  length-AreRows repeats (s ∷ ss) (row ∷ rows) (r, rs) = ap suc (length-AreRows repeats ss rows rs)

  -- The means of the rates, where the rows are there and not none.
  overall :
      (m : Result (List (ProfileRow F))) (rows : List (ProfileRow F))
      → m ≡ ok rows
      → 0 < length rows
      → (r : ProfileResult F) × ((m >>= λ rows.
            average (map (λ r. r.exact_rate) rows) >>= λ overall_exact.
            average (map (λ r. r.fam_rate) rows) >>= λ overall_fam.
            ok (record { rows = rows; overall_exact = overall_exact; overall_fam = overall_fam }))
          ≡ ok r)
        × (r.rows ≡ rows)
  overall m rows e n =
      let exact_rate : ProfileRow F → F = λ r. r.exact_rate in
      let fam_rate : ProfileRow F → F = λ r. r.fam_rate in
      let some_exact : (length (map exact_rate rows) == 0) ≡ false =
        ground (arith, n, length-map exact_rate rows) in
      let some_fam : (length (map fam_rate rows) == 0) ≡ false =
        ground (arith, n, length-map fam_rate rows) in
      rw (e, some_exact, some_fam) (_, refl, refl)

  module _ (shapes : IsShaped F) (rates : (n : ℕ) → 0 < n → n ≤ 10 ^ 6 → IsRate (lit n 0))
      (fft_size : ℕ) (pos : 0 < fft_size) (small : fft_size < 12800) (db : List Signature)
      (trial : String → ℕ → Trial F) (sound : (l : String) (k : ℕ) → IsSound F (trial l k).channel)
      (src : Source F) (drawn : IsDrawn F src) where
    sweep-IsCounted :
        (cfg : ImpairmentConfig F) (ss : List (Signal F)) (t : Tally F) (n : ℕ)
        → All IsKnown ss
        → ((l : String) (k : ℕ) → IsUsable F (trial l k).channel cfg)
        → IsCounted n t
        → (out : Tally F) × (sweep_signals fft_size db cfg trial ss t ≡ ok out)
          × IsCounted (n + 3 * length ss) out
    unfolding sweep_signals
    sweep-IsCounted cfg [] t n ks usable h =
        let z : n + 3 * 0 ≡ n = omega arith in (t, refl, rw z h)
    sweep-IsCounted cfg (s ∷ ss) t n ((expected, known, rate), ks) usable h =
        let (next, e, k) =
          rounds-IsCounted shapes fft_size pos small db trial sound (some cfg) rtl_sdr s expected 3
            t n rate (usable s.label) h in
        let (out, d, l) = sweep-IsCounted cfg ss next (n + 3) ks usable k in
        let all_of : n + 3 * suc (length ss) ≡ n + 3 + 3 * length ss = omega arith in
        rw (known, e, d, all_of) (out, refl, l)

    -- A configuration of the sweep has no echoes and no jitter.
    snr-IsUsable :
        (ch : Channel F) (snr : F) (profile : ImpairmentProfile)
        → IsSound F ch
        → IsUsable F ch (snr_config snr (profiles profile))
    unfolding snr_config
    snr-IsUsable ch snr profile whole = record {
      delays = tt;
      imbalance = (profiles-IsUsable ch shapes whole profile).imbalance;
      jitter = λ n. whole.finite_jitter 0 1 n (omega arith);
    }

    levels-IsCounted :
        (profile : ImpairmentProfile) (levels : List F)
        → (rows : List (F × Tally F)) × (each
              (λ snr.
                sweep_signals fft_size db
                  (snr_config snr (profiles profile))
                  trial
                  (signals src)
                  no_runs
                >>= λ t. ok (snr, t))
              levels
            ≡ ok rows)
          × (map (λ r. r.0) rows ≡ levels)
          × All (λ r. IsCounted 21 r.1) rows
    levels-IsCounted profile [] = ([], refl, refl, tt)
    levels-IsCounted profile (snr ∷ levels) =
        let (t, e, h) =
          sweep-IsCounted (snr_config snr (profiles profile)) (signals src) no_runs 0
            (signals-IsKnown src rates (few_samples shapes src drawn))
            (λ l k. snr-IsUsable (trial l k).channel snr profile (sound l k))
            (omega arith, omega arith, refl, refl) in
        let (rows, d, same, hs) = levels-IsCounted profile levels in
        ((snr, t) ∷ rows, rw (e, d) refl, ap (λ l. snr ∷ l) same, (rw (seven_signals src) at h, hs))

    -- With generators as documented, an FFT size between 1 and 12799, and whole numbers up to 1 MHz that are
    -- neither 0.0 nor infinite as sample rates and at which `np.polyfit` fits a line: for every profile
    -- and at least one run of each signal, `run_profile` returns, with a row for each of the signals in
    -- their order, whose rates are numbers of hits over the number of runs, of the family no fewer than
    -- exact and no more than the runs. Without a run it raises.
    pub run_profile_lem :
        (profile : ImpairmentProfile) (repeats : ℕ)
        → 0 < repeats
        → (r : ProfileResult F) × (run_profile fft_size db src profile repeats trial ≡ ok r)
          × AreRows repeats (signals src) r.rows
          × Raises (run_profile fft_size db src profile 0 trial)
    unfolding run_profile
    run_profile_lem profile repeats some_run =
        let (rows, e, h) =
          rows-AreRows shapes fft_size pos small db trial sound profile repeats (signals src)
            some_run (signals-IsKnown src rates (few_samples shapes src drawn)) in
        let n : 0 < length rows =
          omega (arith, length-AreRows repeats (signals src) rows h, seven_signals src) in
        let (r, d, same) =
          overall (each (signal_row fft_size db profile repeats trial) (signals src)) rows e n in
        (r, d, rw same h, Raises-no_runs src fft_size db profile trial)

    -- Under the same conditions: the sweep over the levels of the SNR returns, with a count for each of the
    -- eight levels, of 21 runs, of which no fewer are of the family than exact.
    pub run_snr_sweep_lem :
        (profile : ImpairmentProfile)
        → (rows : List (F × Tally F)) × (run_snr_sweep fft_size db src profile trial ≡ ok rows)
          × (map (λ r. r.0) rows ≡ snr_levels)
          × All (λ r. IsCounted 21 r.1) rows
    unfolding run_snr_sweep
    run_snr_sweep_lem profile = levels-IsCounted profile snr_levels

-- ===== src/Realworld/Rates.antt =====
-- The runs that the loops count, and the rows of a profile.
use analysis_app.Prelude.{
  ℕ, suc, ◌+◌, ◌^◌, ◌≤◌, ◌<◌, ◌≡◌, refl, ◌∙◌, inl, inr, String, Bool, true, false, ◌==◌, Option,
  none, some, List, [], ◌∷◌, ◌++◌, length, length-append, length-map, map, All, All-map, In-All,
  arith, Bool-cases,
}
use analysis_app.Prelude.Text.{str_eq, eq_iff, eq_refl}
use analysis_app.Prelude.Assoc.{lookup, get_or}
use analysis_app.Prelude.Results.{ok, each}
use analysis_app.Features.Arrays.{range}
use analysis_app.Features.Arrays.Shapes.{length-range_from}
use analysis_app.Features.Extract.Run.{IsFinite, FitsLines, Returns-extract}
use analysis_app.Float.{Float}
use analysis_app.Numpy.{Numpy, IsShaped}
use analysis_app.Protocol.Signature.{Signature}
use analysis_app.Datasets.{normalise}
use analysis_app.Profiles.{ImpairmentConfig, ImpairmentProfile}
use analysis_app.Impairments.{config_of}
use analysis_app.Impairments.Stages.{IsSound, IsUsable, add_impairments_lem, profiles-IsUsable}
use analysis_app.Harness.Sample.{classify_features, detected_or}
use analysis_app.Realworld.Signals.{Signal}
use analysis_app.Realworld.{
  expected_mods, family_table, family_match, Trial, Tally, no_runs, ProfileRow, one_if,
  classify_one, run_trial, run_trials, signal_row,
}

-- The modulation that is expected is of its own family.
exact-le-family :
    (detected expected : String)
    → one_if (str_eq detected expected) ≤ one_if (family_match detected expected)
unfolding family_match
exact-le-family detected expected = elim (Bool-cases (str_eq detected expected)) [
  | inl e ↦
      let same : str_eq (get_or detected family_table detected)
            (get_or expected family_table expected)
          ≡ true =
        rw ((eq_iff detected expected).0 e) (eq_refl (get_or expected family_table expected)) in
      rw (e, same) (omega arith)
  | inr e ↦ rw e (omega arith)
]

-- Of some runs, so many were of the family, and not more exact.
abbrev pub IsCounted : {F : Type 0} → ℕ → Tally F → Type 0
IsCounted n t =
    (t.exact_hits ≤ t.fam_hits) × (t.fam_hits ≤ n) × (t.total ≡ n) × (length t.latencies ≡ n)

one_if-le : (b : Bool) → one_if b ≤ 1
one_if-le true = omega arith
one_if-le false = omega arith

one_more :
    {F : Type 0} (detected expected : String) (latency : F) (t : Tally F) (n : ℕ)
    → IsCounted n t
    → IsCounted (n + 1) (record {
      exact_hits = t.exact_hits + one_if (str_eq detected expected);
      fam_hits = t.fam_hits + one_if (family_match detected expected);
      total = t.total + 1;
      latencies = t.latencies ++ latency ∷ [];
    })
one_more detected expected latency t n (within, few, total, times) = (
  omega (arith, within, exact-le-family detected expected),
  omega (arith, few, one_if-le (family_match detected expected)),
  omega (arith, total),
  omega (arith, times, length-append t.latencies (latency ∷ [])),
)

module _ {F : Type 0} ⦃fl : Float F⦄ ⦃np : Numpy F⦄ where
  open fl use {lit, div}

  -- A sample rate that is neither 0 nor infinite, and at which lines are fitted.
  abbrev pub IsRate : F → Type 0
  IsRate sr = IsFinite sr × FitsLines sr

  -- A signal of such a rate, whose times are floats without rounding.
  abbrev pub IsPlayable : Signal F → Type 0
  IsPlayable s = IsRate s.sample_rate × (length s.iq ≤ 2 ^ 53)

  -- A signal that the tables know, and that can be played.
  abbrev pub IsKnown : Signal F → Type 0
  IsKnown s = (expected : String) × (lookup s.label expected_mods ≡ some expected) × IsPlayable s

  -- The rates of a row, out of a number of runs.
  abbrev pub IsRow : ℕ → Signal F → ProfileRow F → Type 0
  IsRow repeats s row =
      (exact : ℕ) × (fam : ℕ) × (row.signal ≡ s.label)
      × (exact ≤ fam)
      × (fam ≤ repeats)
      × (row.exact_rate ≡ div (lit exact 0) (lit repeats 0))
      × (row.fam_rate ≡ div (lit fam 0) (lit repeats 0))

  abbrev pub AreRows : ℕ → List (Signal F) → List (ProfileRow F) → Type 0
  AreRows repeats [] [] = Unit
  AreRows repeats [] (row ∷ rows) = ⊥
  AreRows repeats (s ∷ ss) [] = ⊥
  AreRows repeats (s ∷ ss) (row ∷ rows) = IsRow repeats s row × AreRows repeats ss rows

  module _ (shapes : IsShaped F) (fft_size : ℕ) (pos : 0 < fft_size) (small : fft_size < 12800)
      (db : List Signature) where
    trial-IsCounted :
        (cfg : Option (ImpairmentConfig F)) (profile : ImpairmentProfile) (s : Signal F)
        (expected : String) (trial : Trial F) (t : Tally F) (n : ℕ)
        → IsPlayable s
        → IsSound F trial.channel
        → IsUsable F trial.channel (config_of trial.channel cfg profile)
        → IsCounted n t
        → (next : Tally F) × (run_trial fft_size db cfg profile s expected trial t ≡ ok next)
          × IsCounted (n + 1) next
    unfolding run_trial classify_one
    trial-IsCounted cfg profile s expected trial t n ((nz, fits), few) sound usable h =
        let (iq_imp, e, m) =
          add_impairments_lem trial.channel shapes sound s.iq s.sample_rate cfg profile nz.0 few
            usable in
        let (f, d) =
          Returns-extract shapes fft_size (normalise iq_imp) s.sample_rate (lit 0 1) pos small nz
            fits in
        rw (e, d) (_, refl, one_more (detected_or (classify_features db f)) expected _ t n h)

    trials-IsCounted :
        (cfg : Option (ImpairmentConfig F)) (profile : ImpairmentProfile) (s : Signal F)
        (expected : String) (trials : List (Trial F)) (t : Tally F) (n : ℕ)
        → IsPlayable s
        → All (λ trial. IsSound F trial.channel) trials
        → All (λ trial. IsUsable F trial.channel (config_of trial.channel cfg profile)) trials
        → IsCounted n t
        → (out : Tally F) × (run_trials fft_size db cfg profile s expected trials t ≡ ok out)
          × IsCounted (n + length trials) out
    unfolding run_trials
    trials-IsCounted cfg profile s expected [] t n rate sound usable h =
        let z : n + 0 ≡ n = omega arith in (t, refl, rw z h)
    trials-IsCounted cfg profile s expected (trial ∷ trials) t n rate (sound, sounds)
          (usable, usables) h =
        let (next, e, k) = trial-IsCounted cfg profile s expected trial t n rate sound usable h in
        let (out, d, l) =
          trials-IsCounted cfg profile s expected trials next (n + 1) rate sounds usables k in
        let sum : n + suc (length trials) ≡ n + 1 + length trials = omega arith in
        rw (e, d, sum) (out, refl, l)

    module _ (trial : String → ℕ → Trial F)
        (sound : (l : String) (k : ℕ) → IsSound F (trial l k).channel) where
      pub rounds-IsCounted :
          (cfg : Option (ImpairmentConfig F)) (profile : ImpairmentProfile) (s : Signal F)
          (expected : String) (repeats : ℕ) (t : Tally F) (n : ℕ)
          → IsPlayable s
          → ((k : ℕ)
              → IsUsable F
                  (trial s.label k).channel
                  (config_of (trial s.label k).channel cfg profile))
          → IsCounted n t
          → (out : Tally F) × (run_trials fft_size db cfg profile s expected
                (map (trial s.label) (range repeats))
                t
              ≡ ok out)
            × IsCounted (n + repeats) out
      rounds-IsCounted cfg profile s expected repeats t n rate usable h =
          let rounds = map (trial s.label) (range repeats) in
          let many : length rounds ≡ repeats =
            length-map (trial s.label) (range repeats) ∙ length-range_from 0 repeats in
          let sounds =
            All-map (λ (r : Trial F). IsSound F r.channel) (trial s.label) (range repeats)
              (In-All (λ k. IsSound F (trial s.label k).channel) (range repeats)
                (λ k m. sound s.label k)) in
          let IsUsed : Trial F → Type 0 =
            λ r. IsUsable F r.channel (config_of r.channel cfg profile) in
          let usables =
            All-map IsUsed (trial s.label) (range repeats)
              (In-All (λ k. IsUsed (trial s.label k)) (range repeats) (λ k m. usable k)) in
          let (out, e, k) =
            trials-IsCounted cfg profile s expected rounds t n rate sounds usables h in
          (out, e, rw many at k)

      signal_row-IsRow :
          (profile : ImpairmentProfile) (repeats : ℕ) (s : Signal F)
          → 0 < repeats
          → IsKnown s
          → (row : ProfileRow F) × (signal_row fft_size db profile repeats trial s ≡ ok row)
            × IsRow repeats s row
      unfolding signal_row
      signal_row-IsRow profile repeats s some_run (expected, known, rate) =
          let (t, e, counted) =
            rounds-IsCounted none profile s expected repeats no_runs 0 rate
              (λ k. profiles-IsUsable (trial s.label k).channel shapes (sound s.label k) profile)
              (omega arith, omega arith, refl, refl) in
          let (exact, fam, total, times) = counted in
          let divides : (repeats == 0) ≡ false = ground arith in
          let averages : (length t.latencies == 0) ≡ false = ground (arith, times) in
          rw (known, e, divides, averages)
            (_, refl, (t.exact_hits, t.fam_hits, refl, exact, omega (arith, fam), refl, refl))

      pub rows-AreRows :
          (profile : ImpairmentProfile) (repeats : ℕ) (ss : List (Signal F))
          → 0 < repeats
          → All IsKnown ss
          → (rows : List (ProfileRow F)) × (each (signal_row fft_size db profile repeats trial) ss
              ≡ ok rows)
            × AreRows repeats ss rows
      rows-AreRows profile repeats [] some_run h = ([], refl, tt)
      rows-AreRows profile repeats (s ∷ ss) some_run (k, ks) =
          let (row, e, r) = signal_row-IsRow profile repeats s some_run k in
          let (rows, d, rs) = rows-AreRows profile repeats ss some_run ks in
          (row ∷ rows, rw (e, d) refl, (r, rs))

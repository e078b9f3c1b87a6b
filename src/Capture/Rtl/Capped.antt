-- ===== src/Capture/Rtl/Capped.antt =====
-- The loop over the targets of rtl_sdr ends, and keeps the limit of each label.
use analysis_app.Prelude.{
  ℕ, ◌-◌, ◌*◌, ◌/◌, ◌≤◌, min, ◌≡◌, ◌≢◌, refl, ap, ◌∙◌, inl, inr, not, ◌||◌, leb, ltb, ◌==◌, List,
  [], ◌∷◌, length, length-map, length-take, take, map, All-take, All-map, arith, Bool-cases,
  if-both,
}
use analysis_app.Prelude.Int.{pos}
use analysis_app.Prelude.Text.{str_eq, eq_iff}
use analysis_app.Prelude.Results.{Result, ok, Returns}
use analysis_app.Float.{Float}
use analysis_app.Numpy.{Complex, Numpy}
use analysis_app.Datasets.Counts.{count_of}
use analysis_app.Datasets.Npz.{same_ℤ}
use analysis_app.Capture.Loop.{add_count}
use analysis_app.Capture.Loop.Names.{count_of-add_count}
use analysis_app.Capture.Rtl.Targets.{RtlTarget}
use analysis_app.Capture.Rtl.{
  Command, Outcome, finished, timed_out, not_found, planes, Collection, nothing_yet, command,
  captured_iq, capture_target, slice_windows, add_slices, rtl_turn, rtl_loop,
}
use analysis_app.Capture.Rtl.Filled.{
  length-append_all, Each-append_all, evens-odds, Returns-combined, IsLoud, slice_windows-IsLoud,
  IsCapped, seen-IsCapped,
}

module _ {F : Type 0} ⦃fl : Float F⦄ ⦃np : Numpy F⦄ where
  Returns-captured_iq : (o : Outcome) → o ≢ not_found → Returns (captured_iq {F = F} o)
  unfolding captured_iq
  Returns-captured_iq timed_out h = ([], refl)
  Returns-captured_iq not_found h = absurd (h refl)
  Returns-captured_iq (finished returncode raw) h =
      let value : ℕ → F = λ b. fl.div (fl.sub (fl.lit b 0) (fl.lit 1275 1)) (fl.lit 1275 1) in
      let values = map value (take (length raw / 2 * 2) raw) in
      let even : length values ≡ length raw / 2 * 2 =
        length-map value (take (length raw / 2 * 2) raw)
        ∙ length-take (length raw / 2 * 2) raw
        ∙ omega arith in
      if-both Returns (not (same_ℤ returncode (pos 0)) || ltb (length raw) 2) ([], refl)
        (Returns-combined _ _ (evens-odds (length raw / 2) values even))

  module _ (snr_min : F) (max_per_class : ℕ) where
    add_slices-IsCapped :
        (t : RtlTarget) (iq : List (Complex F)) (s : Collection F)
        → IsCapped snr_min max_per_class s
        → IsCapped snr_min max_per_class (add_slices snr_min max_per_class t iq s)
    unfolding add_slices
    add_slices-IsCapped t iq s (loud, counted) =
        let windows = slice_windows iq snr_min in
        let room = max_per_class - count_of t.label s.counts in
        let n : ℕ = min (min (length windows) room) t.max_win in
        let kept = take n windows in
        let few : length kept ≤ room = omega (arith, length-take n windows) in
        let stored = map planes kept in
        (
          Each-append_all (IsLoud snr_min) t.label stored s.buckets
              (All-map (IsLoud snr_min) planes kept (
                All-take (λ v. IsLoud snr_min (planes v)) n windows
                  (slice_windows-IsLoud snr_min iq)))
              loud,
          λ l.
              let (same, within) = counted l in
              let longer = length-append_all l t.label stored s.buckets in
              let counts = count_of-add_count l t.label (length kept) s.counts in
              let as_many = length-map planes kept in
              elim (Bool-cases (str_eq t.label l)) [
                | inl e ↦
                    let here : count_of t.label s.counts ≡ count_of l s.counts =
                      ap (λ k. count_of k s.counts) ((eq_iff t.label l).0 e) in
                    omega (arith, same, within, few, here, as_many, rw e at longer, rw e at counts)
                | inr e ↦ omega (arith, same, within, rw e at longer, rw e at counts)
              ],
        )

    turn-IsCapped :
        (run : Command F → Outcome) (gain : F)
        → ((c : Command F) → run c ≢ not_found)
        → (t : RtlTarget) (s : Collection F) → IsCapped snr_min max_per_class s
        → (next : Collection F) × (rtl_turn run gain snr_min max_per_class t s ≡ ok next)
          × IsCapped snr_min max_per_class next
    unfolding rtl_turn capture_target
    turn-IsCapped run gain installed t s h =
        let (iq, e) = Returns-captured_iq (run (command gain t)) (installed (command gain t)) in
        let seen : Collection F = record s { counts = add_count t.label 0 s.counts } in
        let h_seen = seen-IsCapped snr_min max_per_class t.label s h in
        let IsNext : Result (Collection F) → Type 0 =
          λ m. (next : Collection F) × (m ≡ ok next) × IsCapped snr_min max_per_class next in
        if-both IsNext (leb max_per_class (count_of t.label seen.counts)) (seen, refl, h_seen)
          (rw e (
            if-both IsNext (length iq == 0) (seen, refl, h_seen)
              (_, refl, add_slices-IsCapped t iq seen h_seen)))

    loop-IsCapped :
        (run : Command F → Outcome) (gain : F)
        → ((c : Command F) → run c ≢ not_found)
        → (targets : List RtlTarget) (s : Collection F) → IsCapped snr_min max_per_class s
        → (out : Collection F) × (rtl_loop run gain snr_min max_per_class targets s ≡ ok out)
          × IsCapped snr_min max_per_class out
    unfolding rtl_loop
    loop-IsCapped run gain installed [] s h = (s, refl, h)
    loop-IsCapped run gain installed (t ∷ targets) s h =
        let (next, e, k) = turn-IsCapped run gain installed t s h in
        rw e (loop-IsCapped run gain installed targets next k)

    -- Where rtl_sdr is installed, whatever its runs give: the loop over the targets ends. Every bucket then
    -- has windows, all of 1024 samples and with an estimated SNR of at least the minimum; and each label has
    -- as many windows as its count says, and no more than --max-per-class.
    pub rtl_loop_lem :
        (run : Command F → Outcome) (gain : F) (targets : List RtlTarget)
        → ((c : Command F) → run c ≢ not_found)
        → (out : Collection F) × (rtl_loop run gain snr_min max_per_class targets nothing_yet
            ≡ ok out)
          × IsCapped snr_min max_per_class out
    unfolding count_of
    rtl_loop_lem run gain targets installed =
        loop-IsCapped run gain installed targets nothing_yet (tt, λ l. (refl, omega arith))

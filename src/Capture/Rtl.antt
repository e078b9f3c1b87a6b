-- ===== src/Capture/Rtl.antt =====
-- tools/ml/capture_rtl.py: capture with the program rtl_sdr, whose run is an argument. The script keeps
-- the windows of each label up to a limit, and saves them as a data set.
pub mod Targets
pub mod Filled
pub mod Capped
pub mod Saved
use analysis_app.Prelude.{
  ℕ, zero, suc, ◌+◌, ◌-◌, ◌*◌, ◌/◌, min, max, String, Bool, not, ◌||◌, leb, ltb, ◌==◌, all, some,
  List, [], ◌∷◌, ◌++◌, length, take, map, replicate, if◌then◌else◌,
}
use analysis_app.Prelude.Int.{ℤ, pos}
use analysis_app.Prelude.Text.{str_eq}
use analysis_app.Prelude.Results.{Result, ok, raised, ◌>>=◌}
use analysis_app.Features.Arrays.{slice, range, filter}
use analysis_app.Float.{Float}
use analysis_app.Numpy.{Complex, Numpy}
use analysis_app.FamilyMap.{sorted_set}
use analysis_app.Datasets.Counts.{Counts, count_of}
use analysis_app.Datasets.Raw.{deinterleaved}
use analysis_app.Datasets.Npz.{Npz, same_ℤ, label_index}
use analysis_app.Capture.Windows.{window, stride}
use analysis_app.Capture.Loop.{add_count}
use analysis_app.Capture.Rtl.Targets.{RtlTarget}

-- The arguments of rtl_sdr, and the time after which it is stopped.
pub record Command (F : Type 0) : Type 0 where
  pub frequency : ℕ
  pub sample_rate : ℕ
  pub gain : F
  pub samples : ℕ
  pub timeout : ℕ

-- How a run of it ends: with its return code and its bytes, by the timeout, or without the program.
pub data Outcome : Type 0 where
  finished : ℤ → List ℕ → Outcome
  timed_out : Outcome
  not_found : Outcome

-- X[n, 0] and X[n, 1] of a window
abbrev pub Planes : Type 0 → Type 0
Planes F = List F × List F

abbrev pub planes : {F : Type 0} → List (Complex F) → Planes F
planes w = (map (λ c. c.re) w, map (λ c. c.im) w)

-- buckets and counts
pub record Collection (F : Type 0) : Type 0 where
  pub buckets : List (String × List (Planes F))
  pub counts : Counts

abbrev pub nothing_yet : {F : Type 0} → Collection F
nothing_yet = record { buckets = []; counts = [] }

-- range(0, n - WINDOW + 1, STRIDE)
abbrev pub slice_starts : ℕ → List ℕ
slice_starts n = map (λ k. k * stride) (range ((n + 1 - window + (stride - 1)) / stride))

module _ {F : Type 0} where
  -- buckets[label].append(w)
  unfoldable pub append_to :
      String → Planes F → List (String × List (Planes F)) → List (String × List (Planes F))
  append_to label w [] = (label, w ∷ []) ∷ []
  append_to label w ((l, ws) ∷ buckets) =
      let rest = append_to label w buckets in
      if str_eq l label then (l, ws ++ w ∷ []) ∷ buckets else (l, ws) ∷ rest

  unfoldable pub append_all :
      String → List (Planes F) → List (String × List (Planes F)) → List (String × List (Planes F))
  unfolding append_to
  append_all label [] buckets = buckets
  append_all label (w ∷ ws) buckets = append_all label ws (append_to label w buckets)

  -- X_list, y_list
  unfoldable pub listed :
      List String → List (String × List (Planes F)) → Result (List (Planes F) × List ℤ)
  unfolding label_index
  listed all_labels [] = ok ([], [])
  listed all_labels ((label, wins) ∷ buckets) = label_index all_labels label >>= λ idx.
      listed all_labels buckets >>= λ rest.
      ok (wins ++ rest.0, replicate (length wins) idx ++ rest.1)

  -- np.stack: the arrays, all of one shape
  unfoldable pub stacked : List (Planes F) → Result (List (Planes F))
  stacked [] = raised "need at least one array to stack"
  stacked (w ∷ ws) =
      if all (λ v. length v.0 == length w.0) ws
      then ok (w ∷ ws)
      else raised "all input arrays must have the same shape"

module _ {F : Type 0} ⦃fl : Float F⦄ ⦃np : Numpy F⦄ where
  open fl use {lit, add, sub, mul, div, log10, pow, le}

  unfoldable pub estimate_snr : List (Complex F) → F
  estimate_snr w =
      let mags = np.sort (map np.abs w) in
      let power = np.mean (map (λ c. pow (np.abs c) 2) w) in
      let n_noise = max 1 (length mags / 5) in
      let noise_floor = add (np.mean (map (λ m. pow m 2) (take n_noise mags))) (lit 1 12) in
      if le power (lit 0 0)
      then fl.neg (lit 990 1)
      else mul (lit 10 0) (log10 (div power noise_floor))

  -- what capture_target makes of a run; without the program it ends the script
  unfoldable pub captured_iq : Outcome → Result (List (Complex F))
  captured_iq timed_out = ok []
  captured_iq not_found = raised "SystemExit"
  captured_iq (finished returncode raw) =
      if not (same_ℤ returncode (pos 0)) || ltb (length raw) 2
      then ok []
      else deinterleaved
          (map (λ b. div (sub (lit b 0) (lit 1275 1)) (lit 1275 1)) (take (length raw / 2 * 2) raw))

  abbrev pub command : F → RtlTarget → Command F
  command gain t = record {
    frequency = t.freq_hz;
    sample_rate = t.sr_sps;
    gain = gain;
    samples = t.sr_sps * t.dwell_s;
    timeout = t.dwell_s + 10;
  }

  unfoldable pub capture_target : (Command F → Outcome) → F → RtlTarget → Result (List (Complex F))
  unfolding captured_iq
  capture_target run gain t = captured_iq (run (command gain t))

  unfoldable pub slice_windows : List (Complex F) → F → List (List (Complex F))
  unfolding estimate_snr
  slice_windows iq snr_min =
      filter (λ w. le snr_min (estimate_snr w))
        (map (λ start. slice start (start + window) iq) (slice_starts (length iq)))

  -- the windows of a capture, as many as there is room for in the bucket of its label
  unfoldable pub add_slices : F → ℕ → RtlTarget → List (Complex F) → Collection F → Collection F
  unfolding slice_windows append_all add_count count_of
  add_slices snr_min max_per_class t iq s =
      let windows = slice_windows iq snr_min in
      let room = max_per_class - count_of t.label s.counts in
      let kept = take (min (min (length windows) room) t.max_win) windows in
      record {
        buckets = append_all t.label (map planes kept) s.buckets;
        counts = add_count t.label (length kept) s.counts;
      }

  module _ (run : Command F → Outcome) (gain snr_min : F) (max_per_class : ℕ) where
    -- a turn of the loop; to read the count of a new label enters it with 0
    unfoldable pub rtl_turn : RtlTarget → Collection F → Result (Collection F)
    unfolding capture_target add_slices add_count count_of
    rtl_turn t s =
        let seen : Collection F = record s { counts = add_count t.label 0 s.counts } in
        if leb max_per_class (count_of t.label seen.counts)
        then ok seen
        else (capture_target run gain t >>= λ iq.
            if length iq == 0 then ok seen else ok (add_slices snr_min max_per_class t iq seen))

    unfoldable pub rtl_loop : List RtlTarget → Collection F → Result (Collection F)
    unfolding rtl_turn
    rtl_loop [] s = ok s
    rtl_loop (t ∷ targets) s = rtl_turn t s >>= rtl_loop targets

  -- the data set, whose SNRs are a placeholder; without a bucket the script ends
  unfoldable pub saved_npz : List (String × List (Planes F)) → Result (Npz F)
  unfolding listed stacked
  saved_npz [] = raised "SystemExit"
  saved_npz (b ∷ buckets) =
      let all_labels = sorted_set (map (λ e. e.0) (b ∷ buckets)) in
      listed all_labels (b ∷ buckets) >>= λ lists. stacked lists.0 >>= λ x. ok (record {
        x = x;
        y = lists.1;
        snrs = some (replicate (length lists.1) (lit 0 0));
        classes = all_labels;
      })

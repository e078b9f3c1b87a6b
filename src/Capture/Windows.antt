-- ===== src/Capture/Windows.antt =====
-- tools/ml/capture_real.py: `_collect_iq_sock`, `normalise`, `estimate_snr_db`, `extract_windows` and
-- `measure_impairments`. Of a packet the source reads two fields of the header, at the places that
-- struct gives them; the floats that the bytes stand for are an argument.
pub mod Kept
use analysis_app.Prelude.{
  ℕ, zero, suc, ◌+◌, ◌-◌, ◌*◌, ◌/◌, min, Bool, true, false, ltb, leb, ◌==◌, Option, none, some,
  List, [], ◌∷◌, ◌++◌, length, take, drop, map, if◌then◌else◌,
}
use analysis_app.Prelude.Results.{Result, ok, raised, ◌>>=◌}
use analysis_app.Features.Arrays.{slice, range}
use analysis_app.Float.{Float}
use analysis_app.Numpy.{Complex, Numpy}
use analysis_app.Datasets.Raw.{deinterleaved}

abbrev pub window : ℕ
window = 1024

abbrev pub stride : ℕ
stride = 256

-- An unsigned number of bytes, the lowest first.
abbrev pub little_endian : List ℕ → ℕ
little_endian [] = 0
little_endian (b ∷ bs) = b + 256 * little_endian bs

-- IQ_HDR.size and IQ_MAGIC
abbrev pub header_size : ℕ
header_size = 32

abbrev pub iq_magic : ℕ
iq_magic = 1230065712

module _ {F : Type 0} (float32s : List ℕ → Result (List F)) where
  -- the body of the loop, for a packet that is received
  unfoldable pub packet_samples : List ℕ → Result (Option (List (Complex F)))
  packet_samples bytes =
      let n = little_endian (slice 28 30 bytes) in
      if ltb (length bytes) header_size
      then ok none
      else if little_endian (take 4 bytes) == iq_magic
      then (float32s (slice header_size (header_size + n * 8) bytes) >>= λ values.
          if length values == n * 2
          then (deinterleaved values >>= λ chunk. ok (some chunk))
          else ok none)
      else ok none

  -- The packets before the deadline, where a receive may time out, and the samples in their order.
  unfoldable pub collect_iq : List (Option (List ℕ)) → Result (List (Complex F))
  unfolding packet_samples
  collect_iq [] = ok []
  collect_iq (none ∷ packets) = collect_iq packets
  collect_iq (some bytes ∷ packets) = packet_samples bytes >>= λ chunk.
      collect_iq packets >>= λ rest.
      ok (elim chunk [ none ↦ rest | some samples ↦ samples ++ rest ])

-- the end of request_capture
unfoldable pub captured : {F : Type 0} → List (Complex F) → Option (List (Complex F))
captured iq = if leb window (length iq) then some iq else none

-- range(0, n - WINDOW, STRIDE)
abbrev pub window_starts : ℕ → List ℕ
window_starts n = map (λ k. k * stride) (range ((n - window + (stride - 1)) / stride))

-- The windows that are kept after a turn of the loop, which goes on, or breaks.
pub data Turn (F : Type 0) : Type 0 where
  goes_on : List (List (Complex F)) → Turn F
  breaks : List (List (Complex F)) → Turn F

abbrev pub resume :
    {F : Type 0}
    → Turn F
    → (List (List (Complex F)) → Result (List (List (Complex F))))
    → Result (List (List (Complex F)))
resume (goes_on windows) rest = rest windows
resume (breaks windows) rest = ok windows

module _ {F : Type 0} ⦃fl : Float F⦄ ⦃np : Numpy F⦄ where
  open fl use {lit, add, sub, mul, div, sqrt, log10, pow, lt}

  unfoldable pub normalise_window : List (Complex F) → List (Complex F)
  normalise_window w =
      let p = sqrt (np.mean (map (λ c. pow (np.abs c) 2) w)) in
      map (λ c. np.over c (add p (lit 1 12))) w

  unfoldable pub estimate_snr_db : List (Complex F) → F → Result F
  estimate_snr_db w sr = np.welch w sr (min 128 (length w)) >>= λ psd.
      let psd_db = map (λ p. mul (lit 100 1) (log10 (add p (lit 1 30)))) psd.1 in
      ok (sub (np.percentile psd_db (lit 90 0)) (np.median psd_db))

  -- a turn of the loop, with the windows that are kept by then
  unfoldable pub window_turn :
      List (Complex F) → F → F → ℕ → List (List (Complex F)) → ℕ → Result (Turn F)
  unfolding normalise_window estimate_snr_db
  window_turn iq sr snr_min max_wins windows i =
      let w = slice i (i + window) iq in
      let kept = windows ++ normalise_window w ∷ [] in
      estimate_snr_db w sr >>= λ snr. ok (
        if lt snr snr_min
        then goes_on windows
        else if leb max_wins (length kept)
        then breaks kept
        else goes_on kept)

  unfoldable pub window_loop :
      List (Complex F)
      → F
      → F
      → ℕ
      → List ℕ
      → List (List (Complex F))
      → Result (List (List (Complex F)))
  unfolding window_turn
  window_loop iq sr snr_min max_wins [] windows = ok windows
  window_loop iq sr snr_min max_wins (i ∷ starts) windows =
      window_turn iq sr snr_min max_wins windows i >>= λ turn.
      resume turn (λ kept. window_loop iq sr snr_min max_wins starts kept)

  -- np.random.shuffle is an argument
  unfoldable pub extract_windows :
      (List ℕ → List ℕ) → List (Complex F) → F → F → ℕ → Result (List (List (Complex F)))
  unfolding window_loop
  extract_windows shuffle iq sr snr_min max_wins =
      window_loop iq sr snr_min max_wins (shuffle (window_starts (length iq))) []

-- ===== src/Datasets/Raw/Segments.antt =====
-- Cutting a recording into segments keeps its samples.
use native.Mathlib.Nat.{mul-le-mul_right, div-mul-le_self}
use analysis_app.Prelude.{
  ℕ, zero, suc, ◌+◌, ◌-◌, ◌*◌, ◌/◌, ◌≤◌, ◌<◌, ◌≡◌, refl, ap, ◌∙◌, sym, min, false, List, [], ◌∷◌,
  ◌++◌, length, take, drop, All, arith, ◌==◌, map, length-map,
}
use analysis_app.Prelude.Results.{ok}
use analysis_app.Numpy.{Complex}
use analysis_app.Features.Arrays.{slice, range_from, range}
use analysis_app.Features.Arrays.Shapes.{length-slice, length-range_from}
use analysis_app.Features.Arrays.Chunks.{take-take-drop, drop-drop}
use analysis_app.Datasets.{IqSample}
use analysis_app.Datasets.Raw.{segments_of}

-- One segment after the other.
abbrev pub joined : {F : Type 0} → List (IqSample F) → List (Complex F)
joined [] = []
joined (s ∷ ss) = s.iq ++ joined ss

module _ {F : Type 0} (sample : ℕ → List (Complex F) → IqSample F)
    (keeps : (i : ℕ) (c : List (Complex F)) → (sample i c).iq ≡ c) (len : ℕ)
    (iq : List (Complex F)) where
  chunk : ℕ → IqSample F
  chunk i = sample i (slice (i * len) ((i + 1) * len) iq)

  joined-chunks :
      (a n : ℕ) → joined (map chunk (range_from a n)) ≡ take (n * len) (drop (a * len) iq)
  unfolding chunk
  joined-chunks a zero = let e : 0 * len ≡ 0 = omega arith in rw e
  joined-chunks a (suc n) =
      let one : (a + 1) * len - a * len ≡ len = omega arith in
      let next : (suc a) * len ≡ a * len + len = omega arith in
      let all_of : suc n * len ≡ len + n * len = omega arith in
      ap (λ c. c ++ joined (map chunk (range_from (suc a) n))) (keeps a _)
      ∙ ap (λ c. slice (a * len) ((a + 1) * len) iq ++ c) (joined-chunks (suc a) n)
      ∙ rw (one, next, all_of)
          (ap (λ c. take len (drop (a * len) iq) ++ take (n * len) c)
              (sym (drop-drop (a * len) len iq))
            ∙ take-take-drop len (n * len) (drop (a * len) iq))

  chunk_lengths :
      (a n : ℕ)
      → (a + n) * len ≤ length iq
      → All (λ s. length s.iq ≡ len) (map chunk (range_from a n))
  unfolding chunk
  chunk_lengths a zero h = tt
  chunk_lengths a (suc n) h =
      let up : (a + 1) * len ≤ (a + suc n) * len = mul-le-mul_right len (omega arith) in
      let one : length (slice (a * len) ((a + 1) * len) iq) ≡ len =
        omega (arith, length-slice (a * len) ((a + 1) * len) iq (omega (arith, up, h))) in
      (ap length (keeps a _) ∙ one, chunk_lengths (suc a) n (omega (arith, h)))

  -- Cutting a recording, with a segment length above 0: the segments are as many as fit, and at most
  -- the given number; each has exactly that length, and one after the other they are the beginning
  -- of the recording, no sample lost or repeated.
  pub segments_of_lem :
      (max_segments : ℕ)
      → 0 < len
      → let count = min max_segments (length iq / len) in
        (ss : List (IqSample F)) × (segments_of len max_segments sample iq ≡ ok ss)
        × (length ss ≡ count)
        × All (λ s. length s.iq ≡ len) ss
        × (joined ss ≡ take (count * len) iq)
  unfolding segments_of chunk
  segments_of_lem max_segments h =
      let count = min max_segments (length iq / len) in
      let fit : length iq / len * len ≤ length iq = div-mul-le_self (length iq) len in
      let few : count * len ≤ length iq / len * len = mul-le-mul_right len (omega arith) in
      let none_skipped : drop (0 * len) iq ≡ iq = let e : 0 * len ≡ 0 = omega arith in rw e in
      let ready : (len == 0) ≡ false = ground (arith, h) in
      (
        map chunk (range count),
        rw ready refl,
        length-map chunk (range count) ∙ length-range_from 0 count,
        chunk_lengths 0 count (omega (arith, fit, few)),
        joined-chunks 0 count ∙ ap (take (count * len)) none_skipped,
      )

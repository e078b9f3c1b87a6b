-- ===== src/Harness/Batch.antt =====
-- tools/test_harness/harness.py: `run_batch`, one row for each sample, in order.
use analysis_app.Prelude.{
  ℕ, ◌+◌, ◌%◌, ◌≤◌, ◌<◌, ◌≡◌, refl, ap, ◌∙◌, sym, String, Bool, true, false, ◌||◌, List, [], ◌∷◌,
  ◌++◌, ◌==◌, ◌⊎◌, append-nil, append_assoc, take_all, take-append, if-each, length, length-append,
  take, In, here, In-append_left, In-append_right, Bool-cases, inl, inr, All, All-append, arith,
  if◌then◌else◌,
}
use analysis_app.Prelude.Results.{Result, ok, raised}
use analysis_app.Float.{Float}
use analysis_app.Numpy.{Numpy}
use analysis_app.Datasets.{IqSample}
use analysis_app.Harness.Sample.{Row, Pipeline, Clock, classify_sample}

-- A row of the table: a classified sample, or what is kept of one that raised.
pub record FailedRow : Type 0 where
  pub source_file : String
  pub segment : ℕ
  pub ground_truth : String
  pub classified : Bool
  pub reject_reason : String

pub data BatchRow (F : Type 0) : Type 0 where
  done : Row F → BatchRow F
  failed : FailedRow → BatchRow F

-- r.get("exact_match"), as the truth value that the count takes
abbrev pub is_exact : {F : Type 0} → BatchRow F → Bool
is_exact (done r) = r.exact_match
is_exact (failed r) = false

-- sum(1 for r in rows if r.get("exact_match"))
abbrev pub count_exact : {F : Type 0} → List (BatchRow F) → ℕ
count_exact [] = 0
count_exact (r ∷ rows) = (if is_exact r then 1 else 0) + count_exact rows

-- A printed line: how many samples are done, of how many, and the exact matches so far.
pub record Progress : Type 0 where
  pub seen : ℕ
  pub total : ℕ
  pub exact : ℕ

module _ {F : Type 0} ⦃fl : Float F⦄ ⦃np : Numpy F⦄ (pipe : Pipeline F) (clock : ℕ → Clock F) where
  -- try: ... except Exception as e: ...
  abbrev caught : IqSample F → Result (Row F) → BatchRow F
  caught s (ok row) = done row
  caught s (raised e) = failed (record {
    source_file = pipe.base_name s.source_file;
    segment = s.segment_idx;
    ground_truth = s.ground_truth;
    classified = false;
    reject_reason = e;
  })

  unfoldable pub batch_row : ℕ → IqSample F → BatchRow F
  batch_row i s = caught s (classify_sample pipe (clock i) s)

  -- The line that is printed after sample i, every fiftieth time and at the end.
  unfoldable pub progress : ℕ → ℕ → List (BatchRow F) → List Progress
  progress total i rows =
      if (i + 1) % 50 == 0 || i + 1 == total
      then record { seen = i + 1; total = total; exact = count_exact rows } ∷ []
      else []

  -- The loop, with the rows and the printed lines so far.
  unfoldable pub batch_loop :
      ℕ
      → ℕ
      → List (BatchRow F)
      → List Progress
      → List (IqSample F)
      → List (BatchRow F) × List Progress
  unfolding batch_row progress
  batch_loop total i rows lines [] = (rows, lines)
  batch_loop total i rows lines (s ∷ samples) =
      let rows' = rows ++ batch_row i s ∷ [] in
      batch_loop total (i + 1) rows' (lines ++ progress total i rows') samples

  unfoldable pub run_batch : List (IqSample F) → List (BatchRow F) × List Progress
  unfolding batch_loop
  run_batch samples = batch_loop (length samples) 0 [] [] samples

  -- The rows of the samples, each on its own.
  abbrev pub rows_from : ℕ → List (IqSample F) → List (BatchRow F)
  rows_from i [] = []
  rows_from i (s ∷ samples) = batch_row i s ∷ rows_from (i + 1) samples

  rows-batch_loop :
      (total i : ℕ) (rows : List (BatchRow F)) (lines : List Progress) (samples : List (IqSample F))
      → (batch_loop total i rows lines samples).0 ≡ rows ++ rows_from i samples
  unfolding batch_loop
  rows-batch_loop total i rows lines [] = sym (append-nil rows)
  rows-batch_loop total i rows lines (s ∷ samples) =
      rows-batch_loop total (i + 1) (rows ++ batch_row i s ∷ []) _ samples
      ∙ append_assoc rows (batch_row i s ∷ []) (rows_from (i + 1) samples)

-- A line that is due: at a multiple of fifty or at the end, with the exact matches among the first
-- rows of a table.
abbrev pub IsDue : {F : Type 0} → ℕ → List (BatchRow F) → Progress → Type 0
IsDue total table p =
    (p.total ≡ total)
    × (p.seen ≤ total)
    × (p.exact ≡ count_exact (take p.seen table))
    × ((p.seen % 50 ≡ 0) ⊎ (p.seen ≡ total))

-- The lines that the loop prints at the sample numbers that are due.
abbrev pub is_due : ℕ → ℕ → Bool
is_due total n = n % 50 == 0 || n == total

module _ {F : Type 0} ⦃fl : Float F⦄ ⦃np : Numpy F⦄ (pipe : Pipeline F) (clock : ℕ → Clock F) where
  IsDue-progress :
      (total i : ℕ) (rows rest table : List (BatchRow F))
      → length rows ≡ i + 1
      → i + 1 ≤ total
      → rows ++ rest ≡ table
      → All (IsDue total table) (progress pipe clock total i rows)
  unfolding progress
  IsDue-progress total i rows rest table h le eq =
      let exact : count_exact rows ≡ count_exact (take (i + 1) table) = ap count_exact (
        sym (take_all rows)
        ∙ sym (take-append (length rows) rows rest (omega arith))
        ∙ ap (λ n. take n (rows ++ rest)) h
        ∙ ap (take (i + 1)) eq) in
      if-each (All (IsDue total table)) (is_due total (i + 1))
        (λ e. ((refl, le, exact, ground arith), tt)) (λ e. tt)

  IsDue-batch_loop :
      (total : ℕ) (table : List (BatchRow F)) (i : ℕ) (rows : List (BatchRow F))
      (lines : List Progress) (samples : List (IqSample F))
      → length rows ≡ i
      → total ≡ i + length samples
      → rows ++ rows_from pipe clock i samples ≡ table
      → All (IsDue total table) lines
      → All (IsDue total table) (batch_loop pipe clock total i rows lines samples).1
  unfolding batch_loop
  IsDue-batch_loop total table i rows lines [] h t eq due = due
  IsDue-batch_loop total table i rows lines (s ∷ samples) h t eq due =
      let rows' = rows ++ batch_row pipe clock i s ∷ [] in
      let longer : length rows' ≡ i + 1 =
        omega (arith, length-append rows (batch_row pipe clock i s ∷ []), h) in
      let same_table = append_assoc rows (batch_row pipe clock i s ∷ []) _ ∙ eq in
      IsDue-batch_loop total table (i + 1) rows' _ samples longer (omega (arith, t)) same_table (
        All-append (IsDue total table) lines _ due
          (IsDue-progress total i rows' _ table longer (omega (arith, t)) same_table))

  kept-batch_loop :
      (total i : ℕ) (rows : List (BatchRow F)) (lines : List Progress) (samples : List (IqSample F))
      {p : Progress}
      → In p lines
      → In p (batch_loop pipe clock total i rows lines samples).1
  unfolding batch_loop
  kept-batch_loop total i rows lines [] m = m
  kept-batch_loop total i rows lines (s ∷ samples) m =
      kept-batch_loop total (i + 1) _ _ samples (In-append_left lines _ m)

  -- A line for the given number.
  abbrev pub Shown : List Progress → ℕ → Type 0
  Shown lines n = (p : Progress) × In p lines × (p.seen ≡ n)

  Shown-progress :
      (total i : ℕ) (rows : List (BatchRow F))
      → is_due total (i + 1) ≡ true
      → Shown (progress pipe clock total i rows) (i + 1)
  unfolding progress
  Shown-progress total i rows due = rw due (_, here, refl)

  Shown-batch_loop :
      (total i : ℕ) (rows : List (BatchRow F)) (lines : List Progress) (samples : List (IqSample F))
      (n : ℕ)
      → i < n
      → n ≤ i + length samples
      → is_due total n ≡ true
      → Shown (batch_loop pipe clock total i rows lines samples).1 n
  unfolding batch_loop
  Shown-batch_loop total i rows lines [] n lo hi due = absurd (omega (arith, lo, hi))
  Shown-batch_loop total i rows lines (s ∷ samples) n lo hi due =
      let rows' = rows ++ batch_row pipe clock i s ∷ [] in
      elim (Bool-cases (n == i + 1)) [
        | inl e ↦
            let at : n ≡ i + 1 = ground arith in
            let (p, m, seen) = Shown-progress total i rows' (ap (is_due total) (sym at) ∙ due) in
            (
              p,
              kept-batch_loop total (i + 1) rows' _ samples (In-append_right lines _ m),
              seen ∙ sym at,
            )
        | inr e ↦
            Shown-batch_loop total (i + 1) rows' _ samples n (ground arith) (omega (arith, hi)) due
      ]

  -- The table has one row for each sample, in the order of the samples, and what one sample does or
  -- raises changes no other row; each printed line is for a fiftieth sample or for the last, with the
  -- number of exact matches among the rows up to it.
  pub run_batch_lem :
      (samples : List (IqSample F))
      → let (rows, lines) = run_batch pipe clock samples in
        (rows ≡ rows_from pipe clock 0 samples) × All (IsDue (length samples) rows) lines
  unfolding run_batch
  run_batch_lem samples =
      let table = rows-batch_loop pipe clock (length samples) 0 [] [] samples in
      (
        table,
        rw table (IsDue-batch_loop (length samples) _ 0 [] [] samples refl (omega arith) refl tt),
      )

  -- A line is printed for every fiftieth sample and for the last.
  pub run_batch-Shown :
      (samples : List (IqSample F)) (n : ℕ)
      → 0 < n
      → n ≤ length samples
      → is_due (length samples) n ≡ true
      → Shown (run_batch pipe clock samples).1 n
  unfolding run_batch
  run_batch-Shown samples n lo hi due =
      Shown-batch_loop (length samples) 0 [] [] samples n lo (omega (arith, hi)) due

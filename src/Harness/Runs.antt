-- ===== src/Harness/Runs.antt =====
-- tools/test_harness/harness.py: `main`, which loads the data sets that its options name, classifies each
-- of them, analyses and prints their tables, and puts these together. What a loader returns or raises is an
-- argument, and so is the report on a table: analyse with print_sample_table, which return nothing or raise.
use analysis_app.Prelude.{
  ℕ, suc, ◌≡◌, refl, ap, ◌∙◌, sym, Option, none, some, List, [], ◌∷◌, ◌++◌, length, length-append,
  append_assoc, append-nil, map, arith, All,
}
use analysis_app.Prelude.Results.{Result, ok, raised, ◌>>=◌, Returns}
use analysis_app.Float.{Float}
use analysis_app.Numpy.{Numpy}
use analysis_app.Features.Arrays.Chunks.{concat_all}
use analysis_app.Datasets.{IqSample}
use analysis_app.Harness.Sample.{Pipeline, Clock}
use analysis_app.Harness.Batch.{BatchRow, run_batch, run_batch_lem, rows_from}

-- What a loader does, by whether main catches what it raises.
pub data Load (F : Type 0) : Type 0 where
  checked : Result (List (IqSample F)) → Load F
  skipped_if_raised : Result (List (IqSample F)) → Load F
  -- the files of a directory, whose tables are not reported
  unreported : Result (List (IqSample F)) → Load F
  unreported_skipped : Result (List (IqSample F)) → Load F

-- The options that name data sets, and what loading them does: one of each RadioML, the SigMF files of a
-- pattern, a raw file, and the SigMF and raw files of a directory.
pub record Options (F : Type 0) : Type 0 where
  pub radioml_2016 : Option (Result (List (IqSample F)))
  pub radioml_2018 : Option (Result (List (IqSample F)))
  pub sigmf : List (Result (List (IqSample F)))
  pub raw : Option (Result (List (IqSample F)))
  pub dir_sigmf : List (Result (List (IqSample F)))
  pub dir_iq : List (Result (List (IqSample F)))

abbrev pub of_option : {A : Type 0} → Option A → List A
of_option none = []
of_option (some a) = a ∷ []

-- The loads in the order in which main does them.
unfoldable pub loads : {F : Type 0} → Options F → List (Load F)
loads o =
    map checked (of_option o.radioml_2016)
    ++ map checked (of_option o.radioml_2018)
    ++ map skipped_if_raised o.sigmf
    ++ map checked (of_option o.raw)
    ++ map unreported_skipped o.dir_sigmf
    ++ map unreported o.dir_iq

-- all_samples and all_dfs
pub record Loaded (F : Type 0) : Type 0 where
  pub all_samples : List (IqSample F)
  pub all_dfs : List (List (BatchRow F))

-- pd.concat(all_dfs), where there is a table
abbrev pub combined_table : {A : Type 0} → List (List A) → Option (List A)
combined_table [] = none
combined_table (df ∷ dfs) = some (concat_all (df ∷ dfs))

-- What a loader returned.
abbrev pub samples_of : {F : Type 0} → Load F → Option (List (IqSample F))
samples_of (checked (ok samples)) = some samples
samples_of (skipped_if_raised (ok samples)) = some samples
samples_of (unreported (ok samples)) = some samples
samples_of (unreported_skipped (ok samples)) = some samples
samples_of d = none

abbrev pub or_none : {A : Type 0} → Option (List A) → List A
or_none none = []
or_none (some xs) = xs

abbrev pub loaded_by : {F : Type 0} → Load F → List (IqSample F)
loaded_by d = or_none (samples_of d)

module _ {F : Type 0} ⦃fl : Float F⦄ ⦃np : Numpy F⦄ (pipe : Pipeline F) (clock : ℕ → ℕ → Clock F)
    (report : List (BatchRow F) → Result {0} Unit) where
  -- the table of a data set, which is the k-th
  abbrev pub table_of : ℕ → List (IqSample F) → List (BatchRow F)
  table_of k samples = (run_batch pipe (clock k) samples).0

  unfoldable pub add_table : List (IqSample F) → Loaded F → Loaded F
  add_table samples l = record {
    all_samples = l.all_samples ++ samples;
    all_dfs = l.all_dfs ++ table_of (length l.all_dfs) samples ∷ [];
  }

  -- What a report raises is caught with what the loader raises, when the table is in the list already.
  unfoldable pub load_one : Load F → Loaded F → Result (Loaded F)
  unfolding add_table
  load_one (checked r) l = r >>= λ samples.
      report (table_of (length l.all_dfs) samples) >>= λ u. ok (add_table samples l)
  load_one (skipped_if_raised (ok samples)) l = ok (add_table samples l)
  load_one (skipped_if_raised (raised e)) l = ok l
  load_one (unreported r) l = r >>= λ samples. ok (add_table samples l)
  load_one (unreported_skipped (ok samples)) l = ok (add_table samples l)
  load_one (unreported_skipped (raised e)) l = ok l

  unfoldable pub load_each : List (Load F) → Loaded F → Result (Loaded F)
  unfolding load_one
  load_each [] l = ok l
  load_each (d ∷ ds) l = load_one d l >>= λ next. load_each ds next

  -- the report of the combined table, where there is more than one
  unfoldable pub report_combined : List (List (BatchRow F)) → Result {0} Unit
  report_combined [] = ok tt
  report_combined (df ∷ []) = ok tt
  report_combined (df ∷ (dg ∷ dfs)) = report (concat_all (df ∷ (dg ∷ dfs)))

  -- what main goes on with: the samples, and the combined table, or nothing where no data set is loaded
  unfoldable pub run_options : Options F → Result (List (IqSample F) × Option (List (BatchRow F)))
  unfolding loads load_each report_combined
  run_options o = load_each (loads o) (record { all_samples = []; all_dfs = [] }) >>= λ l.
      report_combined l.all_dfs >>= λ u. ok (l.all_samples, combined_table l.all_dfs)

  -- The rows of the samples of each loader that returned, from the k-th table on.
  abbrev pub tables_with :
      Option (List (IqSample F)) → ℕ → (ℕ → List (List (BatchRow F))) → List (List (BatchRow F))
  tables_with none k rest = rest k
  tables_with (some samples) k rest = rows_from pipe (clock k) 0 samples ∷ rest (suc k)

  abbrev pub tables_from : ℕ → List (Load F) → List (List (BatchRow F))
  tables_from k [] = []
  tables_from k (d ∷ ds) = tables_with (samples_of d) k (λ j. tables_from j ds)

  -- A load that main survives: the loader returns, and so does the report on its table; or main catches
  -- what they raise.
  abbrev pub IsFine : Load F → Type 0
  IsFine (checked r) =
      (samples : List (IqSample F)) × (r ≡ ok samples)
      × ((k : ℕ) → Returns (report (rows_from pipe (clock k) 0 samples)))
  IsFine (skipped_if_raised r) = Unit
  IsFine (unreported r) = Returns r
  IsFine (unreported_skipped r) = Unit

  -- The state after a load.
  abbrev state_after : Loaded F → Option (List (IqSample F)) → Loaded F
  state_after l o = record {
    all_samples = l.all_samples ++ or_none o;
    all_dfs = l.all_dfs ++ tables_with o (length l.all_dfs) (λ j. []);
  }

  add_table-rows_from :
      (samples : List (IqSample F)) (l : Loaded F)
      → add_table samples l ≡ state_after l (some samples)
  unfolding add_table
  add_table-rows_from samples l =
      ap
        (λ rows. record {
          all_samples = l.all_samples ++ samples;
          all_dfs = l.all_dfs ++ rows ∷ [];
        })
        (run_batch_lem pipe (clock (length l.all_dfs)) samples).0

  unchanged : (l : Loaded F) → l ≡ state_after l none
  unchanged l = sym (
      ap (λ ss. record { all_samples = ss; all_dfs = l.all_dfs ++ [] }) (append-nil l.all_samples)
      ∙ ap (λ dfs. record { all_samples = l.all_samples; all_dfs = dfs }) (append-nil l.all_dfs))

  load_one_lem :
      (d : Load F) (l : Loaded F) → IsFine d → load_one d l ≡ ok (state_after l (samples_of d))
  unfolding load_one
  load_one_lem (checked r) l (samples, e, reports) =
      let (u, d) = reports (length l.all_dfs) in
      rw (e, (run_batch_lem pipe (clock (length l.all_dfs)) samples).0, d) refl
  load_one_lem (skipped_if_raised (ok samples)) l fine = ap ok (add_table-rows_from samples l)
  load_one_lem (skipped_if_raised (raised e)) l fine = ap ok (unchanged l)
  load_one_lem (unreported r) l (samples, e) = rw e (ap ok (add_table-rows_from samples l))
  load_one_lem (unreported_skipped (ok samples)) l fine = ap ok (add_table-rows_from samples l)
  load_one_lem (unreported_skipped (raised e)) l fine = ap ok (unchanged l)

  tables_split :
      (o : Option (List (IqSample F))) (dfs : List (List (BatchRow F))) (ds : List (Load F))
      → (dfs ++ tables_with o (length dfs) (λ j. []))
          ++ tables_from (length (dfs ++ tables_with o (length dfs) (λ j. []))) ds
        ≡ dfs ++ tables_with o (length dfs) (λ j. tables_from j ds)
  tables_split none dfs ds = rw (append-nil dfs) refl
  tables_split (some samples) dfs ds =
      let rows = rows_from pipe (clock (length dfs)) 0 samples in
      let next : length (dfs ++ rows ∷ []) ≡ suc (length dfs) =
        omega (arith, length-append dfs (rows ∷ [])) in
      rw next (append_assoc dfs (rows ∷ []) (tables_from (suc (length dfs)) ds))

  load_each_lem :
      (ds : List (Load F)) (l : Loaded F)
      → All IsFine ds
      → load_each ds l
        ≡ ok (record {
          all_samples = l.all_samples ++ concat_all (map loaded_by ds);
          all_dfs = l.all_dfs ++ tables_from (length l.all_dfs) ds;
        })
  unfolding load_each
  load_each_lem [] l fine = ap ok (unchanged l)
  load_each_lem (d ∷ ds) l (f, fine) =
      let next = state_after l (samples_of d) in
      rw (load_one_lem d l f) (
        load_each_lem ds next fine
        ∙ ap
            (λ ss. ok (record {
              all_samples = ss;
              all_dfs = next.all_dfs ++ tables_from (length next.all_dfs) ds;
            }))
            (append_assoc l.all_samples (loaded_by d) (concat_all (map loaded_by ds)))
        ∙ ap
            (λ dfs. ok (record {
              all_samples = l.all_samples ++ (loaded_by d ++ concat_all (map loaded_by ds));
              all_dfs = dfs;
            }))
            (tables_split (samples_of d) l.all_dfs ds))

  -- Where no loader and no report on a table raises but those that main catches, nor the report on the
  -- combined table: main goes on with the samples of all loaders that return, in the order of its
  -- options, and with the table of their rows, put together in that order, each row that of its
  -- sample; there is no table where no loader returns.
  pub run_options_lem :
      (o : Options F)
      → All IsFine (loads o)
      → Returns (report_combined (tables_from 0 (loads o)))
      → run_options o
        ≡ ok (concat_all (map loaded_by (loads o)), combined_table (tables_from 0 (loads o)))
  unfolding run_options
  run_options_lem o fine (u, e) =
      rw (load_each_lem (loads o) (record { all_samples = []; all_dfs = [] }) fine, e) refl

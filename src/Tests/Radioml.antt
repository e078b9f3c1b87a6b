-- ===== src/Tests/Radioml.antt =====
-- Runs on a file of the shape of RadioML 2016.10a.
use analysis_app.Prelude.{
  ◌≡◌, refl, Bool, true, false, none, some, String, List, [], ◌∷◌, replicate, length-replicate, All,
  arith,
}
use analysis_app.Prelude.Int.{ℤ}
use analysis_app.Prelude.Results.{ok, raised}
use analysis_app.Float.Fixed.{fixed_float, lit_ℤ}
use analysis_app.Numpy.Fixed.{fixed_numpy}
use analysis_app.Features.Extract.{extract}
use analysis_app.Datasets.{IqSample}
use analysis_app.Datasets.Radioml.{Keyed, load_radioml_2016}
use analysis_app.Datasets.Radioml.Loaded.{IsExample, IsLoaded, load_radioml_2016_lem}
use analysis_app.Harness.Sample.{Pipeline}
use analysis_app.Harness.Radioml.{IsUnclassified, radioml_2016-IsUnclassified}
use analysis_app.Protocol.Db.{protocol_db}
use analysis_app.Tests.Signals.{clock}

abbrev ones : List ℤ
ones = replicate 128 (lit_ℤ 1 0)

-- A key with one example at 18 dB, and a key that does not evaluate.
abbrev file : List (Keyed ℤ)
file =
    record { key = some ("QPSK", lit_ℤ 18 0); examples = (ones, ones) ∷ [] }
    ∷ record { key = none; examples = (ones, ones) ∷ [] }
    ∷ []

ones-IsExample : IsExample 126 (ones, ones)
ones-IsExample = let n = length-replicate 128 (lit_ℤ 1 0) in (omega (arith, n), omega (arith, n))

file_examples : All (λ k. All (IsExample 126) k.examples) file
file_examples = ((ones-IsExample, tt), ((ones-IsExample, tt), tt))

load_radioml_2016_lem_example :
    ((ss : List (IqSample ℤ)) × (load_radioml_2016 "RML2016.10a" (lit_ℤ 6 0) 100 true true file
        ≡ ok ss)
      × All (IsLoaded "RML2016.10a" (lit_ℤ 6 0) 100 126) ss)
    × ((b : Bool)
        → (e : String) × (load_radioml_2016 "RML2016.10a" (lit_ℤ 6 0) 100 false b file ≡ raised e))
    × ((e : String) × (load_radioml_2016 "RML2016.10a" (lit_ℤ 6 0) 100 true false file ≡ raised e))
load_radioml_2016_lem_example =
    load_radioml_2016_lem "RML2016.10a" (lit_ℤ 6 0) 100 126 file file_examples

abbrev whole_pipe : Pipeline ℤ
whole_pipe = record { extract = extract 4096; db = protocol_db; base_name = λ s. s }

radioml_2016-IsUnclassified_example :
    (ss : List (IqSample ℤ)) × (load_radioml_2016 "RML2016.10a" (lit_ℤ 6 0) 100 true true file
      ≡ ok ss)
    × All (IsUnclassified whole_pipe clock) ss
radioml_2016-IsUnclassified_example =
    radioml_2016-IsUnclassified refl "RML2016.10a" (lit_ℤ 6 0) 100 4096 file whole_pipe clock
      file_examples refl

-- ===== src/Prelude/Assoc.antt =====
-- Dictionaries with text keys as association lists; in a literal the last value of a key counts,
-- and the program's tables have no repeated key.
use Prim.Native.String.{String}
use mathlib.Core.List.{List, [], ◌∷◌}
use mathlib.Core.Option.{Option, none, some}
use analysis_app.Prelude.Tests.{if◌then◌else◌}
use analysis_app.Prelude.Text.{str_eq}

module _ {ℓ} {V : Type ℓ} where
  -- d.get(k)
  abbrev pub lookup : String → List (String × V) → Option V
  lookup k [] = none
  lookup k ((j, v) ∷ m) = if str_eq j k then some v else lookup k m

  -- d.get(k, default)
  abbrev pub get_or : String → List (String × V) → V → V
  get_or k [] default = default
  get_or k ((j, v) ∷ m) default = if str_eq j k then v else get_or k m default

  -- d[k] = v
  abbrev pub put : String → V → List (String × V) → List (String × V)
  put k v [] = (k, v) ∷ []
  put k v ((j, w) ∷ m) = let rest = put k v m in if str_eq j k then (j, v) ∷ m else (j, w) ∷ rest

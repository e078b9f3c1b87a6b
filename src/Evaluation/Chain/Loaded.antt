-- ===== src/Evaluation/Chain/Loaded.antt =====
-- The dictionary of the specialists has each family once.
use analysis_app.Prelude.{
  ◌≡◌, refl, ◌∙◌, inl, inr, String, false, Option, none, some, List, [], ◌∷◌, Bool-cases,
  absurd_test,
}
use analysis_app.Prelude.Text.{str_eq, eq_iff, eq_refl, str_ne}
use analysis_app.Prelude.Assoc.{lookup, put}
use analysis_app.Prelude.Results.{Result, ok, raised, Result-cases, absurd_raised}
use analysis_app.Evaluation.Chain.{Specialist, Specialists, load_specialist, load_specialists}

-- No family has two specialists.
abbrev pub IsApart : {V : Type 0} → List (String × V) → Type 0
IsApart [] = Unit
IsApart ((fam, s) ∷ rest) = (lookup fam rest ≡ none) × IsApart rest

module _ {V : Type 0} where
  lookup-put :
      (j k : String) (v : V) (m : List (String × V))
      → str_eq k j ≡ false
      → lookup j (put k v m) ≡ lookup j m
  lookup-put j k v [] h = rw h refl
  lookup-put j k v ((i, w) ∷ m) h = elim (Bool-cases (str_eq i k)) [
    | inl e ↦ let other : str_eq i j ≡ false = rw ((eq_iff i k).0 e) h in rw (e, other) refl
    | inr e ↦ rw (e, lookup-put j k v m h) refl
  ]

  put-IsApart : (k : String) (v : V) (m : List (String × V)) → IsApart m → IsApart (put k v m)
  put-IsApart k v [] h = (refl, tt)
  put-IsApart k v ((j, w) ∷ m) (n, h) = elim (Bool-cases (str_eq j k)) [
    | inl e ↦ rw e (n, h)
    | inr e ↦
        let other : str_eq k j ≡ false =
          str_ne k j (λ same. absurd_test (str_eq j k) (rw same (eq_refl j)) e) in
        rw e (lookup-put j k v m other ∙ n, put-IsApart k v m h)
  ]

load_specialist-IsApart :
    {F : Type 0} (fam : String) (file : Option (Result (Specialist F)))
    (loaded next : Specialists F)
    → IsApart loaded
    → load_specialist fam file loaded ≡ ok next
    → IsApart next
unfolding load_specialist
load_specialist-IsApart fam none loaded next a h = let e : loaded ≡ next = cc in rw (← e) a
load_specialist-IsApart fam (some (raised t)) loaded next a h = absurd_raised h
load_specialist-IsApart fam (some (ok s)) loaded next a h =
    let e : put fam s loaded ≡ next = cc in rw (← e) (put-IsApart fam s loaded a)

module _ {F : Type 0} (files : String → Option (Result (Specialist F))) where
  load_loop-IsApart :
      (fams : List String) (loaded specialists : Specialists F)
      → IsApart loaded
      → load_specialists files fams loaded ≡ ok specialists
      → IsApart specialists
  unfolding load_specialists
  load_loop-IsApart [] loaded specialists a h = let e : loaded ≡ specialists = cc in rw (← e) a
  load_loop-IsApart (fam ∷ fams) loaded specialists a h =
      elim (Result-cases (load_specialist fam (files fam) loaded)) [
        | inl (next, e) ↦
            load_loop-IsApart fams next specialists
              (load_specialist-IsApart fam (files fam) loaded next a e) (rw e at h)
        | inr (t, e) ↦ absurd_raised (rw e at h)
      ]

  -- However often the router's classes name a family, and whichever models are there: if the
  -- specialists load, no two of them are for the same family.
  pub load_specialists-IsApart :
      (router_classes : List String) (specialists : Specialists F)
      → load_specialists files router_classes [] ≡ ok specialists
      → IsApart specialists
  load_specialists-IsApart router_classes specialists h =
      load_loop-IsApart router_classes [] specialists tt h

-- ===== src/Evaluation/Chain/Routed.antt =====
-- The loop over the specialists gives each sample what routing it by itself gives.
use mathlib.Core.List.{map-map}
use analysis_app.Prelude.{
  ℕ, suc, ◌<◌, ◌≡◌, refl, ap, ◌∙◌, inl, inr, String, true, false, Option, none, some, List, [], ◌∷◌,
  length, map, replicate, All, arith, Bool-cases, absurd_test,
}
use analysis_app.Prelude.Text.{str_eq, eq_iff, eq_refl, str_ne}
use analysis_app.Prelude.Assoc.{lookup}
use analysis_app.Prelude.Results.{Result, ok, ◌>>=◌, each, each-ok, each-map, length-each}
use analysis_app.Features.Arrays.{index, where_from}
use analysis_app.Features.Arrays.Shapes.{Returns-index}
use analysis_app.Float.{Float}
use analysis_app.Numpy.{Numpy, IsShaped}
use analysis_app.Evaluation.{Channels, unit_power}
use analysis_app.Evaluation.Batches.{IsRowwise, class_of, run_argmax_lem}
use analysis_app.Evaluation.Masks.{select, assign}
use analysis_app.Evaluation.Masks.Positions.{select-where_from, assign-where_from, updated}
use analysis_app.Evaluation.Chain.Loaded.{IsApart, load_specialists-IsApart}
use analysis_app.Evaluation.Chain.{
  Specialist, Specialists, load_specialists, route_at, route_family, route_families, hard_routing,
}

abbrev pub unrouted : {F : Type 0} → String × Channels F → Option String
unrouted s = none

module _ {F : Type 0} ⦃fl : Float F⦄ ⦃np : Numpy F⦄
    (scores : Specialist F → Channels F → List F) where
  -- A specialist scores each sample by itself, and has a score for each of its classes.
  abbrev pub IsSpecialist : Specialist F → Type 0
  IsSpecialist s =
      IsRowwise s.run (scores s)
      × ((x : Channels F) → length (scores s x) ≡ length s.classes)
      × (0 < length s.classes)

  -- The class that a specialist gives one sample.
  abbrev pub name_of : Specialist F → Channels F → Result String
  name_of s x = class_of s.run (scores s) x >>= index s.classes

  -- The routing of one sample: by the specialist of its family, if there is one.
  abbrev pub routed : Option (Specialist F) → Option String → Channels F → Result (Option String)
  routed none otherwise x = ok otherwise
  routed (some s) otherwise x = name_of s x >>= λ n. ok (some n)

  abbrev pub route_alone :
      Specialists F
      → (String × Channels F → Option String)
      → String × Channels F
      → Result (Option String)
  route_alone specialists otherwise (fam, x) =
      routed (lookup fam specialists) (otherwise (fam, x)) x

  module _ (sh : IsShaped F) where
    named :
        (s : Specialist F)
        → IsSpecialist s
        → (x : Channels F)
        → (n : String) × (c : ℕ) × (class_of s.run (scores s) x ≡ ok c) × (index s.classes c ≡ ok n)
    named s (h, wide, some_class) x =
        let (c, e, below) =
          sh.argmax_some (scores s (unit_power x))
            (omega (arith, wide (unit_power x), some_class)) in
        let (n, d) = Returns-index s.classes c (omega (arith, wide (unit_power x), below)) in
        (n, c, e, d)

    abbrev label : (s : Specialist F) → IsSpecialist s → Channels F → Option String
    label s h x = some (named s h x).0

    route_at-assign :
        (s : Specialist F) (h : IsSpecialist s) (xs chosen : List (Channels F)) (idx : List ℕ)
        (final_pred : List (Option String))
        → select idx xs ≡ ok chosen
        → route_at xs s idx final_pred ≡ assign idx (map (label s h) chosen) final_pred
    unfolding route_at
    route_at-assign s h xs chosen [] final_pred e =
        let none_chosen : [] ≡ chosen = cc in rw (← none_chosen) refl
    route_at-assign s h xs chosen (k ∷ ks) final_pred e =
        let several : length chosen ≡ suc (length ks) = length-each (index xs) (k ∷ ks) chosen e in
        let batch =
          run_argmax_lem s.run (scores s) chosen 1 h.0 (omega (arith, several)) (omega arith) in
        let classes =
          each-ok (λ x. (named s h x).1) (class_of s.run (scores s)) chosen
            (λ x. (named s h x).2) in
        let names =
          each-map (index s.classes) (λ x. (named s h x).1) chosen
          ∙ each-ok (λ x. (named s h x).0) (λ x. index s.classes (named s h x).1) chosen
              (λ x. (named s h x).3) in
        rw (e, batch.0, classes, names)
          (ap (λ vs. assign (k ∷ ks) vs final_pred) (map-map some (λ x. (named s h x).0) chosen))

    abbrev final_of :
        (specialists : Specialists F)
        → All (λ e. IsSpecialist e.1) specialists
        → (String × Channels F → Option String)
        → String × Channels F
        → Option String
    final_of [] hs otherwise = otherwise
    final_of ((fam, s) ∷ rest) (h, hs) otherwise =
        final_of rest hs (updated (λ p. str_eq p fam) (label s h) otherwise)

    route_families-final_of :
        (specialists : Specialists F) (hs : All (λ e. IsSpecialist e.1) specialists)
        (otherwise : String × Channels F → Option String) (ss : List (String × Channels F))
        → route_families (map (λ s. s.0) ss) (map (λ s. s.1) ss) specialists (map otherwise ss)
          ≡ ok (map (final_of specialists hs otherwise) ss)
    unfolding route_families route_family
    route_families-final_of [] hs otherwise ss = refl
    route_families-final_of ((fam, s) ∷ rest) (h, hs) otherwise ss =
        rw
          (
            route_at-assign s h (map (λ s. s.1) ss) _
                (where_from (λ p. str_eq p fam) 0 (map (λ s. s.0) ss)) (map otherwise ss)
                (select-where_from (λ p. str_eq p fam) ss),
            assign-where_from (λ p. str_eq p fam) (label s h) otherwise ss,
          )
          (route_families-final_of rest hs (updated (λ p. str_eq p fam) (label s h) otherwise) ss)

    route_alone-final_of :
        (specialists : Specialists F) (hs : All (λ e. IsSpecialist e.1) specialists)
        (otherwise : String × Channels F → Option String) (s : String × Channels F)
        → IsApart specialists
        → route_alone specialists otherwise s ≡ ok (final_of specialists hs otherwise s)
    route_alone-final_of [] hs otherwise s apart = refl
    route_alone-final_of ((fam, s) ∷ rest) (h, hs) otherwise (f, x) (none_later, apart) =
        let (n, c, e, d) = named s h x in
        let later =
          route_alone-final_of rest hs (updated (λ p. str_eq p fam) (label s h) otherwise) (f, x)
            apart in
        elim (Bool-cases (str_eq fam f)) [
          | inl t ↦
              let same : fam ≡ f = (eq_iff fam f).0 t in
              let back : str_eq f fam ≡ true = rw (← same) (eq_refl fam) in
              let none_here : lookup f rest ≡ none = rw same at none_later in
              let kept : ok (label s h x)
                  ≡ ok (
                      final_of rest hs (updated (λ p. str_eq p fam) (label s h) otherwise) (f, x)) =
                rw (none_here, back) at later in
              rw (t, e, d) kept
          | inr t ↦
              let back : str_eq f fam ≡ false =
                str_ne f fam (λ same. absurd_test (str_eq fam f) (rw same (eq_refl fam)) t) in
              rw t (rw back at later)
        ]

    nothing_yet :
        (ss : List (String × Channels F))
        → replicate (length (map (λ s. s.1) ss)) none ≡ map unrouted ss
    nothing_yet [] = refl
    nothing_yet (s ∷ ss) = ap (λ ys. none ∷ ys) (nothing_yet ss)

    -- For the specialists that are loaded for the router's classes, each of which scores each sample by
    -- itself, with a score for each of its classes, at least one: whatever family is picked for each
    -- sample, the loop over the families returns, and it gives each sample what routing the sample alone
    -- gives, the class that the specialist of its family gives it, or nothing where its family has none.
    pub hard_routing_refines :
        (files : String → Option (Result (Specialist F))) (router_classes : List String)
        (specialists : Specialists F) (ss : List (String × Channels F))
        → load_specialists files router_classes [] ≡ ok specialists
        → All (λ e. IsSpecialist e.1) specialists
        → (final_pred : List (Option String)) × (hard_routing specialists
              (map (λ s. s.0) ss)
              (map (λ s. s.1) ss)
            ≡ ok final_pred)
          × (each (route_alone specialists unrouted) ss ≡ ok final_pred)
    unfolding hard_routing
    hard_routing_refines files router_classes specialists ss loaded hs =
        let apart = load_specialists-IsApart files router_classes specialists loaded in
        (
          map (final_of specialists hs unrouted) ss,
          rw (nothing_yet ss) (route_families-final_of specialists hs unrouted ss),
          each-ok (final_of specialists hs unrouted) (route_alone specialists unrouted) ss
              (λ s. route_alone-final_of specialists hs unrouted s apart),
        )

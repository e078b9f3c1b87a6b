-- ===== src/Evaluation/Soft/Confident.antt =====
-- The choice among the families of a sample is the most confident one.
use analysis_app.Prelude.{
  ℕ, ◌≡◌, sym, ◌∙◌, inl, inr, String, true, false, Option, none, some, List, [], ◌∷◌, In, here,
  there, Bool-cases, absurd_test,
}
use analysis_app.Prelude.Assoc.{lookup}
use analysis_app.Prelude.Results.{ok, Result-cases, absurd_raised, ok-injective}
use analysis_app.Features.Arrays.{index}
use analysis_app.Float.{Float, IsOrdered}
use analysis_app.Numpy.{Numpy}
use analysis_app.Evaluation.Chain.{Specialist, Specialists}
use analysis_app.Evaluation.Soft.{Choice, Cache, more_confident, ask_specialist, ask_families}

module _ {F : Type 0} ⦃fl : Float F⦄ ⦃np : Numpy F⦄ (or : IsOrdered F) where
  not_below : (a b c : F) → fl.le a b ≡ true → fl.lt a c ≡ false → fl.lt b c ≡ false
  not_below a b c h k = elim (Bool-cases (fl.lt b c)) [
    | inr e ↦ e
    | inl e ↦ absurd_test (fl.lt a c) (or.lt_of_le_lt a b c h e) k
  ]

  -- The confidence of a specialist in its class for a sample.
  abbrev pub IsAnswer : Specialist F → List F → ℕ → F → Type 0
  IsAnswer s p ci conf = (np.argmax p ≡ ok ci) × (index p ci ≡ ok conf)

  more_confident-IsAnswer :
      (s : Specialist F) (p : List F) (best next : Choice F)
      → fl.le best.best_conf best.best_conf ≡ true
      → more_confident s p best ≡ ok next
      → (fl.le best.best_conf next.best_conf ≡ true)
        × (ci : ℕ) × (conf : F) × IsAnswer s p ci conf
        × (fl.lt next.best_conf conf ≡ false)
  unfolding more_confident
  more_confident-IsAnswer s p best next num h = elim (Result-cases (np.argmax p)) [
    | inr (t, e) ↦ absurd_raised (rw e at h)
    | inl (ci, e) ↦ elim (Result-cases (index p ci)) [
      | inr (t, d) ↦ absurd_raised (rw (e, d) at h)
      | inl (conf, d) ↦ elim (Bool-cases (fl.lt best.best_conf conf)) [
        | inr less ↦
            let same : best ≡ next = ok-injective (rw (e, d, less) at h) in
            rw (← same) (num, ci, conf, (e, d), less)
        | inl more ↦ elim (Result-cases (index s.classes ci)) [
          | inr (t, c) ↦ absurd_raised (rw (e, d, more, c) at h)
          | inl (name, c) ↦
              let same : record { best_cls = some name; best_conf = conf } ≡ next =
                ok-injective (rw (e, d, more, c) at h) in
              rw (← same)
                (or.le_of_lt best.best_conf conf more, ci, conf, (e, d), or.lt_irrefl conf)
        ]
      ]
    ]
  ]

  module _ (router_classes : List String) (specialists : Specialists F) (cache : Cache F)
      (n : ℕ) where
    -- The specialist of a family that is in the cache, and its probabilities for sample n.
    abbrev pub IsAsked : ℕ → Specialist F → List F → Type 0
    IsAsked fi s p =
        (fam : String) × (probs : List (List F)) × (index router_classes fi ≡ ok fam)
        × (lookup fam cache ≡ some probs)
        × (lookup fam specialists ≡ some s)
        × (index probs n ≡ ok p)

    -- The confidence never goes down.
    ask_specialist-le :
        (probs : Option (List (List F))) (s : Option (Specialist F)) (best next : Choice F)
        → fl.le best.best_conf best.best_conf ≡ true
        → ask_specialist n probs s best ≡ ok next
        → fl.le best.best_conf next.best_conf ≡ true
    unfolding ask_specialist
    ask_specialist-le none s best next num h =
        let same : best ≡ next = ok-injective h in rw (← same) num
    ask_specialist-le (some probs) none best next num h = absurd_raised h
    ask_specialist-le (some probs) (some s) best next num h = elim (Result-cases (index probs n)) [
      | inl (p, e) ↦ (more_confident-IsAnswer s p best next num (rw e at h)).0
      | inr (t, e) ↦ absurd_raised (rw e at h)
    ]

    -- A turn of the loop: the family, and the choice that the rest of the loop starts from.
    first_turn :
        (fi : ℕ) (fis : List ℕ) (best choice : Choice F)
        → ask_families router_classes specialists cache n (fi ∷ fis) best ≡ ok choice
        → (fam : String) × (next : Choice F) × (index router_classes fi ≡ ok fam)
          × (ask_specialist n (lookup fam cache) (lookup fam specialists) best ≡ ok next)
          × (ask_families router_classes specialists cache n fis next ≡ ok choice)
    unfolding ask_families
    first_turn fi fis best choice h = elim (Result-cases (index router_classes fi)) [
      | inr (t, e) ↦ absurd_raised (rw e at h)
      | inl (fam, e) ↦
          elim (Result-cases (ask_specialist n (lookup fam cache) (lookup fam specialists) best)) [
            | inr (t, d) ↦ absurd_raised (rw (e, d) at h)
            | inl (next, d) ↦ (fam, next, e, d, (rw (e, d) at h))
          ]
    ]

    ask_families-le :
        (fis : List ℕ) (best choice : Choice F)
        → fl.le best.best_conf best.best_conf ≡ true
        → ask_families router_classes specialists cache n fis best ≡ ok choice
        → fl.le best.best_conf choice.best_conf ≡ true
    unfolding ask_families
    ask_families-le [] best choice num h =
        let same : best ≡ choice = ok-injective h in rw (← same) num
    ask_families-le (fi ∷ fis) best choice num h =
        let (fam, next, e, d, rest) = first_turn fi fis best choice h in
        let up = ask_specialist-le (lookup fam cache) (lookup fam specialists) best next num d in
        or.le_trans best.best_conf next.best_conf choice.best_conf up
          (ask_families-le fis next choice (or.num_of_le best.best_conf next.best_conf up).1 rest)

    -- Where the loop over a sample's families returns a choice, from a confidence that is a number on:
    -- each of the families that is in the cache has a specialist's answer, and the choice is not less
    -- confident than that answer.
    pub ask_families-IsAnswer :
        (fis : List ℕ) (best choice : Choice F) (fi : ℕ) (s : Specialist F) (p : List F)
        → fl.le best.best_conf best.best_conf ≡ true
        → ask_families router_classes specialists cache n fis best ≡ ok choice
        → In fi fis
        → IsAsked fi s p
        → (ci : ℕ) × (conf : F) × IsAnswer s p ci conf × (fl.lt choice.best_conf conf ≡ false)
    unfolding ask_specialist
    ask_families-IsAnswer [] best choice fi s p num h m asked = elim m [ ]
    ask_families-IsAnswer (fj ∷ fis) best choice fi s p num h here (fam, probs, e, c, l, i) =
        let (fam', next, e', d, rest) = first_turn fj fis best choice h in
        let same : fam ≡ fam' = ok-injective (sym e ∙ e') in
        let turn : more_confident s p best ≡ ok next = rw (← same, c, l, i) at d in
        let (up, ci, conf, answer, above) = more_confident-IsAnswer s p best next num turn in
        let later =
          ask_families-le fis next choice (or.num_of_le best.best_conf next.best_conf up).1 rest in
        (ci, conf, answer, not_below next.best_conf choice.best_conf conf later above)
    ask_families-IsAnswer (fj ∷ fis) best choice fi s p num h (there m) asked =
        let (fam, next, e, d, rest) = first_turn fj fis best choice h in
        let up = ask_specialist-le (lookup fam cache) (lookup fam specialists) best next num d in
        ask_families-IsAnswer fis next choice fi s p
          (or.num_of_le best.best_conf next.best_conf up).1 rest m asked

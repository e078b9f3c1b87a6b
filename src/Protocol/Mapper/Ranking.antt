-- ===== src/Protocol/Mapper/Ranking.antt =====
-- What `ProtocolMapper.map` promises: the best three signatures, in order.
use analysis_app.Prelude.{
  ◌≡◌, refl, sym, ◌∙◌, ap, ◌≤◌, ◌⊎◌, inl, inr, true, false, List, [], ◌∷◌, map as map_list, take,
  length, length-take, length-map, All, In, here, there, All-take, All-map, In-map, All-weaken,
  arith, Bool-cases,
}
use analysis_app.Float.{Float, IsOrdered}
use analysis_app.Features.{SignalFeatures}
use analysis_app.Classifier.{Hypothesis, ClassificationResult}
use analysis_app.Protocol.Signature.{Signature}
use analysis_app.Protocol.Score.{score}
use analysis_app.Protocol.Mapper.{capped, scored, hypothesis, ranked, map}
use analysis_app.Protocol.Mapper.Sort.{
  IsSorted, All-sort, In-sort, sort-IsSorted, In-take, take-IsSorted,
}

module _ {F : Type 0} ⦃fl : Float F⦄ (db : List Signature) (f : SignalFeatures F)
    (r : ClassificationResult F) where
  open fl use {lit, neg, div, lt}

  -- The score that `map` computes for a signature.
  abbrev pub score_of : Signature → F
  score_of sig = score sig f r (div f.center_freq_hz (lit 1000000 0))

  -- A pair that the loop keeps: a signature of the database with its score, above 0.05.
  abbrev pub IsScored : List Signature → F × Signature → Type 0
  IsScored base p = In p.1 base × (p.0 ≡ score_of p.1) × (lt (lit 5 2) p.0 ≡ true)

  scored-IsScored : (base : List Signature) → All (IsScored base) (scored base f r)
  unfolding scored
  scored-IsScored [] = tt
  scored-IsScored (sig ∷ base) =
      let rest : All (IsScored (sig ∷ base)) (scored base f r) =
        All-weaken (IsScored base) (IsScored (sig ∷ base)) (scored base f r)
          (λ p (m, e, h). (there m, e, h)) (scored-IsScored base) in
      elim (Bool-cases (lt (lit 5 2) (score_of sig))) [
        | inl e ↦ rw e ((here, refl, e), rest)
        | inr e ↦ rw e rest
      ]

  In-scored :
      (base : List Signature) (sig : Signature)
      → In sig base
      → lt (lit 5 2) (score_of sig) ≡ true
      → In (score_of sig, sig) (scored base f r)
  unfolding scored
  In-scored [] sig m h = elim m [ ]
  In-scored (sig ∷ base) sig' here h = rw h here
  In-scored (sig ∷ base) sig' (there m) h = elim (Bool-cases (lt (lit 5 2) (score_of sig))) [
    | inl e ↦ rw e (there (In-scored base sig' m h))
    | inr e ↦ rw e (In-scored base sig' m h)
  ]

  ranked-IsScored : All (IsScored db) (ranked db f r)
  unfolding ranked
  ranked-IsScored = All-sort (λ p. neg p.0) (IsScored db) (scored db f r) (scored-IsScored db)

  -- A hypothesis about a signature of the database, with the score of that signature.
  abbrev pub IsAbout : Hypothesis F → Signature → Type 0
  IsAbout h sig =
      (h.system ≡ sig.name)
      × (h.category ≡ sig.category)
      × (h.confidence ≡ capped (score_of sig))
      × (lt (lit 5 2) (score_of sig) ≡ true)

  -- `map` returns at most three hypotheses, and each is about a signature of the database whose
  -- score exceeds 0.05, with its name, its category and its score, cut off at 1.0.
  pub map_sound :
      (length (map db f r) ≤ 3)
      × All (λ h. (sig : Signature) × In sig db × IsAbout h sig) (map db f r)
  unfolding map
  map_sound =
      let best = take 3 (ranked db f r) in
      (
        omega (arith, length-map (hypothesis f r) best, length-take 3 (ranked db f r)),
        All-map _ (hypothesis f r) best (
            All-weaken (IsScored db) _ best
              (λ p (m, e, h). (p.1, m, (refl, refl, ap capped e, rw (← e) h)))
              (All-take (IsScored db) 3 (ranked db f r) ranked-IsScored)),
      )

  module _ (laws : IsOrdered F) where
    open laws use {lt_irrefl, le_of_lt, lt_of_lt_le, neg_lt}

    -- Cutting off at 1.0 keeps the order.
    capped_mono : (a b : F) → lt a b ≡ false → lt (capped a) (capped b) ≡ false
    capped_mono a b h = elim (Bool-cases (lt (lit 10 1) a)) [
      | inl big ↦ rw big (elim (Bool-cases (lt (lit 10 1) b)) [
        | inl e ↦ rw e (lt_irrefl (lit 10 1))
        | inr e ↦ rw e e
      ])
      | inr small ↦ rw small (elim (Bool-cases (lt (lit 10 1) b)) [
        | inl e ↦ rw e (elim (Bool-cases (lt a (lit 10 1))) [
          | inl k ↦ cc (lt_of_lt_le a (lit 10 1) b k (le_of_lt (lit 10 1) b e))
          | inr k ↦ k
        ])
        | inr e ↦ rw e h
      ])
    ]

    -- A key that is not smaller is a score that is not greater.
    least_score : (p q : F × Signature) → lt (neg p.0) (neg q.0) ≡ false → lt q.0 p.0 ≡ false
    least_score p q h = sym (neg_lt p.0 q.0) ∙ h

    -- No hypothesis is followed by one of a greater confidence.
    abbrev pub IsDescending : List (Hypothesis F) → Type 0
    IsDescending [] = Unit
    IsDescending (h ∷ hs) = All (λ k. lt h.confidence k.confidence ≡ false) hs × IsDescending hs

    descending :
        (ps : List (F × Signature))
        → IsSorted (λ p. neg p.0) ps
        → IsDescending (map_list (hypothesis f r) ps)
    descending [] s = tt
    descending (p ∷ ps) (a, s) = (
      All-map (λ h. lt (capped p.0) h.confidence ≡ false) (hypothesis f r) ps
          (All-weaken (λ q. lt (neg q.0) (neg p.0) ≡ false)
            (λ q. lt (capped p.0) (capped q.0) ≡ false) ps
            (λ q h. capped_mono p.0 q.0 (least_score q p h)) a),
      descending ps s,
    )

    -- The hypotheses of `map` are in the order of their confidence, the greatest first.
    pub map-IsDescending : IsDescending (map db f r)
    unfolding map
    map-IsDescending = descending (take 3 (ranked db f r)) (
        take-IsSorted (λ p. neg p.0) 3 (ranked db f r)
          (sort-IsSorted (λ p. neg p.0) laws (scored db f r)))

    -- A signature of the database whose score exceeds 0.05 is reported, unless `map` returns three
    -- hypotheses, none of which has less confidence than that signature would have.
    pub map_complete :
        (sig : Signature)
        → In sig db
        → lt (lit 5 2) (score_of sig) ≡ true
        → In (hypothesis f r (score_of sig, sig)) (map db f r)
          ⊎ ((length (map db f r) ≡ 3)
              × All (λ h. lt h.confidence (capped (score_of sig)) ≡ false) (map db f r))
    unfolding map
    map_complete sig m h =
        let all_ranked = ranked db f r in
        let p : F × Signature = (score_of sig, sig) in
        elim (In-take (λ q. neg q.0) 3 all_ranked p
          (sort-IsSorted (λ q. neg q.0) laws (scored db f r))
          (In-sort (λ q. neg q.0) (scored db f r) (In-scored db sig m h))) [
            | inl early ↦ inl (In-map (hypothesis f r) (take 3 all_ranked) early)
            | inr (full, least) ↦ inr (
              length-map (hypothesis f r) (take 3 all_ranked) ∙ full,
              All-map _ (hypothesis f r) (take 3 all_ranked) (
                  All-weaken _ _ (take 3 all_ranked)
                    (λ q k. capped_mono q.0 (score_of sig) (least_score p q k)) least),
            )
          ]

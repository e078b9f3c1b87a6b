-- ===== src/Evaluation/Soft.antt =====
-- tools/ml/eval_hierarchical_chain.py: the branch of `main` for --soft-top-k above 1, where the
-- specialists of several families are asked, and the most confident one decides.
pub mod Confident
use analysis_app.Prelude.{
  ℕ, zero, suc, ◌-◌, min, String, Bool, true, false, ◌&&◌, ◌||◌, ◌==◌, Option, none, some, List, [],
  ◌∷◌, length, drop, any, if◌then◌else◌,
}
use analysis_app.Prelude.Text.{str_eq}
use analysis_app.Prelude.Assoc.{lookup, put}
use analysis_app.Prelude.Results.{Result, ok, raised, ◌>>=◌, each}
use analysis_app.Features.Arrays.{index, reverse, range}
use analysis_app.Float.{Float}
use analysis_app.Numpy.{Numpy}
use analysis_app.Evaluation.{Channels, run_probs}
use analysis_app.Evaluation.Masks.{hits}
use analysis_app.Evaluation.Chain.{Specialist, Specialists}

-- xs.index(x)
unfoldable pub position : String → List String → Option ℕ
position x [] = none
position x (y ∷ ys) =
    let later = position x ys in
    if str_eq y x then some 0 else elim later [ none ↦ none | some i ↦ some (suc i) ]

-- best_cls and best_conf
pub record Choice (F : Type 0) : Type 0 where
  pub best_cls : Option String
  pub best_conf : F

-- spec_cache: the probabilities of all samples, by family
abbrev pub Cache : Type 0 → Type 0
Cache F = List (String × List (List F))

module _ {F : Type 0} ⦃fl : Float F⦄ ⦃np : Numpy F⦄ where
  open fl use {lit, neg, lt, eq}

  -- np.argsort(router_probs)[:, -soft_k:][:, ::-1], for a soft_k that is not 0
  unfoldable pub top_families : ℕ → List F → List ℕ
  top_families soft_k probs = reverse (drop (length (np.argsort probs) - soft_k) (np.argsort probs))

  -- the test of `need`, for one sample
  unfoldable pub is_needed : F → ℕ → List ℕ → List F → Result Bool
  is_needed threshold i top probs =
      if eq threshold (lit 0 1)
      then ok (any (λ t. t == i) top)
      else (index probs i >>= λ p. index top 0 >>= λ first.
          ok (lt (lit 0 0) p && (first == i || lt (np.max probs) threshold)))

  -- the specialist's class, where it is more confident than the best so far
  unfoldable pub more_confident : Specialist F → List F → Choice F → Result (Choice F)
  more_confident s p best = np.argmax p >>= λ ci. index p ci >>= λ conf.
      if lt best.best_conf conf
      then (index s.classes ci >>= λ c. ok (record { best_cls = some c; best_conf = conf }))
      else ok best

  -- the family's entry in the cache and its specialist
  -- for sample n
  unfoldable pub ask_specialist :
      ℕ → Option (List (List F)) → Option (Specialist F) → Choice F → Result (Choice F)
  unfolding more_confident
  ask_specialist n none s best = ok best
  ask_specialist n (some probs) none best = raised "KeyError"
  ask_specialist n (some probs) (some s) best = index probs n >>= λ p. more_confident s p best

  module _ (router_classes : List String) (specialists : Specialists F) where
    -- one turn of the loop that fills the cache
    unfoldable pub cache_family :
        F → List (List ℕ × List F) → List (Channels F) → String → Cache F → Result (Cache F)
    unfolding position is_needed hits
    cache_family threshold rows xs fam cache = elim (lookup fam specialists) [
      | none ↦ ok cache
      | some s ↦ elim (position fam router_classes) [
        | none ↦ raised "is not in list"
        | some i ↦ each (λ row. is_needed threshold i row.0 row.1) rows >>= λ need.
            if hits need == 0
            then ok cache
            else (run_probs s.run xs >>= λ probs. ok (put fam probs cache))
      ]
    ]

    unfoldable pub fill_cache :
        F → List (List ℕ × List F) → List (Channels F) → List String → Cache F → Result (Cache F)
    unfolding cache_family
    fill_cache threshold rows xs [] cache = ok cache
    fill_cache threshold rows xs (fam ∷ fams) cache =
        cache_family threshold rows xs fam cache >>= λ next. fill_cache threshold rows xs fams next

    module _ (cache : Cache F) (n : ℕ) where
      unfoldable pub ask_families : List ℕ → Choice F → Result (Choice F)
      unfolding ask_specialist
      ask_families [] best = ok best
      ask_families (fi ∷ fis) best = index router_classes fi >>= λ fam.
          ask_specialist n (lookup fam cache) (lookup fam specialists) best >>= λ next.
          ask_families fis next

    -- the class of sample n, from its families in the order of the router's confidence
    unfoldable pub soft_class : ℕ → F → Cache F → ℕ → List ℕ × List F → Result (Option String)
    unfolding ask_families
    soft_class soft_k threshold cache n (top, probs) = np.argmax probs >>= λ fam_idx_pred.
        index probs fam_idx_pred >>= λ top1_conf.
        let k = if eq threshold (lit 0 1) || lt top1_conf threshold then soft_k else 1 in
        each (index top) (range (min k (length router_classes))) >>= λ fis.
        ask_families cache n fis (record { best_cls = none; best_conf = neg (lit 10 1) })
        >>= λ choice. ok choice.best_cls

    unfoldable pub soft_classes :
        ℕ → F → Cache F → ℕ → List (List ℕ × List F) → Result (List (Option String))
    unfolding soft_class
    soft_classes soft_k threshold cache n [] = ok []
    soft_classes soft_k threshold cache n (row ∷ rows) =
        soft_class soft_k threshold cache n row >>= λ c.
        soft_classes soft_k threshold cache (suc n) rows >>= λ cs. ok (c ∷ cs)

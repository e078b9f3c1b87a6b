-- ===== src/Protocol/Score/Bounds.antt =====
-- The score of a signature lies between 0 and the score of a perfect match.
use native.Mathlib.Nat.{le_refl}
use analysis_app.Prelude.{
  ◌≡◌, ℕ, ◌+◌, ◌-◌, ◌*◌, ◌^◌, ◌≤◌, ◌<◌, Bool, true, false, not, ◌&&◌, ◌||◌, In, arith, Bool-cases,
  inl, inr, any, ltb, if-both, if-each, and_true_right,
}
use analysis_app.Prelude.Text.{begins, within, upper}
use analysis_app.Float.{Float, IsOrdered}
use analysis_app.Float.Arithmetic.{IsArithmetic, Nonneg}
use analysis_app.Features.{SignalFeatures}
use analysis_app.Classifier.{ClassificationResult}
use analysis_app.Protocol.Signature.{Signature}
use analysis_app.Protocol.Db.{protocol_db, well_formed, protocol_db-well_formed, well_formed_ranges}
use analysis_app.Protocol.Score.{
  is_true, is_false, is_nonempty, in_band, freq_score, detected_upper, add_mod_score, gauss,
  range_score, scaled_if, modify, match_score, score,
}

module _ {F : Type 0} ⦃fl : Float F⦄ where
  open fl use {lit, neg, exp, pow, add, sub, mul, div, lt, le}

  -- Between 0 and an upper bound.
  abbrev pub Within : F → F → Type 0
  Within top x = Nonneg x × (le x top ≡ true)

  -- The score of a signature that matches in all four respects.
  abbrev pub by_freq_full : F
  by_freq_full = add (lit 0 1) (mul (lit 40 2) (lit 10 1))

  abbrev pub by_mod_full : F
  by_mod_full = add by_freq_full (mul (lit 30 2) (lit 10 1))

  abbrev pub by_bw_full : F
  by_bw_full = add by_mod_full (mul (lit 15 2) (lit 10 1))

  abbrev pub full_score : F
  full_score = add by_bw_full (mul (lit 15 2) (lit 10 1))

  module _ (order : IsOrdered F) (laws : IsArithmetic F) where
    open order use {le_trans, lit_le, num_of_le, lt_or_ge, le_of_lt}
    open laws use {
      add_nonneg, add_mono, add_grows, weigh, shrink, exp_range, div_nonpos, neg_nonpos,
      square_nonneg, sub_exact, half_exact, add_one_exact, square_range,
    }

    -- A numeral of the source between 0 and 1, weighted.
    weighted :
        (m e n d : ℕ)
        → m ≤ 10 ^ 9
        → n ≤ 10 ^ d
        → Within (mul (lit m e) (lit 10 1)) (mul (lit m e) (lit n d))
    weighted m e n d few h =
        weigh m e (lit n d) few (lit_le 0 0 n d (omega arith)) (lit_le n d 10 1 (omega arith))

    freq_score-Within :
        (sig : Signature) (cf : F) → Within (mul (lit 40 2) (lit 10 1)) (freq_score sig cf)
    unfolding freq_score
    freq_score-Within sig cf =
        let top : F = mul (lit 40 2) (lit 10 1) in
        let hit = weighted 40 2 10 1 (omega arith) (omega arith) in
        let miss = weighted 40 2 0 1 (omega arith) (omega arith) in
        let neutral = weighted 40 2 5 1 (omega arith) (omega arith) in
        elim (Bool-cases (lt (lit 0 0) cf && is_nonempty sig.freq_bands_mhz)) [
          | inl e ↦ rw e (elim (Bool-cases (any (in_band cf) sig.freq_bands_mhz)) [
            | inl k ↦ rw k hit
            | inr k ↦ rw k miss
          ])
          | inr e ↦ rw e neutral
        ]

    -- A value at which the square in the penalty does not overflow.
    abbrev pub IsModest : F → Type 0
    IsModest x = lt (lit (10 ^ 150) 0) x ≡ false

    -- A value that is a number, and not above a numeral.
    modest_le : (x : F) → IsModest x → lt (lit 0 0) x ≡ true → le x (lit (10 ^ 150) 0) ≡ true
    modest_le x modest p =
        let top : F = lit (10 ^ 150) 0 in
        let of_x = (num_of_le (lit 0 0) x (le_of_lt (lit 0 0) x p)).1 in
        elim (lt_or_ge top x (lit_le (10 ^ 150) 0 (10 ^ 150) 0 (le_refl _)) of_x) [
          | inl above ↦ absurd (ground (arith, modest, above))
          | inr below ↦ below
        ]

    -- The exponent of the Gaussian is not positive, and its divisor is at least 1.
    gauss-Within :
        (mn mx : ℕ) (x : F)
        → mn ≤ mx
        → mx ≤ 10 ^ 9
        → IsModest x
        → lt (lit 0 0) x ≡ true
        → Within (lit 10 1) (gauss mn mx x)
    unfolding gauss
    gauss-Within mn mx x h k modest p =
        let n : ℕ = mx - mn + 2 in
        let (low, high) = square_range n (omega arith) (omega arith) in
        let square =
          square_nonneg x (5 * (mn + mx)) (le_of_lt (lit 0 0) x p) (modest_le x modest p)
            (omega arith) in
        rw
          (
            half_exact (mn + mx) (omega arith),
            gauss,
            sub_exact mx mn h k,
            half_exact (mx - mn) (omega arith),
            add_one_exact (mx - mn) (omega arith),
          )
          (exp_range _ (div_nonpos _ _ (neg_nonpos _ square) low high))

    range_score-Within :
        (mn mx : ℕ) (x : F)
        → mn ≤ mx
        → mx ≤ 10 ^ 9
        → IsModest x
        → Within (mul (lit 15 2) (lit 10 1)) (range_score mn mx x)
    unfolding range_score
    range_score-Within mn mx x h k modest =
        let P : F → Type 0 = Within (mul (lit 15 2) (lit 10 1)) in
        let hit = weighted 15 2 10 1 (omega arith) (omega arith) in
        if-each P (ltb 0 mn && ltb 0 mx && lt (lit 0 0) x)
          (λ known.
            let g = gauss-Within mn mx x h k modest (and_true_right _ _ known) in
            if-both P (le (lit mn 0) x && le x (lit mx 0)) hit
              (weigh 15 2 (gauss mn mx x) (omega arith) g.0 g.1))
          (λ _. weighted 15 2 4 1 (omega arith) (omega arith))

    -- Adding at most `part` to at most `top`.
    add-Within : (top s part x : F) → Within top s → Within part x → Within (add top part) (add s x)
    add-Within top s part x (sn, st) (xn, xt) =
        (add_nonneg s x sn xn, add_mono s top x part sn xn st xt)

    zero_Within : Within (lit 0 1) (lit 0 1)
    zero_Within = (lit_le 0 0 0 1 (omega arith), lit_le 0 1 0 1 (omega arith))

    -- Adding nothing also stays below.
    keep-Within : (top s part : F) → Within top s → Nonneg part → Within (add top part) s
    keep-Within top s part (sn, st) h =
        (sn, le_trans s top (add top part) st (add_grows top part (le_trans _ s top sn st) h))

    add_mod_score-Within :
        (sig : Signature) (r : ClassificationResult F) (s : F)
        → Within by_freq_full s
        → Within by_mod_full (add_mod_score sig r s)
    unfolding add_mod_score
    add_mod_score-Within sig r s w =
        let found = detected_upper r in
        let P : F → Type 0 = Within by_mod_full in
        let part : F = mul (lit 30 2) (lit 10 1) in
        let full = weighted 30 2 10 1 (omega arith) (omega arith) in
        if-both P (is_nonempty sig.modulations)
          (if-both P (any (λ m. begins found (upper m)) sig.modulations)
            (add-Within by_freq_full s part _ w full)
            (if-both P (any (λ m. within (upper m) found || within found (upper m)) sig.modulations)
              (add-Within by_freq_full s part _ w (weighted 30 2 5 1 (omega arith) (omega arith)))
              (keep-Within by_freq_full s part w full.0)))
          (add-Within by_freq_full s part _ w (weighted 30 2 4 1 (omega arith) (omega arith)))

    scaled_if-Within :
        (top s : F) (b : Bool) (m e : ℕ)
        → 0 < m
        → m ≤ 10 ^ e
        → e ≤ 9
        → Within top s
        → Within top (scaled_if b (lit m e) s)
    scaled_if-Within top s true m e h k few (sn, st) =
        let (n, down) = shrink s m e h k few sn in (n, le_trans _ s top down st)
    scaled_if-Within top s false m e h k few w = w

    modify-Within :
        (sig : Signature) (r : ClassificationResult F) (top s : F)
        → Within top s
        → Within top (modify sig r s)
    unfolding modify
    modify-Within sig r top s w =
        let in_range = scaled_if-Within top in
        in_range _ (is_true sig.fhss && not r.is_fhss) 4 1 (omega arith) (omega arith) (omega arith)
          (in_range _ (is_true sig.ofdm && not r.is_ofdm) 4 1 (omega arith) (omega arith)
            (omega arith)
            (in_range _ (is_false sig.burst && r.is_burst) 7 1 (omega arith) (omega arith)
              (omega arith)
              (in_range s (is_true sig.burst && not r.is_burst) 5 1 (omega arith) (omega arith)
                (omega arith) w)))

    match_score-Within :
        (sig : Signature) (f : SignalFeatures F) (r : ClassificationResult F) (cf : F)
        → well_formed sig ≡ true
        → IsModest f.bandwidth_hz
        → IsModest f.symbol_rate_sps
        → Within full_score (match_score sig f r cf)
    unfolding match_score
    match_score-Within sig f r cf h modest_bw modest_sr =
        let (bw_up, bw_top, sr_up, sr_top) = well_formed_ranges sig h in
        let fr = freq_score-Within sig cf in
        let by_freq = add-Within (lit 0 1) (lit 0 1) _ _ zero_Within fr in
        let by_mod = add_mod_score-Within sig r (add (lit 0 1) (freq_score sig cf)) by_freq in
        let bw =
          range_score-Within sig.bw_min_hz sig.bw_max_hz f.bandwidth_hz bw_up bw_top modest_bw in
        let sr =
          range_score-Within sig.sr_min_sps sig.sr_max_sps f.symbol_rate_sps sr_up sr_top
            modest_sr in
        add-Within by_bw_full _ _ _ (add-Within by_mod_full _ _ _ by_mod bw) sr

    -- For every entry of the protocol database, all features whose bandwidth and symbol rate are not above
    -- 1e150, all results and frequencies, the score lies between 0 and the score of a match in
    -- frequency, modulation, bandwidth and symbol rate.
    pub score_bounds :
        (sig : Signature) (f : SignalFeatures F) (r : ClassificationResult F) (cf_mhz : F)
        → In sig protocol_db
        → IsModest f.bandwidth_hz
        → IsModest f.symbol_rate_sps
        → Nonneg (score sig f r cf_mhz) × (le (score sig f r cf_mhz) full_score ≡ true)
    unfolding score
    score_bounds sig f r cf m modest_bw modest_sr =
        modify-Within sig r full_score (match_score sig f r cf)
          (match_score-Within sig f r cf (protocol_db-well_formed sig m) modest_bw modest_sr)

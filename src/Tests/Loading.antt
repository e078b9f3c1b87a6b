-- ===== src/Tests/Loading.antt =====
-- Runs of the loaders, of the family map and of the impairments.
use native.Mathlib.Nat.{div-div-eq-div-mul, mul-div_cancel, mul_comm}
use analysis_app.Prelude.{
  ◌≡◌, refl, ℕ, ◌*◌, ◌/◌, ◌≤◌, ◌⊎◌, ap, ◌∙◌, sym, ◌^◌, true, In-All, false, none, some, String,
  List, [], ◌∷◌, replicate, length-replicate, All, arith,
}
use analysis_app.Prelude.Int.{ℤ, pos, negsuc, pos_part}
use analysis_app.Prelude.Assoc.{lookup}
use analysis_app.Prelude.Results.{ok}
use analysis_app.Float.Fixed.{fixed_float, lit_ℤ, unit}
use analysis_app.Numpy.{Complex}
use analysis_app.Numpy.Fixed.{fixed_numpy, fixed-IsShaped}
use analysis_app.Datasets.{IqSample}
use analysis_app.Datasets.Npz.{Npz, load_numpy_npz, save_synthetic_npz}
use analysis_app.Datasets.Npz.Reloaded.{reloaded, load_numpy_npz-save_synthetic_npz}
use analysis_app.Datasets.Raw.{iq_value, combined}
use analysis_app.Datasets.Hub.{HubRow, missing, channels, flat, decode_hub, load_hf_dataset}
use analysis_app.Datasets.Hub.Capped.{labelled, AreNumbered, load_hf_dataset_lem}
use analysis_app.FamilyMap.{class_family, family_idx}
use analysis_app.FamilyMap.Indices.{family_idx_lem, IsIndexOf}
use analysis_app.Impairments.{Channel, add_impairments}
use analysis_app.Profiles.{rtl_sdr}
use analysis_app.Impairments.Stages.{
  IsSound, Keeps, add_impairments_lem, jitter_times, profiles-IsUsable,
}
use analysis_app.Tests.Signals.{sample_of}

abbrev three : List (Complex ℤ)
three = iq_value (pos 1) (pos 2) ∷ iq_value (pos 3) (pos 4) ∷ iq_value (pos 5) (pos 6) ∷ []

abbrev cut : ℕ → List (Complex ℤ) → IqSample ℤ
cut i c = record (sample_of "QPSK" (pos 0)) { iq = c; segment_idx = i }

abbrev two : ℕ
two = 2

abbrev hub_rows : List (HubRow ℤ)
hub_rows =
    record { snr = lit_ℤ 10 0; label = "BPSK"; raw = flat (pos 1 ∷ pos 2 ∷ []) }
    ∷ record { snr = lit_ℤ 10 0; label = "BPSK"; raw = channels (pos 1 ∷ []) (pos 2 ∷ []) }
    ∷ record { snr = lit_ℤ 10 0; label = "QPSK"; raw = missing }
    ∷ []

load_hf_dataset_lem_example :
    (ss : List (IqSample ℤ)) × (load_hf_dataset "radio" "train" (pos 0) (pos 0) 1 hub_rows ≡ ok ss)
    × ((l : String) → labelled l ss ≤ 1)
    × All (λ s. fixed_float.lt s.snr_db (pos 0) ≡ false) ss
    × AreNumbered 0 ss
unfolding decode_hub combined
load_hf_dataset_lem_example =
    load_hf_dataset_lem "radio" "train" (pos 0) (pos 0) 1 hub_rows
      ((_, refl), ((_, refl), ((_, refl), tt)))

family_idx_lem_example :
    ((lookup "DMR" class_family ≡ none) × (family_idx "DMR" ≡ negsuc 0))
    ⊎ ((fam : String) × (lookup "DMR" class_family ≡ some fam) × IsIndexOf (family_idx "DMR") fam)
family_idx_lem_example = family_idx_lem "DMR"

abbrev two_classes : List String
two_classes = "QPSK" ∷ "NOISE" ∷ []

abbrev whole_of : ℤ → ℤ
whole_of (pos n) = pos (n / unit)
whole_of (negsuc n) = negsuc (n / unit)

abbrev pub quiet : Channel ℤ
quiet = record {
  cos = λ x. lit_ℤ 1 0;
  sin = λ x. pos 0;
  radians = λ x. x;
  int_of = λ x. ok (whole_of x);
  ten_to = λ x. ok (lit_ℤ 1 0);
  floor = λ x. pos_part x / unit;
  normal_phase = λ sigma n. replicate n (pos 0);
  normal_jitter = λ sigma n. replicate n (pos 0);
  noise_re = λ n. replicate n (pos 0);
  noise_im = λ n. replicate n (pos 0);
}

quiet_floor : (t : ℤ) (m : ℕ) → quiet.floor (fixed_numpy.clip t (lit_ℤ 0 0) (lit_ℤ m 0)) ≤ m
quiet_floor (pos n) m = ground arith
quiet_floor (negsuc n) m = ground arith

quiet_int : (m e : ℕ) → m ≤ 10 ^ 9 → e ≤ 6 → quiet.int_of (lit_ℤ m e) ≡ ok (pos (m / 10 ^ e))
quiet_int m e few small =
    ap (λ n. ok (pos n))
      (div-div-eq-div-mul (m * unit) (10 ^ e) unit
        ∙ ap (λ n. m * unit / n) (mul_comm (10 ^ e) unit)
        ∙ sym (div-div-eq-div-mul (m * unit) unit (10 ^ e))
        ∙ ap (λ n. n / 10 ^ e) (mul-div_cancel m (omega arith)))

same_ℤ : (t : ℤ) → fixed_float.eq t t ≡ true
same_ℤ (pos n) = ground arith
same_ℤ (negsuc n) = ground arith

pub quiet-IsSound : IsSound ℤ quiet
quiet-IsSound = record {
  length-normal_phase = λ sigma n. length-replicate n (pos 0);
  length-normal_jitter = λ sigma n. length-replicate n (pos 0);
  length-noise_re = λ n. length-replicate n (pos 0);
  length-noise_im = λ n. length-replicate n (pos 0);
  floor_clip = λ t m number few. quiet_floor t m;
  int_literal = quiet_int;
  ten_to_snr = λ db loud. (_, refl);
  ten_to_literal = λ m e few. (_, refl);
  finite_jitter = λ m e n few.
      In-All (λ t. fixed_float.eq t t ≡ true) (jitter_times quiet (lit_ℤ m e) n) (λ t i. same_ℤ t);
}

add_impairments_lem_example :
    Keeps quiet three (add_impairments quiet three (lit_ℤ 200000 0) none rtl_sdr)
add_impairments_lem_example =
    add_impairments_lem quiet fixed-IsShaped quiet-IsSound three (lit_ℤ 200000 0) none rtl_sdr refl
      (omega arith) (profiles-IsUsable quiet fixed-IsShaped quiet-IsSound rtl_sdr)

abbrev one_qpsk : List (IqSample ℤ)
one_qpsk = sample_of "QPSK" (pos 0) ∷ []

-- Rounding to multiples of 8.
abbrev coarse : ℤ → ℤ
coarse x = pos (pos_part x / 8 * 8)

load_numpy_npz-save_synthetic_npz_example :
    (d : Npz ℤ) × (save_synthetic_npz coarse (sample_of "BPSK" (pos 17) ∷ one_qpsk) ≡ ok d)
    × (load_numpy_npz coarse (pos 0) (λ z. "?") "set.npz" (pos 0) 5000 d
        ≡ ok (reloaded coarse "set.npz" 0 (sample_of "BPSK" (pos 17) ∷ one_qpsk)))
load_numpy_npz-save_synthetic_npz_example =
    load_numpy_npz-save_synthetic_npz coarse (λ x. ground arith) (pos 0) (λ z. "?") "set.npz"
      (pos 0) 5000 (sample_of "BPSK" (pos 17)) one_qpsk (refl, tt) (refl, (refl, tt)) (omega arith)

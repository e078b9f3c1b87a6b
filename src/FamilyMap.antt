-- ===== src/FamilyMap.antt =====
-- tools/ml/family_map.py: the modulation families of the classes, and their indices.
pub mod Indices
use analysis_app.Prelude.{
  ℕ, zero, suc, ◌≡◌, refl, String, Bool, true, false, Option, none, some, List, [], ◌∷◌, ltb, ◌==◌,
  length, replicate, map, if◌then◌else◌,
}
use analysis_app.Prelude.Text.{str_eq, codes}
use analysis_app.Prelude.Int.{ℤ, pos, negsuc}
use analysis_app.Prelude.Assoc.{get_or}

abbrev pub class_family : List (String × String)
class_family =
    ("QAM16", "QAM")
    ∷ ("QAM32", "QAM")
    ∷ ("QAM64", "QAM")
    ∷ ("QAM256", "QAM")
    ∷ ("BPSK", "PSK")
    ∷ ("QPSK", "PSK")
    ∷ ("8PSK", "PSK")
    ∷ ("16PSK", "PSK")
    ∷ ("32PSK", "PSK")
    ∷ ("PSK31", "PSK")
    ∷ ("4ASK", "ASK")
    ∷ ("16ASK", "ASK")
    ∷ ("OOK", "ASK")
    ∷ ("FSK", "FSK")
    ∷ ("GFSK", "FSK")
    ∷ ("GMSK", "FSK")
    ∷ ("MSK", "FSK")
    ∷ ("4FSK", "FSK")
    ∷ ("8FSK", "FSK")
    ∷ ("RTTY", "FSK")
    ∷ ("NAVTEX", "FSK")
    ∷ ("DSC", "FSK")
    ∷ ("MDC_1200", "FSK")
    ∷ ("FLEX", "FSK")
    ∷ ("POCSAG", "FSK")
    ∷ ("P25_C4FM", "FSK")
    ∷ ("P25_PHASE2", "FSK")
    ∷ ("DMR", "FSK")
    ∷ ("NXDN", "FSK")
    ∷ ("DSTAR", "FSK")
    ∷ ("TETRA", "FSK")
    ∷ ("ACARS", "PROTOCOL")
    ∷ ("ADS_B", "PROTOCOL")
    ∷ ("AIS", "PROTOCOL")
    ∷ ("VDL2", "PROTOCOL")
    ∷ ("EAS_SAME", "PROTOCOL")
    ∷ ("DTMF", "PROTOCOL")
    ∷ ("AM_DSB", "AM")
    ∷ ("AM_DSB_SC", "AM")
    ∷ ("AM_SSB_LSB", "AM")
    ∷ ("AM_SSB_USB", "AM")
    ∷ ("FM_NB", "FM")
    ∷ ("FM_WB", "FM")
    ∷ ("OFDM", "SPECIAL")
    ∷ ("CSS", "SPECIAL")
    ∷ ("LFM", "SPECIAL")
    ∷ ("TONE", "SPECIAL")
    ∷ []

-- The order of texts, by their code points.
abbrev pub codes_below : List ℕ → List ℕ → Bool
codes_below [] [] = false
codes_below [] (b ∷ bs) = true
codes_below (a ∷ tail) [] = false
codes_below (a ∷ tail) (b ∷ bs) =
    let rest = codes_below tail bs in if ltb a b then true else if a == b then rest else false

abbrev pub text_below : String → String → Bool
text_below s t = codes_below (codes s) (codes t)

-- sorted(set(...)): each value goes in at its place, unless it is there.
abbrev pub insert_new : String → List String → List String
insert_new s [] = s ∷ []
insert_new s (t ∷ ts) =
    let rest = insert_new s ts in
    if str_eq s t then t ∷ ts else if text_below s t then s ∷ (t ∷ ts) else t ∷ rest

abbrev pub sorted_set : List String → List String
sorted_set [] = []
sorted_set (s ∷ ss) = insert_new s (sorted_set ss)

abbrev pub family_names : List String
family_names = sorted_set (map (λ e. e.1) class_family)

-- {f: i for i, f in enumerate(names)}, from i on
abbrev pub enumerated : ℕ → List String → List (String × ℤ)
enumerated i [] = []
enumerated i (f ∷ fs) = (f, pos i) ∷ enumerated (suc i) fs

abbrev pub family_index : List (String × ℤ)
family_index = enumerated 0 family_names

abbrev pub num_families : ℕ
num_families = length family_names

-- FAMILY_INDEX.get(CLASS_FAMILY.get(c, ""), -1)
unfoldable pub family_idx : String → ℤ
family_idx c = get_or (get_or c class_family "") family_index (negsuc 0)

unfoldable pub class_to_family_idx : List String → List ℤ
unfolding family_idx
class_to_family_idx = map family_idx

-- P[ci, fi] = 1.0, on a row of zeros
abbrev pub set_at : {F : Type 0} → F → ℕ → List F → List F
set_at one i [] = []
set_at one zero (x ∷ xs) = one ∷ xs
set_at one (suc i) (x ∷ xs) = x ∷ set_at one i xs

abbrev pub projection_row : {F : Type 0} → F → F → ℤ → List F
projection_row zero_f one (pos i) = set_at one i (replicate num_families zero_f)
projection_row zero_f one (negsuc n) = replicate num_families zero_f

-- A row for each class, of as many entries as there are families.
unfoldable pub family_projection_matrix : {F : Type 0} → F → F → List String → List (List F)
unfolding family_idx
family_projection_matrix zero_f one class_names =
    map (λ c. projection_row zero_f one (family_idx c)) class_names

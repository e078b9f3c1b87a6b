-- ===== src/Harness/Labels.antt =====
-- tools/test_harness/harness.py: the label tables, `canonical` and `family`.
use analysis_app.Prelude.{
  ◌≡◌, refl, ◌⊎◌, inl, inr, String, Bool, true, List, [], ◌∷◌, all, all-In, In, here, there,
  Bool-cases,
}
use analysis_app.Prelude.Text.{str_eq, eq_iff}
use analysis_app.Prelude.Assoc.{get_or}

abbrev pub gt_aliases : List (String × String)
gt_aliases =
    ("AM-DSB", "AM_DSB_LC")
    ∷ ("AM-SSB", "SSB")
    ∷ ("WBFM", "FM_WB")
    ∷ ("CPFSK", "FSK")
    ∷ ("GFSK", "FSK")
    ∷ ("PAM4", "M-ASK/OOK")
    ∷ ("QAM16", "QAM16")
    ∷ ("QAM64", "QAM64")
    ∷ ("8PSK", "8PSK")
    ∷ ("BPSK", "BPSK")
    ∷ ("QPSK", "QPSK")
    ∷ ("OOK", "M-ASK/OOK")
    ∷ ("4ASK", "M-ASK/OOK")
    ∷ ("8ASK", "M-ASK/OOK")
    ∷ ("16PSK", "PSK")
    ∷ ("32PSK", "PSK")
    ∷ ("16APSK", "PSK")
    ∷ ("32APSK", "PSK")
    ∷ ("64APSK", "PSK")
    ∷ ("128APSK", "PSK")
    ∷ ("16QAM", "QAM16")
    ∷ ("32QAM", "QAM32")
    ∷ ("128QAM", "QAM64")
    ∷ ("256QAM", "QAM256")
    ∷ ("AM-SSB-WC", "SSB")
    ∷ ("AM-SSB-SC", "AM_DSB_SC")
    ∷ ("AM-DSB-WC", "AM_DSB_LC")
    ∷ ("AM-DSB-SC", "AM_DSB_SC")
    ∷ ("FM", "FM_WB")
    ∷ ("GMSK", "MSK/GMSK")
    ∷ ("OQPSK", "QPSK")
    ∷ []

abbrev pub modulation_families : List (String × String)
modulation_families =
    ("BPSK", "PSK")
    ∷ ("QPSK", "PSK")
    ∷ ("8PSK", "PSK")
    ∷ ("PSK", "PSK")
    ∷ ("QAM16", "QAM")
    ∷ ("QAM32", "QAM")
    ∷ ("QAM64", "QAM")
    ∷ ("QAM256", "QAM")
    ∷ ("MSK/GMSK", "FSK")
    ∷ ("FSK", "FSK")
    ∷ ("FM_WB", "FM")
    ∷ ("FM_NB", "FM")
    ∷ ("AM_DSB_LC", "AM")
    ∷ ("AM_DSB_SC", "AM")
    ∷ ("SSB", "AM")
    ∷ ("SSB_USB", "AM")
    ∷ ("SSB_LSB", "AM")
    ∷ ("OFDM", "OFDM")
    ∷ ("CSS", "CSS")
    ∷ ("M-ASK/OOK", "ASK")
    ∷ ("FHSS", "FHSS")
    ∷ []

unfoldable pub canonical : String → String
canonical label = get_or label gt_aliases label

unfoldable pub family : String → String
family mod_name = get_or mod_name modulation_families mod_name

-- A lookup gives the default, or the value of an entry.
get_or_cases :
    (k d : String) (t : List (String × String))
    → (get_or k t d ≡ d) ⊎ ((e : String × String) × In e t × (get_or k t d ≡ e.1))
get_or_cases k d [] = inl refl
get_or_cases k d ((j, v) ∷ t) = elim (Bool-cases (str_eq j k)) [
  | inl e ↦ rw e (inr ((j, v), here, refl))
  | inr e ↦ rw e (elim (get_or_cases k d t) [ inl q ↦ inl q | inr (p, m, q) ↦ inr (p, there m, q) ])
]

-- A value that the table maps to itself.
is_fixed : List (String × String) → String × String → Bool
is_fixed t p = str_eq (get_or p.1 t p.1) p.1

get_or_idem :
    (t : List (String × String))
    → all (is_fixed t) t ≡ true
    → (k : String) → get_or (get_or k t k) t (get_or k t k) ≡ get_or k t k
unfolding is_fixed
get_or_idem t h k = elim (get_or_cases k k t) [
  | inl e ↦ rw e e
  | inr (p, m, e) ↦ rw e ((eq_iff _ _).0 (all-In (is_fixed t) t h m))
]

aliases_fixed : all (is_fixed gt_aliases) gt_aliases ≡ true
unfolding is_fixed
aliases_fixed = refl

families_fixed : all (is_fixed modulation_families) modulation_families ≡ true
unfolding is_fixed
families_fixed = refl

-- Taking the canonical name twice, or the family twice, changes nothing, for every label.
pub canonical_idem :
    (label : String)
    → (canonical (canonical label) ≡ canonical label) × (family (family label) ≡ family label)
unfolding canonical family
canonical_idem label = (
  get_or_idem gt_aliases aliases_fixed label,
  get_or_idem modulation_families families_fixed label,
)

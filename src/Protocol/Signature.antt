-- ===== src/Protocol/Signature.antt =====
-- tools/test_harness/classifier.py: the dictionaries of the protocol database. A key that a
-- signature leaves out has the value that the scoring takes for it.
use analysis_app.Prelude.{ℕ, String, Bool, Option, none, List, []}

-- A pair (lo, hi) in MHz, each end a numeral m / 10^e.
pub record Band : Type 0 where
  pub lo_digits : ℕ
  pub lo_places : ℕ
  pub hi_digits : ℕ
  pub hi_places : ℕ

abbrev pub band : ℕ → ℕ → ℕ → ℕ → Band
band a b c d = record { lo_digits = a; lo_places = b; hi_digits = c; hi_places = d }

pub record Signature : Type 0 where
  pub name : String
  pub category : String
  pub freq_bands_mhz : List Band
  pub modulations : List String
  pub bw_min_hz : ℕ
  pub bw_max_hz : ℕ
  pub sr_min_sps : ℕ
  pub sr_max_sps : ℕ
  pub burst : Option Bool
  pub ofdm : Option Bool
  pub fhss : Option Bool
  pub dsss : Option Bool
  pub chirp : Option Bool

abbrev pub signature : String → String → Signature
signature n c = record {
  name = n;
  category = c;
  freq_bands_mhz = [];
  modulations = [];
  bw_min_hz = 0;
  bw_max_hz = 0;
  sr_min_sps = 0;
  sr_max_sps = 0;
  burst = none;
  ofdm = none;
  fhss = none;
  dsss = none;
  chirp = none;
}

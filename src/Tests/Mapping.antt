-- ===== src/Tests/Mapping.antt =====
-- Runs of the protocol mapper.
use analysis_app.Prelude.{
  ◌≡◌, refl, ◌⊎◌, some, true, false, List, [], ◌∷◌, length, All, In, here, there,
}
use analysis_app.Prelude.Int.{ℤ}
use analysis_app.Float.Fixed.{fixed_float, lit_ℤ, fixed-IsOrdered}
use analysis_app.Float.Arithmetic.{Nonneg}
use analysis_app.Float.FixedArithmetic.{fixed-IsArithmetic}
use analysis_app.Classifier.{no_result, ClassificationResult}
use analysis_app.Protocol.Signature.{Signature, band, signature}
use analysis_app.Protocol.Db.{protocol_db}
use analysis_app.Protocol.Score.{score}
use analysis_app.Protocol.Score.Bounds.{score_bounds, full_score}
use analysis_app.Protocol.Mapper.{map, hypothesis, capped}
use analysis_app.Protocol.Mapper.Ranking.{map_complete, score_of}
use analysis_app.Tests.Signals.{ais_burst}

abbrev msk_result : ClassificationResult ℤ
msk_result = record no_result {
  digital_modulation = "MSK/GMSK";
  is_burst = true;
  classified = true;
}

-- The entry of the Automatic Identification System.
abbrev ais : Signature
ais = record (signature "AIS" "Marine") {
  freq_bands_mhz = band 1619 1 1621 1 ∷ [];
  modulations = "MSK/GMSK" ∷ "FSK" ∷ [];
  bw_min_hz = 20000;
  bw_max_hz = 30000;
  sr_min_sps = 8000;
  sr_max_sps = 12000;
  burst = some true;
}

abbrev ais_mhz : ℤ
ais_mhz = lit_ℤ 161975 3

ais_is_listed : In ais protocol_db
ais_is_listed = there (there (there (there (there (there (there (there (there (here)))))))))

score_bounds_example :
    Nonneg (score ais ais_burst msk_result ais_mhz)
    × (fixed_float.le (score ais ais_burst msk_result ais_mhz) full_score ≡ true)
score_bounds_example =
    score_bounds fixed-IsOrdered fixed-IsArithmetic ais ais_burst msk_result ais_mhz ais_is_listed
      refl refl

abbrev small_db : List Signature
small_db = ais ∷ signature "Any" "Test" ∷ []

ais_scores : fixed_float.lt (lit_ℤ 5 2) (score_of small_db ais_burst msk_result ais) ≡ true
unfolding score
ais_scores = refl

map_complete_example :
    In
      (hypothesis ais_burst msk_result (score_of small_db ais_burst msk_result ais, ais))
      (map small_db ais_burst msk_result)
    ⊎ ((length (map small_db ais_burst msk_result) ≡ 3)
        × All
            (λ h.
              fixed_float.lt h.confidence (capped (score_of small_db ais_burst msk_result ais))
              ≡ false)
            (map small_db ais_burst msk_result))
map_complete_example =
    map_complete small_db ais_burst msk_result fixed-IsOrdered ais here ais_scores

-- ===== src/Protocol/Db/Public.antt =====
-- tools/test_harness/classifier.py, `_build_protocol_db`: broadcast, aviation and marine services.
use analysis_app.Prelude.{true, some, List, [], ◌∷◌}
use analysis_app.Protocol.Signature.{Signature, signature, band}

abbrev pub broadcast : List Signature
broadcast =
    (record (signature "AM Broadcast" "Broadcast") {
      freq_bands_mhz = band 52 2 171 2 ∷ [];
      modulations = "AM_DSB_LC" ∷ [];
      bw_min_hz = 9000;
      bw_max_hz = 10000;
    })
    ∷ (record (signature "FM Broadcast" "Broadcast") {
      freq_bands_mhz = band 875 1 108 0 ∷ [];
      modulations = "FM_WB" ∷ [];
      bw_min_hz = 130000;
      bw_max_hz = 300000;
    })
    ∷ (record (signature "HD Radio" "Broadcast") {
      freq_bands_mhz = band 875 1 108 0 ∷ [];
      modulations = "OFDM" ∷ [];
      bw_min_hz = 300000;
      bw_max_hz = 500000;
      ofdm = some true;
    })
    ∷ (record (signature "DAB/DAB+" "Broadcast") {
      freq_bands_mhz = band 174 0 240 0 ∷ band 1452 0 1492 0 ∷ [];
      modulations = "OFDM" ∷ [];
      bw_min_hz = 1400000;
      bw_max_hz = 1600000;
      ofdm = some true;
    })
    ∷ (record (signature "DRM" "Broadcast") {
      freq_bands_mhz = band 3 0 30 0 ∷ [];
      modulations = "OFDM" ∷ [];
      bw_min_hz = 9000;
      bw_max_hz = 18000;
      ofdm = some true;
    })
    ∷ []

abbrev pub aviation : List Signature
aviation =
    (record (signature "VHF Airband AM" "Aviation") {
      freq_bands_mhz = band 118 0 137 0 ∷ [];
      modulations = "AM_DSB_LC" ∷ [];
      bw_min_hz = 6000;
      bw_max_hz = 30000;
    })
    ∷ (record (signature "ADS-B" "Aviation") {
      freq_bands_mhz = band 1089 0 1091 0 ∷ [];
      bw_min_hz = 1500000;
      bw_max_hz = 4000000;
      burst = some true;
    })
    ∷ (record (signature "ACARS" "Aviation") {
      freq_bands_mhz = band 129 0 137 0 ∷ [];
      modulations = "AM_DSB_LC" ∷ [];
      bw_min_hz = 1500;
      bw_max_hz = 3000;
      sr_min_sps = 1200;
      sr_max_sps = 2400;
      burst = some true;
    })
    ∷ (record (signature "VOR/ILS" "Aviation") {
      freq_bands_mhz = band 108 0 118 0 ∷ [];
      modulations = "AM_DSB_LC" ∷ [];
    })
    ∷ []

abbrev pub marine : List Signature
marine =
    (record (signature "AIS" "Marine") {
      freq_bands_mhz = band 1619 1 1621 1 ∷ [];
      modulations = "MSK/GMSK" ∷ "FSK" ∷ [];
      bw_min_hz = 20000;
      bw_max_hz = 30000;
      sr_min_sps = 8000;
      sr_max_sps = 12000;
      burst = some true;
    })
    ∷ (record (signature "Marine VHF FM" "Marine") {
      freq_bands_mhz = band 156 0 174 0 ∷ [];
      modulations = "FM_NB" ∷ [];
      bw_min_hz = 10000;
      bw_max_hz = 25000;
    })
    ∷ (record (signature "DSC" "Marine") {
      freq_bands_mhz = band 1565 1 15655 2 ∷ [];
      modulations = "FSK" ∷ [];
      bw_min_hz = 800;
      bw_max_hz = 1500;
      sr_min_sps = 600;
      sr_max_sps = 2400;
    })
    ∷ []

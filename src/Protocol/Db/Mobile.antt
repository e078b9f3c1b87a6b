-- ===== src/Protocol/Db/Mobile.antt =====
-- tools/test_harness/classifier.py, `_build_protocol_db`: amateur, public safety and cellular services.
use analysis_app.Prelude.{true, some, List, [], ◌∷◌}
use analysis_app.Protocol.Signature.{Signature, signature, band}

abbrev pub amateur : List Signature
amateur =
    (record (signature "APRS" "Amateur") {
      freq_bands_mhz = band 1443 1 1445 1 ∷ band 1447 1 1449 1 ∷ [];
      modulations = "FSK" ∷ "MSK/GMSK" ∷ [];
      bw_min_hz = 10000;
      bw_max_hz = 20000;
      sr_min_sps = 800;
      sr_max_sps = 1600;
      burst = some true;
    })
    ∷ (record (signature "FT8" "Amateur") {
      freq_bands_mhz =
          band 357 2 358 2
          ∷ band 707 2 708 2
          ∷ band 1407 2 1408 2
          ∷ band 2107 2 2108 2
          ∷ band 2807 2 2808 2
          ∷ [];
      modulations = "FSK" ∷ [];
      bw_min_hz = 40;
      bw_max_hz = 80;
      sr_min_sps = 3;
      sr_max_sps = 10;
      burst = some true;
    })
    ∷ (record (signature "WSPR" "Amateur") {
      freq_bands_mhz = band 1409 2 1410 2 ∷ band 1014 2 1015 2 ∷ [];
      modulations = "FSK" ∷ [];
      bw_min_hz = 3;
      bw_max_hz = 10;
    })
    ∷ (record (signature "PSK31" "Amateur") {
      freq_bands_mhz = band 1407 2 1408 2 ∷ [];
      modulations = "BPSK" ∷ [];
      bw_min_hz = 20;
      bw_max_hz = 60;
      sr_min_sps = 20;
      sr_max_sps = 45;
    })
    ∷ (record (signature "RTTY" "Amateur") {
      freq_bands_mhz = band 3 0 30 0 ∷ [];
      modulations = "FSK" ∷ [];
      sr_min_sps = 40;
      sr_max_sps = 150;
    })
    ∷ (record (signature "D-STAR" "Amateur") {
      freq_bands_mhz = band 144 0 148 0 ∷ band 430 0 440 0 ∷ [];
      modulations = "MSK/GMSK" ∷ "FSK" ∷ [];
      bw_min_hz = 5000;
      bw_max_hz = 8000;
      sr_min_sps = 3500;
      sr_max_sps = 5000;
    })
    ∷ []

abbrev pub public_safety : List Signature
public_safety =
    (record (signature "P25 Phase I" "Public Safety") {
      freq_bands_mhz = band 136 0 174 0 ∷ band 380 0 512 0 ∷ band 763 0 870 0 ∷ [];
      modulations = "QPSK" ∷ "FSK" ∷ [];
      bw_min_hz = 10000;
      bw_max_hz = 15000;
      sr_min_sps = 4000;
      sr_max_sps = 5000;
    })
    ∷ (record (signature "TETRA" "Public Safety") {
      freq_bands_mhz = band 380 0 400 0 ∷ band 410 0 430 0 ∷ band 450 0 470 0 ∷ [];
      modulations = "QPSK" ∷ [];
      bw_min_hz = 22000;
      bw_max_hz = 28000;
      sr_min_sps = 17000;
      sr_max_sps = 19000;
      burst = some true;
    })
    ∷ (record (signature "DMR" "Public Safety") {
      freq_bands_mhz = band 136 0 174 0 ∷ band 403 0 527 0 ∷ band 762 0 870 0 ∷ [];
      modulations = "FSK" ∷ "QPSK" ∷ [];
      bw_min_hz = 10000;
      bw_max_hz = 13000;
      sr_min_sps = 4000;
      sr_max_sps = 5500;
      burst = some true;
    })
    ∷ (record (signature "MPT1327" "Public Safety") {
      freq_bands_mhz = band 138 0 174 0 ∷ band 450 0 470 0 ∷ [];
      modulations = "FSK" ∷ [];
      bw_min_hz = 10000;
      bw_max_hz = 25000;
      sr_min_sps = 1000;
      sr_max_sps = 1500;
    })
    ∷ []

abbrev pub cellular : List Signature
cellular =
    (record (signature "GSM" "Cellular") {
      freq_bands_mhz =
          band 850 0 894 0 ∷ band 880 0 960 0 ∷ band 1710 0 1880 0 ∷ band 1850 0 1990 0 ∷ [];
      modulations = "MSK/GMSK" ∷ "FSK" ∷ [];
      bw_min_hz = 180000;
      bw_max_hz = 220000;
      sr_min_sps = 250000;
      sr_max_sps = 290000;
      burst = some true;
    })
    ∷ (record (signature "UMTS/WCDMA" "Cellular") {
      freq_bands_mhz = band 850 0 900 0 ∷ band 1700 0 2200 0 ∷ [];
      modulations = "QPSK" ∷ [];
      bw_min_hz = 4000000;
      bw_max_hz = 6000000;
      dsss = some true;
    })
    ∷ (record (signature "LTE" "Cellular") {
      freq_bands_mhz = band 700 0 900 0 ∷ band 1700 0 2200 0 ∷ band 2500 0 2700 0 ∷ [];
      modulations = "OFDM" ∷ [];
      bw_min_hz = 1400000;
      bw_max_hz = 20000000;
      ofdm = some true;
    })
    ∷ (record (signature "5G NR" "Cellular") {
      freq_bands_mhz =
          band 600 0 900 0 ∷ band 2400 0 2700 0 ∷ band 3300 0 3800 0 ∷ band 24000 0 29500 0 ∷ [];
      modulations = "OFDM" ∷ [];
      ofdm = some true;
    })
    ∷ []

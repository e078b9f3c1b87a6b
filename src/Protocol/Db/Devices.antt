-- ===== src/Protocol/Db/Devices.antt =====
-- tools/test_harness/classifier.py, `_build_protocol_db`: consumer devices, satellites and radars.
use analysis_app.Prelude.{true, some, List, [], ◌∷◌}
use analysis_app.Protocol.Signature.{Signature, signature, band}

abbrev pub ism_iot : List Signature
ism_iot =
    (record (signature "Wi-Fi 2.4 GHz" "ISM/IoT") {
      freq_bands_mhz = band 2400 0 2484 0 ∷ [];
      modulations = "OFDM" ∷ [];
      bw_min_hz = 18000000;
      bw_max_hz = 22000000;
      burst = some true;
      ofdm = some true;
    })
    ∷ (record (signature "Wi-Fi 5 GHz" "ISM/IoT") {
      freq_bands_mhz = band 5150 0 5850 0 ∷ [];
      modulations = "OFDM" ∷ [];
      bw_min_hz = 18000000;
      bw_max_hz = 82000000;
      burst = some true;
      ofdm = some true;
    })
    ∷ (record (signature "Bluetooth Classic" "ISM/IoT") {
      freq_bands_mhz = band 2400 0 2484 0 ∷ [];
      modulations = "FSK" ∷ "QPSK" ∷ [];
      bw_min_hz = 700000;
      bw_max_hz = 1200000;
      fhss = some true;
    })
    ∷ (record (signature "Bluetooth LE" "ISM/IoT") {
      freq_bands_mhz = band 2400 0 2484 0 ∷ [];
      modulations = "FSK" ∷ "MSK/GMSK" ∷ [];
      bw_min_hz = 1500000;
      bw_max_hz = 2500000;
      burst = some true;
    })
    ∷ (record (signature "Zigbee (802.15.4)" "ISM/IoT") {
      freq_bands_mhz = band 2400 0 2484 0 ∷ band 868 0 869 0 ∷ band 902 0 928 0 ∷ [];
      bw_min_hz = 1500000;
      bw_max_hz = 2500000;
      sr_min_sps = 200000;
      sr_max_sps = 300000;
      burst = some true;
    })
    ∷ (record (signature "LoRa" "ISM/IoT") {
      freq_bands_mhz = band 433 0 435 0 ∷ band 868 0 870 0 ∷ band 915 0 916 0 ∷ [];
      modulations = "CSS" ∷ [];
      bw_min_hz = 100000;
      bw_max_hz = 550000;
      burst = some true;
    })
    ∷ (record (signature "Z-Wave" "ISM/IoT") {
      freq_bands_mhz = band 8683 1 8685 1 ∷ band 9084 1 9085 1 ∷ [];
      modulations = "FSK" ∷ [];
      bw_min_hz = 150000;
      bw_max_hz = 250000;
      sr_min_sps = 10000;
      sr_max_sps = 100000;
    })
    ∷ (record (signature "TPMS" "ISM/IoT") {
      freq_bands_mhz = band 315 0 316 0 ∷ band 4338 1 434 0 ∷ [];
      modulations = "FSK" ∷ "M-ASK/OOK" ∷ [];
      bw_min_hz = 10000;
      bw_max_hz = 80000;
      sr_min_sps = 15000;
      sr_max_sps = 40000;
      burst = some true;
    })
    ∷ (record (signature "Key Fob / Remote" "ISM/IoT") {
      freq_bands_mhz =
          band 315 0 316 0 ∷ band 4338 1 434 0 ∷ band 868 0 870 0 ∷ band 915 0 916 0 ∷ [];
      modulations = "M-ASK/OOK" ∷ "FSK" ∷ [];
      bw_min_hz = 5000;
      bw_max_hz = 50000;
      burst = some true;
    })
    ∷ (record (signature "ANT+" "ISM/IoT") {
      freq_bands_mhz = band 2450 0 2460 0 ∷ [];
      modulations = "FSK" ∷ [];
      bw_min_hz = 500000;
      bw_max_hz = 1500000;
    })
    ∷ []

abbrev pub satellite : List Signature
satellite =
    (record (signature "GPS L1 C/A" "Satellite") {
      freq_bands_mhz = band 15753 1 15755 1 ∷ [];
      modulations = "BPSK" ∷ [];
      bw_min_hz = 1000000;
      bw_max_hz = 3000000;
    })
    ∷ (record (signature "NOAA APT" "Satellite") {
      freq_bands_mhz = band 137 0 138 0 ∷ [];
      modulations = "FM_NB" ∷ "FM_WB" ∷ [];
      bw_min_hz = 30000;
      bw_max_hz = 38000;
      sr_min_sps = 2000;
      sr_max_sps = 2800;
    })
    ∷ (record (signature "Meteor LRPT" "Satellite") {
      freq_bands_mhz = band 137 0 1375 1 ∷ [];
      modulations = "QPSK" ∷ [];
      bw_min_hz = 100000;
      bw_max_hz = 150000;
      sr_min_sps = 70000;
      sr_max_sps = 90000;
    })
    ∷ (record (signature "Iridium" "Satellite") {
      freq_bands_mhz = band 1616 0 16265 1 ∷ [];
      modulations = "QPSK" ∷ [];
      bw_min_hz = 25000;
      bw_max_hz = 40000;
      burst = some true;
    })
    ∷ (record (signature "Inmarsat AERO" "Satellite") {
      freq_bands_mhz = band 1525 0 1559 0 ∷ [];
      modulations = "BPSK" ∷ "QPSK" ∷ [];
      bw_min_hz = 8000;
      bw_max_hz = 12000;
    })
    ∷ []

abbrev pub radar : List Signature
radar =
    (record (signature "FMCW Radar" "Radar") { modulations = "CSS" ∷ []; chirp = some true })
    ∷ (record (signature "Pulse Radar" "Radar") {
      bw_min_hz = 500000;
      bw_max_hz = 50000000;
      burst = some true;
    })
    ∷ (record (signature "Weather Radar (WSR-88D)" "Radar") {
      freq_bands_mhz = band 2700 0 2900 0 ∷ [];
      burst = some true;
    })
    ∷ []

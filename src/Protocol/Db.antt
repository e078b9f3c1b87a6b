-- ===== src/Protocol/Db.antt =====
-- tools/test_harness/classifier.py: `_build_protocol_db`, and what makes its entries usable.
mod Public
mod Mobile
mod Devices
use analysis_app.Prelude.{
  arith, ◌≤◌, ℕ, ◌*◌, ◌^◌, ◌≡◌, refl, String, Bool, true, not, ◌&&◌, List, [], ◌∷◌, ◌++◌, leb, all,
  all-In, In, if◌then◌else◌,
}
use analysis_app.Prelude.Text.{is_named, member}
use analysis_app.Protocol.Signature.{Signature, Band}
use Public.{broadcast, aviation, marine}
use Mobile.{amateur, public_safety, cellular}
use Devices.{ism_iot, satellite, radar}

abbrev pub protocol_db : List Signature
protocol_db =
    broadcast
    ++ (aviation
        ++ (marine
            ++ (amateur ++ (public_safety ++ (cellular ++ (ism_iot ++ (satellite ++ radar)))))))

-- Each band runs upwards, each range too, and no range exceeds a gigahertz.
abbrev pub band_runs_up : Band → Bool
band_runs_up b = leb (b.lo_digits * 10 ^ b.hi_places) (b.hi_digits * 10 ^ b.lo_places)

abbrev pub range_runs_up : ℕ → ℕ → Bool
range_runs_up mn mx = leb mn mx && leb mx (10 ^ 9)

unfoldable pub well_formed : Signature → Bool
well_formed sig =
    is_named sig.name
    && is_named sig.category
    && all band_runs_up sig.freq_bands_mhz
    && range_runs_up sig.bw_min_hz sig.bw_max_hz
    && range_runs_up sig.sr_min_sps sig.sr_max_sps

all-well_formed : all well_formed protocol_db ≡ true
unfolding well_formed
all-well_formed = refl

-- Every entry of the protocol database has a name and a category, bands and ranges whose lower end
-- does not exceed the upper one, and ranges that end at 10^9 at most.
pub protocol_db-well_formed : (sig : Signature) → In sig protocol_db → well_formed sig ≡ true
protocol_db-well_formed sig m = all-In well_formed protocol_db all-well_formed m

-- The ranges of a well-formed signature, as orders between numbers.
pub well_formed_ranges :
    (sig : Signature)
    → well_formed sig ≡ true
    → (sig.bw_min_hz ≤ sig.bw_max_hz)
      × (sig.bw_max_hz ≤ 10 ^ 9)
      × (sig.sr_min_sps ≤ sig.sr_max_sps)
      × (sig.sr_max_sps ≤ 10 ^ 9)
unfolding well_formed
well_formed_ranges sig h = ground arith

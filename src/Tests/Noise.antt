-- ===== src/Tests/Noise.antt =====
-- A run of the capture of noise.
use analysis_app.Prelude.{◌≤◌, ◌*◌, ◌/◌, ℕ, Option, some, List, [], All, length, max, replicate}
use analysis_app.Prelude.Int.{ℤ}
use analysis_app.Float.Fixed.{fixed_float, lit_ℤ}
use analysis_app.Numpy.{Complex}
use analysis_app.Numpy.Fixed.{fixed_numpy}
use analysis_app.Datasets.Raw.{iq_value}
use analysis_app.Capture.Noise.{noise_targets, capture_noise}
use analysis_app.Capture.Noise.Quiet.{IsNoise, capture_noise_lem}

-- The same samples at every frequency.
abbrev same_everywhere : ℕ × ℕ → Option (List (Complex ℤ))
same_everywhere t = some (replicate 1300 (iq_value (lit_ℤ 1 0) (lit_ℤ 2 0)))

abbrev noise_found : List (List (Complex ℤ))
noise_found = capture_noise (λ f starts. starts) same_everywhere 20000 noise_targets []

capture_noise_lem_example :
    All IsNoise noise_found
    × (length noise_found ≤ 20000)
    × (length noise_found ≤ 11 * max 200 (20000 / 11))
capture_noise_lem_example =
    capture_noise_lem (λ f starts. starts) same_everywhere 20000 (λ f starts x m. m)

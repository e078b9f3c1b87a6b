-- ===== src/Tests/Capturing.antt =====
-- Runs of the capture script.
use analysis_app.Prelude.{
  ℕ, ◌≡◌, refl, ◌≤◌, max, String, Option, none, some, List, [], ◌∷◌, length, replicate, All,
}
use analysis_app.Prelude.Int.{ℤ, pos}
use analysis_app.Prelude.Results.{ok}
use analysis_app.Float.Fixed.{fixed_float, lit_ℤ}
use analysis_app.Numpy.{Complex}
use analysis_app.Numpy.Fixed.{fixed_numpy, fixed-IsShaped}
use analysis_app.Datasets.Raw.{iq_value}
use analysis_app.Capture.Targets.{Target, target}
use analysis_app.Capture.Session.{
  Message, Event, enter, arrive, fill, leave, new_session, run_events, step, look_up, fill_box,
  first_in, answer, request_id,
}
use analysis_app.Capture.Session.Answered.{answer-own, answer-first}
use analysis_app.Capture.Windows.{extract_windows}
use analysis_app.Capture.Windows.Kept.{IsWindow, extract_windows_lem}
use analysis_app.Capture.Loop.{Collected, capture_all, nothing_collected}
use analysis_app.Capture.Loop.Samples.{AreSamples}
use analysis_app.Capture.Loop.Labelled.{labels_of_captures, capture_all_refines}

abbrev accepted : Message
accepted = ("request_id", "a1") ∷ ("status", "ACCEPTED") ∷ []

abbrev for_another : Message
for_another = ("request_id", "b2") ∷ ("status", "ACCEPTED") ∷ []

abbrev one_request : List Event
one_request =
    enter "a1"
    ∷ arrive (some for_another)
    ∷ arrive none
    ∷ arrive (some accepted)
    ∷ fill
    ∷ leave "a1"
    ∷ []

answer-own_example : request_id accepted ≡ "a1"
unfolding run_events step answer look_up fill_box first_in
answer-own_example = answer-own one_request "a1" accepted refl

answer-first_example :
    answer (request_id accepted) (
      run_events
        (arrive (some accepted) ∷ fill ∷ leave "a1" ∷ [])
        (record new_session { pending = "a1" ∷ [] }))
    ≡ some accepted
unfolding answer
answer-first_example =
    answer-first (leave "a1" ∷ []) (record new_session { pending = "a1" ∷ [] }) accepted refl refl
      refl

-- A capture of 1300 equal samples.
abbrev steady : List (Complex ℤ)
steady = replicate 1300 (iq_value (lit_ℤ 1 0) (lit_ℤ 2 0))

abbrev as_they_are : List ℕ → List ℕ
as_they_are xs = xs

extract_windows_lem_example :
    (out : List (List (Complex ℤ))) × (extract_windows as_they_are steady
        (lit_ℤ 1000000 0)
        (pos 0)
        2
      ≡ ok out)
    × All (IsWindow steady (lit_ℤ 1000000 0) (pos 0)) out
    × (length out ≤ max 1 2)
extract_windows_lem_example =
    extract_windows_lem steady (lit_ℤ 1000000 0) (pos 0) fixed-IsShaped as_they_are 2 (λ xs x m. m)

abbrev some_captures : List (Target × Option (List (Complex ℤ)))
some_captures =
    (target "FM_WB" 89100000 2000000 2000000 20 6000, some steady)
    ∷ (target "AIS" 161975000 250000 250000 30 3000, none)
    ∷ (target "_NOISE" 500000000 2000000 2000000 10 0, some steady)
    ∷ []

capture_all_refines_example :
    (out : Collected ℤ) × (capture_all as_they_are (pos 0) 8000 [] some_captures nothing_collected
      ≡ ok out)
    × (texts : List String) × (labels_of_captures as_they_are (pos 0) 8000 [] some_captures
        ≡ ok texts)
    × AreSamples out texts
capture_all_refines_example =
    capture_all_refines as_they_are (pos 0) 8000 [] fixed-IsShaped (λ xs x m. m) some_captures

-- ===== src/Capture/Session.antt =====
-- tools/ml/capture_real.py: the requests of `Session.rpc` and the answers that `_H.on_message` gets on
-- the thread of the AMQP container, as the order in which the steps of the two threads happen.
pub mod Answered
use analysis_app.Prelude.{
  ℕ, String, Bool, true, false, not, Option, none, some, List, [], ◌∷◌, ◌++◌, if◌then◌else◌,
}
use analysis_app.Prelude.Text.{str_eq, member}
use analysis_app.Prelude.Assoc.{get_or}
use analysis_app.Features.Arrays.{filter}

-- A JSON object, of which the texts matter here.
abbrev pub Message : Type 0
Message = List (String × String)

-- msg.get("request_id", "")
abbrev pub request_id : Message → String
request_id msg = get_or "request_id" msg ""

-- The keys of `_pending`, the entry that on_message has looked up and not yet filled, and what has been
-- put into the boxes, in this order. A request id is a uuid4, so each call has a box of its own.
pub record Session : Type 0 where
  pub pending : List String
  pub held : List (String × Message)
  pub boxes : List (String × Message)

abbrev pub new_session : Session
new_session = record { pending = []; held = []; boxes = [] }

-- What the threads do: rpc enters its request; on_message looks the entry of a message up, which may be
-- no JSON, and then fills its box; rpc has waited long enough, or its event is set, and removes its entry.
pub data Event : Type 0 where
  enter : String → Event
  arrive : Option Message → Event
  fill : Event
  leave : String → Event

-- e = self._s._pending.get(rid), under the lock
unfoldable pub look_up : Option Message → Session → Session
look_up none s = s
look_up (some msg) s =
    if member (request_id msg) s.pending
    then record s { held = s.held ++ (request_id msg, msg) ∷ [] }
    else s

-- e[1].append(msg), which the lock does not guard
unfoldable pub fill_box : List (String × Message) → Session → Session
fill_box [] s = s
fill_box (e ∷ rest) s = record s { held = rest; boxes = s.boxes ++ e ∷ [] }

unfoldable pub step : Event → Session → Session
unfolding look_up fill_box
step (enter rid) s = record s { pending = rid ∷ s.pending }
step (arrive msg) s = look_up msg s
step fill s = fill_box s.held s
step (leave rid) s = record s { pending = filter (λ r. not (str_eq r rid)) s.pending }

unfoldable pub run_events : List Event → Session → Session
unfolding step
run_events [] s = s
run_events (e ∷ es) s = run_events es (step e s)

-- box[0] if box else None
unfoldable pub first_in : String → List (String × Message) → Option Message
first_in rid [] = none
first_in rid ((r, msg) ∷ rest) =
    let later = first_in rid rest in if str_eq r rid then some msg else later

-- what rpc returns after its entry is removed
unfoldable pub answer : String → Session → Option Message
unfolding first_in
answer rid s = first_in rid s.boxes

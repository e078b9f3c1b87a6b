-- ===== src/Capture/Session/Answered.antt =====
-- An answer that rpc returns is the first one to its own request.
use analysis_app.Prelude.{
  ◌≡◌, refl, ◌∙◌, inl, inr, String, true, none, some, List, [], ◌∷◌, ◌++◌, All, All-append,
  Bool-cases, if-each,
}
use analysis_app.Prelude.Text.{str_eq, eq_iff, member, eq_refl}
use analysis_app.Capture.Session.{
  Message, request_id, Session, new_session, Event, enter, arrive, fill, leave, look_up, fill_box,
  step, run_events, first_in, answer,
}

-- Each entry is for the request that its message names.
abbrev pub IsOwn : List (String × Message) → Type 0
IsOwn entries = All (λ e. request_id e.1 ≡ e.0) entries

abbrev pub IsSound : Session → Type 0
IsSound s = IsOwn s.held × IsOwn s.boxes

step-IsSound : (e : Event) (s : Session) → IsSound s → IsSound (step e s)
unfolding step look_up fill_box
step-IsSound (enter rid) s h = h
step-IsSound (leave rid) s h = h
step-IsSound (arrive none) s h = h
step-IsSound (arrive (some msg)) s (h, k) =
    if-each IsSound (member (request_id msg) s.pending)
      (λ e. (
        All-append (λ e. request_id e.1 ≡ e.0) s.held ((request_id msg, msg) ∷ []) h (refl, tt),
        k,
      ))
      (λ e. (h, k))
step-IsSound fill s (h, k) = filled s.held h
  where
    filled : (held : List (String × Message)) → IsOwn held → IsSound (fill_box held s)
    filled [] own = (h, k)
    filled (e ∷ rest) (own, owns) =
        (owns, All-append (λ e. request_id e.1 ≡ e.0) s.boxes (e ∷ []) k (own, tt))

run_events-IsSound : (es : List Event) (s : Session) → IsSound s → IsSound (run_events es s)
unfolding run_events
run_events-IsSound [] s h = h
run_events-IsSound (e ∷ es) s h = run_events-IsSound es (step e s) (step-IsSound e s h)

first_in-own :
    (rid : String) (entries : List (String × Message)) (msg : Message)
    → IsOwn entries
    → first_in rid entries ≡ some msg
    → request_id msg ≡ rid
unfolding first_in
first_in-own rid [] msg h e = cc
first_in-own rid ((r, m) ∷ rest) msg (h, hs) e = elim (Bool-cases (str_eq r rid)) [
  | inl t ↦
      let same : some m ≡ some msg = rw t at e in
      let this : m ≡ msg = cc in rw (← this) (h ∙ (eq_iff r rid).0 t)
  | inr t ↦ first_in-own rid rest msg hs (rw t at e)
]

-- However the steps of the threads interleave, what rpc returns is an answer that names its request.
pub answer-own :
    (es : List Event) (rid : String) (msg : Message)
    → answer rid (run_events es new_session) ≡ some msg
    → request_id msg ≡ rid
unfolding answer
answer-own es rid msg h =
    first_in-own rid (run_events es new_session).boxes msg
      (run_events-IsSound es new_session (tt, tt)).1 h

-- What is in a box stays there, at its place.
first_in-append :
    (rid : String) (xs ys : List (String × Message)) (msg : Message)
    → first_in rid xs ≡ some msg
    → first_in rid (xs ++ ys) ≡ some msg
unfolding first_in
first_in-append rid [] ys msg h = cc
first_in-append rid ((r, m) ∷ xs) ys msg h = elim (Bool-cases (str_eq r rid)) [
  | inl t ↦ rw t (rw t at h)
  | inr t ↦ rw t (first_in-append rid xs ys msg (rw t at h))
]

step-answer :
    (e : Event) (rid : String) (s : Session) (msg : Message)
    → answer rid s ≡ some msg
    → answer rid (step e s) ≡ some msg
unfolding step look_up fill_box answer
step-answer (enter r) rid s msg h = h
step-answer (leave r) rid s msg h = h
step-answer (arrive none) rid s msg h = h
step-answer (arrive (some m)) rid s msg h =
    if-each (λ (t : Session). first_in rid t.boxes ≡ some msg) (member (request_id m) s.pending)
      (λ e. h) (λ e. h)
step-answer fill rid s msg h = filled s.held
  where
    filled : (held : List (String × Message)) → answer rid (fill_box held s) ≡ some msg
    filled [] = h
    filled (e ∷ rest) = first_in-append rid s.boxes (e ∷ []) msg h

run_events-answer :
    (es : List Event) (rid : String) (s : Session) (msg : Message)
    → answer rid s ≡ some msg
    → answer rid (run_events es s) ≡ some msg
unfolding run_events
run_events-answer [] rid s msg h = h
run_events-answer (e ∷ es) rid s msg h =
    run_events-answer es rid (step e s) msg (step-answer e rid s msg h)

first_in-last :
    (rid : String) (xs : List (String × Message)) (msg : Message)
    → first_in rid xs ≡ none
    → first_in rid (xs ++ (rid, msg) ∷ []) ≡ some msg
unfolding first_in
first_in-last rid [] msg h = rw (eq_refl rid) refl
first_in-last rid ((r, m) ∷ xs) msg h = elim (Bool-cases (str_eq r rid)) [
  | inl t ↦ let wrong : some m ≡ none = rw t at h in cc
  | inr t ↦ rw t (first_in-last rid xs msg (rw t at h))
]

-- From a session in which a request is entered and not answered, and no other message is being
-- delivered: when the answer arrives and is put into its box, rpc returns it, whatever the threads do
-- after that.
pub answer-first :
    (es : List Event) (s : Session) (msg : Message)
    → member (request_id msg) s.pending ≡ true
    → s.held ≡ []
    → answer (request_id msg) s ≡ none
    → answer (request_id msg) (run_events (arrive (some msg) ∷ fill ∷ es) s) ≡ some msg
unfolding run_events step look_up fill_box answer
answer-first es s msg entered idle open_yet =
    run_events-answer es (request_id msg) (step fill (step (arrive (some msg)) s)) msg
      (rw (entered, idle) (first_in-last (request_id msg) s.boxes msg open_yet))

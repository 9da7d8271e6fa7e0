-- ===== src/Interview/Events.antt =====
-- The transcript: `record_event` of `ProductInterviewService`, and the counts over it that the
-- ending of an interview asks for.
use qatth.Base.{
  ℕ, suc, ◌+◌, Bool, true, false, ◌&&◌, Option, none, some, List, [], ◌∷◌, ◌==◌, if◌then◌else◌,
  some_and, is_some, or_some, find, any, leb,
}
use qatth.Schema.Common.{Uuid, Text, Code}
use qatth.Schema.Interview.{Speaker, ProductInterviewEvent}
use qatth.Db.{Db, ok, err, M, app_error}
use qatth.Interview.Access.{interview_of}

-- The greatest sequence number of the interview's events, and 0 where there is none.
unfoldable pub max_sequence : Uuid → List ProductInterviewEvent → ℕ
max_sequence k [] = 0
max_sequence k (e ∷ es) =
    if e.interview_id == k && leb (max_sequence k es) e.sequence
    then e.sequence
    else max_sequence k es

pub record EventArgs : Type 0 where
  pub event_type : Text
  pub speaker : Option Speaker
  pub text : Option Text
  pub client_event_id : Option Text
  pub provider_event_id : Option Text

abbrev pub has_client_id : Uuid → Text → ProductInterviewEvent → Bool
has_client_id k c e = e.interview_id == k && some_and e.client_event_id (λ d. d == c)

abbrev pub has_provider_id : Uuid → Text → ProductInterviewEvent → Bool
has_provider_id k c e = e.interview_id == k && some_and e.provider_event_id (λ d. d == c)

-- An event that the client, or the provider, has sent before.
unfoldable pub known_event :
    Uuid → EventArgs → List ProductInterviewEvent → Option ProductInterviewEvent
known_event k a es =
    let by_client : Option ProductInterviewEvent = elim (a.client_event_id) [
      | none ↦ none
      | some c ↦ find (has_client_id k c) es
    ] in
    let by_provider : Option ProductInterviewEvent = elim (a.provider_event_id) [
      | none ↦ none
      | some c ↦ find (has_provider_id k c) es
    ] in
    or_some by_client by_provider

abbrev pub new_interview_event : Uuid → EventArgs → Db → ProductInterviewEvent
new_interview_event k a db = record {
  id = db.next_id;
  interview_id = k;
  sequence = max_sequence k db.events + 1;
  event_type = a.event_type;
  speaker = a.speaker;
  text = a.text;
  client_event_id = a.client_event_id;
  provider_event_id = a.provider_event_id;
}

-- `record_event`: the event, and whether it was recorded before.
unfoldable pub record_event : Uuid → EventArgs → M (ProductInterviewEvent × Bool)
record_event k a db = elim (interview_of k db) [
  | none ↦ err (app_error 404 Code.interview_not_found)
  | some x ↦ elim (known_event k a db.events) [
    | some e ↦ ok ((e, true), db)
    | none ↦ ok (
      (new_interview_event k a db, false),
      record db { next_id = suc db.next_id; events = new_interview_event k a db ∷ db.events },
    )
  ]
]

abbrev pub is_candidate : Option Speaker → Bool
is_candidate (some Speaker.candidate) = true
is_candidate _ = false

-- The candidate has said something (`candidate_events` is not 0).
unfoldable pub has_transcript : Uuid → List ProductInterviewEvent → Bool
has_transcript k es = any (λ e. e.interview_id == k && is_candidate e.speaker && is_some e.text) es

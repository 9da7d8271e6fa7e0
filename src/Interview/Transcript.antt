-- ===== src/Interview/Transcript.antt =====
-- The transcript of backend/app/services/product_interview.py: `record_event` numbers the events
-- of an interview in order and records one that is sent again once.
use qatth.Base.{ℕ, suc, ◌+◌, ◌≤◌, ◌≡◌, Bool, List, [], ◌∷◌, arith, Option-cases, inl, inr}
use qatth.Schema.Common.{Uuid}
use qatth.Schema.Interview.{ProductInterviewEvent}
use qatth.Db.{Db, ok}
use qatth.Interview.Access.{interview_of}
use qatth.Interview.Events.{max_sequence, EventArgs, known_event, new_interview_event, record_event}

-- Every event of the interview has a number below the given one.
unfoldable pub AllBelow : Uuid → ℕ → List ProductInterviewEvent → Type 0
AllBelow k n [] = Unit
AllBelow k n (e ∷ es) = (e.interview_id ≡ k → suc e.sequence ≤ n) × AllBelow k n es

-- The events of the interview, the latest first, have strictly falling numbers.
unfoldable pub InOrder : Uuid → List ProductInterviewEvent → Type 0
InOrder k [] = Unit
InOrder k (e ∷ es) = (e.interview_id ≡ k → AllBelow k e.sequence es) × InOrder k es

max_sequence-grows :
    (k : Uuid) (n : ℕ) (es : List ProductInterviewEvent)
    → suc (max_sequence k es) ≤ n
    → AllBelow k n es
unfolding max_sequence AllBelow
max_sequence-grows k n [] h = tt
max_sequence-grows k n (e ∷ es) h = (λ own. ground arith, max_sequence-grows k n es (ground arith))

-- The tables after an event that is new.
abbrev recorded_db : Uuid → EventArgs → Db → Db
recorded_db k a db = record db {
  next_id = suc db.next_id;
  events = new_interview_event k a db ∷ db.events;
}

numbered :
    (j k : Uuid) (a : EventArgs) (db : Db)
    → k ≡ j
    → AllBelow j (new_interview_event k a db).sequence db.events
numbered j k a db own =
    rw own (max_sequence-grows j (max_sequence j db.events + 1) db.events (omega arith))

-- `record_event` keeps the events of every interview in strictly rising order of their numbers,
-- whether the event is new or sent again.
pub record_event-InOrder :
    (j k : Uuid) (a : EventArgs) (db : Db) {r : ProductInterviewEvent × Bool} {db' : Db}
    → InOrder j db.events
    → record_event k a db ≡ ok (r, db')
    → InOrder j db'.events
unfolding record_event InOrder
record_event-InOrder j k a db {r} {db'} h e = elim (Option-cases (interview_of k db)) [
  | inl none_found ↦ ground arith
  | inr (x, found) ↦ elim (Option-cases (known_event k a db.events)) [
    | inr (y, known) ↦ let same : db' ≡ db = ground arith in rw same h
    | inl new ↦ let same : db' ≡ recorded_db k a db = ground arith in rw same (numbered j k a db, h)
  ]
]

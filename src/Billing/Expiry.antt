-- ===== src/Billing/Expiry.antt =====
-- Reservations that run out of time: `reconcile_expired_reservations` and
-- `_reservation_reconciliation_action` of `ProductBillingService`.
use qatth.Base.{
  ℕ, ◌+◌, Bool, ◌&&◌, Option, none, some, List, [], ◌∷◌, map, ◌==◌, if◌then◌else◌, is_some, or_some,
  find, modify, select, sort_by, take, length, leb,
}
use qatth.Schema.Common.{Uuid, Time, Code}
use qatth.Schema.Billing.{ReferenceType, CreditReservation}
use qatth.Schema.Cv.{AnalysisStatus, CvAnalysis}
use qatth.Schema.Interview.{InterviewStatus, EndedReason, ProductInterview}
use qatth.Db.{Db, ok, M, pure, ◌>>◌, is_reserved}
use qatth.Billing.Credits.{reservation_of, write_reservation, capture, release}

pub data Action : Type 0 where
  capture_it release_it defer_it : Action

abbrev pub set_timeout : Time → CvAnalysis → CvAnalysis
set_timeout now x = record x {
  status = AnalysisStatus.failed;
  error = some Code.cv_analysis_timeout;
  completed_at = some now;
  updated_at = now;
}

-- An analysis that is still running is failed, and its credits go back.
unfoldable pub analysis_action : Uuid → Time → Db → Action × Db
analysis_action k now db = elim (find (λ x. x.id == k) db.analyses) [
  | none ↦ (Action.release_it, db)
  | some x ↦ elim (x.status) [
    | AnalysisStatus.failed ↦ (Action.release_it, db)
    | AnalysisStatus.completed ↦ (Action.capture_it, db)
    | _ ↦ (
      Action.release_it,
      record db { analyses = modify (λ y. y.id == k) (set_timeout now) db.analyses },
    )
  ]
]

abbrev pub set_timed_out : Time → ProductInterview → ProductInterview
set_timed_out now x = record x {
  status = InterviewStatus.timed_out;
  ended_at = or_some x.ended_at (some now);
  ended_reason = or_some x.ended_reason (some EndedReason.reservation_timeout);
}

-- The action by an interview's status, if it is not billable: one that was connected times out.
abbrev pub status_action : InterviewStatus → ProductInterview → Time → Db → Action × Db
status_action InterviewStatus.created x now db = (Action.defer_it, db)
status_action InterviewStatus.live x now db = (
  Action.release_it,
  record db { interviews = modify (λ y. y.id == x.id) (set_timed_out now) db.interviews },
)
status_action InterviewStatus.interrupted x now db = (
  Action.release_it,
  record db { interviews = modify (λ y. y.id == x.id) (set_timed_out now) db.interviews },
)
status_action InterviewStatus.ending x now db = (
  Action.release_it,
  record db { interviews = modify (λ y. y.id == x.id) (set_timed_out now) db.interviews },
)
status_action _ x now db = (Action.release_it, db)

unfoldable pub interview_action : Option ProductInterview → Time → Db → Action × Db
interview_action none now db = (Action.release_it, db)
interview_action (some x) now db =
    if is_some x.billable_started_at
    then (Action.capture_it, db)
    else status_action x.status x now db

abbrev pub token_interview : Uuid → Db → Option ProductInterview
token_interview k db = elim (find (λ t. t.id == k) db.tokens) [
  | none ↦ none
  | some t ↦ find (λ x. x.id == t.interview_id) db.interviews
]

-- `_reservation_reconciliation_action`, by what the reservation is for.
unfoldable pub reconciliation_action : ReferenceType → Uuid → Time → Db → Action × Db
reconciliation_action ReferenceType.cv_analysis k now db = analysis_action k now db
reconciliation_action ReferenceType.interview k now db =
    interview_action (find (λ x. x.id == k) db.interviews) now db
reconciliation_action ReferenceType.interview_token k now db =
    interview_action (token_interview k db) now db
reconciliation_action _ k now db = (Action.defer_it, db)

abbrev pub postpone : Time → CreditReservation → CreditReservation
postpone until r = record r { expires_at = until }

unfoldable pub act : Action → Uuid → Time → M (Unit {0})
act Action.capture_it k now db = capture (some k) now db
act Action.release_it k now db = ok (tt, release (some k) now db)
act Action.defer_it k now db = ok (tt, write_reservation k (postpone (now + 900)) db)

-- One round of the loop.
unfoldable pub reconcile_reservation : Uuid → Time → M (Unit {0})
reconcile_reservation k now db = elim (reservation_of k db) [
  | none ↦ ok (tt, db)
  | some r ↦
      let (a, db') = reconciliation_action r.reference_type r.reference_id now db in act a k now db'
]

unfoldable pub reconcile_each : List Uuid → Time → M (Unit {0})
reconcile_each [] now = pure tt
reconcile_each (k ∷ ks) now = do reconcile_reservation k now; reconcile_each ks now

abbrev pub is_overdue : Time → CreditReservation → Bool
is_overdue now r = is_reserved r.status && leb r.expires_at now

abbrev pub overdue : ℕ → Time → Db → List Uuid
overdue limit now db =
    map (λ r. r.id)
      (take limit
        (sort_by (λ x y. leb x.expires_at y.expires_at) (select (is_overdue now) db.reservations)))

-- `reconcile_expired_reservations`: how many were handled.
unfoldable pub reconcile_expired_reservations : ℕ → Time → M ℕ
reconcile_expired_reservations limit now db =
    (reconcile_each (overdue limit now db) now >> pure (length (overdue limit now db))) db

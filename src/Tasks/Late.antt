-- ===== src/Tasks/Late.antt =====
-- Tasks of backend/app/workers/tasks.py that come late: another worker has taken the analysis over,
-- or its reservation has run out in the meantime.
use mathlib.Core.Path.{subst}
use qatth.Base.{◌≡◌, refl, ap, true, some, arith, Bool-cases, Option-cases, inl, inr}
use qatth.Schema.Common.{Uuid, Text, Time}
use qatth.Schema.Billing.{CreditReservation, ReservationStatus, ReferenceType}
use qatth.Schema.Cv.{AnalysisStatus, CvAnalysis}
use qatth.Db.{Db}
use qatth.Billing.Credits.{reservation_of, release}
use qatth.Billing.Expiry.{set_timeout}
use qatth.Work.Leases.{claim, owns, is_held_by_other}
use qatth.Cv.Access.{analysis_of, write_analysis}
use qatth.Tasks.Leased.{TaskResult, Start, Outcome, analysis_resource}
use qatth.Tasks.Analyze.{is_analysis_completed, set_claimed, start_analyze, finish_analyze}
use qatth.Tasks.Settled.{finish_superseded, analysis_of-write}

returned_claimed :
    {p q : Start × Db} {r : TaskResult} → p.0 ≡ Start.returned r → q.0 ≡ Start.claimed → p ≡ q → ⊥
returned_claimed a b c = cc

-- What a worker finds after another has claimed the analysis: a lease of the other.
claimed_by :
    (other : Text) (k : Uuid) (now : Time) (db : Db) {db' : Db}
    → start_analyze other k now db ≡ (Start.claimed, db')
    → (x : CvAnalysis) × (analysis_of k db' ≡ some x) × (x.processing_lease_id ≡ some other)
unfolding start_analyze claim
claimed_by other k now db {db'} h = elim (Option-cases (analysis_of k db)) [
  | inl e ↦ absurd (returned_claimed refl refl (rw (start_analyze, e) at h))
  | inr (x, e) ↦ elim (Bool-cases (is_analysis_completed x.status)) [
    | inl c ↦ absurd (returned_claimed refl refl (rw (start_analyze, e, c) at h))
    | inr c ↦ elim (Bool-cases (is_held_by_other other now (analysis_resource x))) [
      | inl o ↦ absurd (returned_claimed refl refl (rw (start_analyze, e, c, claim, o) at h))
      | inr o ↦
          let run = rw (start_analyze, e, c, claim, o) at h in
          let there = analysis_of-write k (set_claimed other now) db e refl in
          let held : (set_claimed other now x).processing_lease_id ≡ some other =
            rw (set_claimed, claim, o) refl in
          (
            set_claimed other now x,
            subst (λ d. analysis_of k d ≡ some (set_claimed other now x)) (ap (λ p. p.1) run) there,
            held,
          )
    ]
  ]
]

-- Once another worker has claimed the analysis, whatever the first worker brings, at any later time,
-- is not stored: its task ends as superseded and changes nothing.
pub taken_over :
    (lease other : Text) (k : Uuid) (o : Outcome Text) (now later : Time) (db db' : Db)
    → start_analyze other k now db ≡ (Start.claimed, db')
    → ¬ (other ≡ lease)
    → finish_analyze lease k o later db' ≡ (TaskResult.superseded, db')
unfolding owns
taken_over lease other k o now later db db' h ne =
    let (x, there, held) = claimed_by other k now db h in
    finish_superseded lease k later db' there o (rw held (ground arith))

module _ (lease : Text) (r : Uuid) (now later : Time) (db : Db) {x : CvAnalysis}
    {c : CreditReservation} (found : reservation_of r db ≡ some c)
    (reserved : c.status ≡ ReservationStatus.reserved)
    (kind : c.reference_type ≡ ReferenceType.cv_analysis)
    (there : analysis_of c.reference_id db ≡ some x)
    (running : x.status ≡ AnalysisStatus.processing) (credit : x.credit_reservation_id ≡ some r)
    (own : owns lease (analysis_resource x) ≡ true) where
  -- The tables after the reservation has run out.
  abbrev expired_db : Db
  expired_db = release (some r) now (write_analysis c.reference_id (set_timeout now) db)

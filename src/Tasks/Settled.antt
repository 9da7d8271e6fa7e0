-- ===== src/Tasks/Settled.antt =====
-- The end of `analyze_product_cv_task` of backend/app/workers/tasks.py settles the credits of the
-- analysis: what is completed is charged, and what fails is not.
use mathlib.Core.Path.{subst}
use qatth.Base.{
  ◌≡◌, refl, sym, ap, ◌∙◌, Bool, true, false, not, Option, none, some, arith, Bool-cases,
  Option-cases, inl, inr, find, modify, find-modify_self, find_test, ◌==◌, ◌⊎◌,
}
use qatth.Base.Int.{pos, eqb_ℤ}
use qatth.Schema.Common.{Uuid, Text, Time, Code, AppError}
use qatth.Schema.Billing.{CreditReservation, CreditLedgerEntry}
use qatth.Schema.Cv.{AnalysisStatus, CvAnalysis}
use qatth.Db.{
  Db, ok, err, is_captured, is_reserved, ok_err, bind_inv, or_raise, or_raise_inv, Result-cases,
  ok_tables, app_error,
}
use qatth.Billing.Accounts.{LedgerArgs, ledger, has_key}
use qatth.Billing.Credits.{
  reservation_of, allocations_of, consume_each, charge_args, set_captured, write_reservation,
  set_buckets, capture_reserved, capture, set_released, release, release_reserved,
}
use qatth.Billing.Reservation.Settle.{reservation_of-write}
use qatth.Work.Leases.{owns, clear}
use qatth.Cv.Access.{analysis_of, write_analysis}
use qatth.Tasks.Leased.{TaskResult, Failure, Outcome, safe_error_code, analysis_resource}
use qatth.Tasks.Analyze.{set_completed, set_failed, fail_analyze, finish_analyze}

-- The reservation, where there is one, is captured.
unfoldable pub is_charged : Option Uuid → Db → Bool
is_charged none db = true
is_charged (some k) db = elim (reservation_of k db) [ none ↦ true | some r ↦ is_captured r.status ]

-- The reservation, where there is one, holds no credits back.
unfoldable pub is_unreserved : Option Uuid → Db → Bool
is_unreserved none db = true
is_unreserved (some k) db = elim (reservation_of k db) [
  | none ↦ true
  | some r ↦ not (is_reserved r.status)
]

ledger-same :
    (a : Uuid) (args : LedgerArgs) (now : Time) (db : Db) {e : CreditLedgerEntry} {db' : Db}
    → ledger a args now db ≡ ok (e, db')
    → (db'.reservations ≡ db.reservations) × (db'.analyses ≡ db.analyses)
unfolding ledger
ledger-same a args now db h = elim (Bool-cases (eqb_ℤ args.amount (pos 0))) [
  | inl z ↦ ground arith
  | inr z ↦ elim (Option-cases (find (has_key a args.idempotency_key) db.entries)) [
    | inl e ↦ ground arith
    | inr (y, e) ↦ ground arith
  ]
]

abbrev corrupt : AppError
corrupt = app_error 409 Code.credit_reservation_corrupt

-- Where a capture of a reservation that is found returns, the reservation is captured, and the
-- analyses are as before.
capture_reserved-charges :
    (k : Uuid) (r : CreditReservation) (now : Time) (db : Db) {db' : Db}
    → reservation_of k db ≡ some r
    → capture_reserved r now db ≡ ok (tt, db')
    → (is_charged (some k) db' ≡ true) × (db'.analyses ≡ db.analyses)
unfolding capture_reserved is_charged
capture_reserved-charges k r now db {db'} found h =
    bind_inv (or_raise (consume_each (allocations_of r.id db) db.buckets) corrupt) _ db h
      (λ bs d got rest. or_raise_inv _ corrupt db got (λ consumed same.
        let written = write_reservation r.id (set_captured now) (set_buckets bs d) in
        bind_inv (ledger r.account_id (charge_args r) now) _ written rest (λ e d' entry done.
          let (kept, left) = ledger-same r.account_id (charge_args r) now written entry in
          let end = ok_tables done in
          (
            charged db' (
                sym (ap (λ x. x.reservations) end)
                ∙ kept
                ∙ ap (λ x. modify (λ y. y.id == r.id) (set_captured now) x.reservations)
                    (sym same)),
            sym (ap (λ x. x.analyses) end) ∙ left ∙ ap (λ x. x.analyses) (sym same),
          ))))
  where
    charged :
        (d : Db)
        → d.reservations ≡ modify (λ y. y.id == r.id) (set_captured now) db.reservations
        → is_charged (some k) d ≡ true
    charged d written =
        let there : reservation_of k d ≡ some (set_captured now r) =
          subst (λ ys. find (λ y. y.id == k) ys ≡ some (set_captured now r)) (sym written)
            (reservation_of-write k db (set_captured now) (λ x. refl) found) in
        rw (is_charged, there) refl

-- Where a capture returns, the reservation is captured if it is there, and the analyses are as
-- before.
capture-charges :
    (c : Option Uuid) (now : Time) (db : Db) {db' : Db}
    → capture c now db ≡ ok (tt, db')
    → (is_charged c db' ≡ true) × (db'.analyses ≡ db.analyses)
unfolding capture is_charged
capture-charges none now db h = (refl, sym (ap (λ x. x.analyses) (ok_tables h)))
capture-charges (some k) now db {db'} h = elim (Option-cases (reservation_of k db)) [
  | inl e ↦
      let same = ok_tables (rw (capture, e) at h) in
      (
        subst (λ d. is_charged (some k) d ≡ true) same (rw (is_charged, e) refl),
        sym (ap (λ x. x.analyses) same),
      )
  | inr (r, e) ↦ elim (Bool-cases (is_captured r.status)) [
    | inl c ↦
        let same = ok_tables (rw (capture, e, c) at h) in
        (
          subst (λ d. is_charged (some k) d ≡ true) same (rw (is_charged, e, c) refl),
          sym (ap (λ x. x.analyses) same),
        )
    | inr c ↦ elim (Bool-cases (is_reserved r.status)) [
      | inl s ↦ capture_reserved-charges k r now db e (rw (capture, e, c, s) at h)
      | inr s ↦ absurd (ok_err (sym (rw (capture, e, c, s) at h)))
    ]
  ]
]

-- After a release the reservation, if it is there, is no longer reserved, and the analyses are as
-- before.
release-frees :
    (c : Option Uuid) (now : Time) (db : Db)
    → (is_unreserved c (release c now db) ≡ true) × ((release c now db).analyses ≡ db.analyses)
unfolding release is_unreserved
release-frees none now db = (refl, refl)
release-frees (some k) now db = elim (Option-cases (reservation_of k db)) [
  | inl e ↦ ground arith
  | inr (r, e) ↦ elim (Bool-cases (is_reserved r.status)) [
    | inr s ↦ ground arith
    | inl s ↦
        let there : reservation_of k (release_reserved r now db) ≡ some (set_released now r) =
          reservation_of-write k db (set_released now) (λ x. refl) e in
        rw (release, e, s, is_unreserved, there) (refl, refl)
  ]
]

-- The analysis after it was written.
module _ (k : Uuid) (f : CvAnalysis → CvAnalysis) (db : Db) {x : CvAnalysis}
    (found : analysis_of k db ≡ some x) (keeps : (f x).id ≡ x.id) where
  pub analysis_of-write : analysis_of k (write_analysis k f db) ≡ some (f x)
  analysis_of-write =
      let key : (x.id == k) ≡ true = find_test (λ (y : CvAnalysis). y.id == k) db.analyses found in
      find-modify_self (λ y. y.id == k) f db.analyses found (rw keeps key)

-- The analysis is over with a status, free of its lease, and its credits are settled.
abbrev pub IsOver : AnalysisStatus → (Option Uuid → Db → Bool) → Uuid → Db → Type 0
IsOver s settled k db =
    (y : CvAnalysis) × (analysis_of k db ≡ some y)
    × (y.status ≡ s)
    × (y.processing_lease_id ≡ none)
    × (settled y.credit_reservation_id db ≡ true)

module _ (lease : Text) (k : Uuid) (now : Time) (db : Db) {x : CvAnalysis}
    (found : analysis_of k db ≡ some x) where
  -- A worker that does not own the analysis any more changes nothing.
  pub finish_superseded :
      (o : Outcome Text)
      → owns lease (analysis_resource x) ≡ false
      → finish_analyze lease k o now db ≡ (TaskResult.superseded, db)
  unfolding finish_analyze fail_analyze
  finish_superseded (Outcome.came output) lost = rw (finish_analyze, found, lost) refl
  finish_superseded (Outcome.failed f) lost = rw (finish_analyze, fail_analyze, found, lost) refl

  abbrev pub failed_db : Code → Db
  failed_db c = release x.credit_reservation_id now (write_analysis k (set_failed c now) db)

  module _ (own : owns lease (analysis_resource x) ≡ true) where
    fail_owned :
        (f : Failure)
        → fail_analyze lease k f now db
          ≡ (TaskResult.reraised, failed_db (safe_error_code f Code.cv_analysis_failed))
    unfolding fail_analyze
    fail_owned f = rw (fail_analyze, found, own) refl

    finish_captured :
        (output : Text) {db' : Db}
        → capture x.credit_reservation_id now (write_analysis k (set_completed output now) db)
          ≡ ok (tt, db')
        → finish_analyze lease k (Outcome.came output) now db ≡ (TaskResult.done, db')
    unfolding finish_analyze
    finish_captured output h = rw (finish_analyze, found, own, h) refl

    pub finish_uncaptured :
        (output : Text) {e : AppError}
        → capture x.credit_reservation_id now (write_analysis k (set_completed output now) db)
          ≡ err e
        → finish_analyze lease k (Outcome.came output) now db
          ≡ (TaskResult.reraised, failed_db e.code)
    unfolding finish_analyze
    finish_uncaptured output {e} h =
        rw (finish_analyze, found, own, h) (fail_owned (Failure.app_failure e.code))

    pub failed-IsOver : (c : Code) → IsOver AnalysisStatus.failed is_unreserved k (failed_db c)
    unfolding clear
    failed-IsOver c =
        let written = write_analysis k (set_failed c now) db in
        let (free, same) = release-frees x.credit_reservation_id now written in
        (
          set_failed c now x,
          subst (λ ys. find (λ y. y.id == k) ys ≡ some (set_failed c now x)) (sym same)
              (analysis_of-write k (set_failed c now) db found refl),
          refl,
          refl,
          free,
        )

    completed-IsOver :
        (output : Text) {db' : Db}
        → capture x.credit_reservation_id now (write_analysis k (set_completed output now) db)
          ≡ ok (tt, db')
        → IsOver AnalysisStatus.completed is_charged k db'
    unfolding clear
    completed-IsOver output h =
        let written = write_analysis k (set_completed output now) db in
        let (charged, same) = capture-charges x.credit_reservation_id now written h in
        (
          set_completed output now x,
          subst (λ ys. find (λ y. y.id == k) ys ≡ some (set_completed output now x)) (sym same)
              (analysis_of-write k (set_completed output now) db found refl),
          refl,
          refl,
          charged,
        )

    -- The worker that owns the analysis settles it: either it is completed and its credits are
    -- charged, or it has failed and no credits of its stay reserved. Its lease is free again.
    pub finish-settles :
        (o : Outcome Text)
        → let (result, db') = finish_analyze lease k o now db in
          (result ≡ TaskResult.done) × IsOver AnalysisStatus.completed is_charged k db'
          ⊎ (result ≡ TaskResult.reraised) × IsOver AnalysisStatus.failed is_unreserved k db'
    unfolding finish_analyze
    finish-settles (Outcome.failed f) =
        rw (fail_owned f) (inr (refl, failed-IsOver (safe_error_code f Code.cv_analysis_failed)))
    finish-settles (Outcome.came output) =
        elim (Result-cases
          (capture x.credit_reservation_id now (write_analysis k (set_completed output now) db))) [
            | inl (e, h) ↦ rw (finish_uncaptured output h) (inr (refl, failed-IsOver e.code))
            | inr ((u, d), h) ↦
                rw (finish_captured output h) (inl (refl, completed-IsOver output h))
          ]

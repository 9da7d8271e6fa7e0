-- ===== src/Interview/Final.antt =====
-- Interviews that are over: the calls of backend/app/services/product_interview.py that would end
-- or cancel them again.
use mathlib.Core.Path.{subst}
use qatth.Base.{
  ◌≡◌, refl, sym, true, false, Option, none, some, arith, ◌==◌, find, find_test, find-modify_self,
  modify, Bool-cases, Option-cases, inl, inr,
}
use qatth.Schema.Common.{Uuid, Text, Time, Code}
use qatth.Schema.Work.{OutboxEvent}
use qatth.Schema.Interview.{InterviewStatus, EndedReason, ProductInterview}
use qatth.Db.{is_reserved, Db, ok, err, app_error, ◌>>=◌}
use qatth.Billing.Trial.{ProductCurrentUser}
use qatth.Work.Idempotency.{Request}
use qatth.Billing.Credits.{release, reservation_of}
use qatth.Interview.Access.{interview_of, write_interview, get_interview, may_see}
use qatth.Interview.Ending.{
  is_evaluated, is_connected, is_cancelled, is_kept_for_good, end_locked, cancel_locked,
  timeout_realtime, set_ended, end_empty,
}

evaluated_not_connected : (s : InterviewStatus) → is_evaluated s ≡ true → is_connected s ≡ false
evaluated_not_connected InterviewStatus.evaluating h = refl
evaluated_not_connected InterviewStatus.completed h = refl
evaluated_not_connected InterviewStatus.evaluation_failed h = refl
evaluated_not_connected s h = ground arith

module _ (broker : OutboxEvent → Option Text) (current : ProductCurrentUser) (k : Uuid) (now : Time)
    (db : Db) {x : ProductInterview} (here : interview_of k db ≡ some x)
    (seen : may_see current x.user_id ≡ true) where
  get_interview_lem : get_interview current k db ≡ ok (x, db)
  unfolding get_interview
  get_interview_lem = ground arith

  -- A cancelled interview cannot be ended, and cancelling it again or its timeout change nothing.
  cancelled_row :
      (why : EndedReason) (q : Request)
      → x.status ≡ InterviewStatus.cancelled
      → (end_locked broker current k why now db ≡ err (app_error 409 Code.interview_cancelled))
        × (cancel_locked broker current k now db ≡ ok (tt, db))
        × (timeout_realtime broker k q now db ≡ ok (tt, db))
  unfolding end_locked cancel_locked timeout_realtime
  cancelled_row why q st = (
    rw (get_interview_lem, ◌>>=◌, st) refl,
    (let c : is_cancelled x.status ≡ true = ground arith in
        let kept : is_kept_for_good x.status ≡ false = ground arith in
        rw (get_interview_lem, ◌>>=◌, kept, c) refl),
    ground arith,
  )

  -- An interview that is evaluated, or being evaluated, or whose evaluation failed, is ended for
  -- good: ending it again succeeds, begins no report and changes nothing, and so does its timeout.
  evaluated_is_final :
      (why : EndedReason) (q : Request)
      → is_evaluated x.status ≡ true
      → (end_locked broker current k why now db ≡ ok (none, db))
        × (timeout_realtime broker k q now db ≡ ok (tt, db))
  unfolding end_locked timeout_realtime
  evaluated_is_final why q st =
      (rw (get_interview_lem, ◌>>=◌, st) refl, ground (arith, evaluated_not_connected x.status st))

release_others :
    (r : Option Uuid) (now : Time) (db : Db)
    → ((release r now db).interviews ≡ db.interviews) × ((release r now db).entries ≡ db.entries)
unfolding release
release_others none now db = (refl, refl)
release_others (some k) now db = elim (Option-cases (reservation_of k db)) [
  | inl e ↦ rw (release, e) (refl, refl)
  | inr (r, e) ↦ elim (Bool-cases (is_reserved r.status)) [
    | inl t ↦ rw (release, e, t) (refl, refl)
    | inr t ↦ rw (release, e, t) (refl, refl)
  ]
]

module _ (broker : OutboxEvent → Option Text) (current another : ProductCurrentUser) (k : Uuid)
    (now later : Time) (db : Db) {x : ProductInterview} (here : interview_of k db ≡ some x)
    (seen : may_see current x.user_id ≡ true) (seen_too : may_see another x.user_id ≡ true) where
  abbrev cancelled : ProductInterview
  cancelled = set_ended InterviewStatus.cancelled EndedReason.cancelled_reason now x

  abbrev cancelled_db : Db
  cancelled_db = end_empty broker x InterviewStatus.cancelled EndedReason.cancelled_reason now db

  cancel_runs :
      is_kept_for_good x.status ≡ false
      → is_cancelled x.status ≡ false
      → cancel_locked broker current k now db ≡ ok (tt, cancelled_db)
  unfolding cancel_locked
  cancel_runs open_still fresh =
      rw (get_interview_lem broker current k now db here seen, ◌>>=◌, open_still, fresh) refl

  cancelled_there : interview_of k cancelled_db ≡ some cancelled
  unfolding end_empty
  cancelled_there =
      let test = find_test (λ (y : ProductInterview). y.id == k) db.interviews here in
      let own : x.id ≡ k = ground (arith, test) in
      let written = set_ended InterviewStatus.cancelled EndedReason.cancelled_reason now in
      let same = (release_others x.credit_reservation_id now (write_interview x.id written db)).0 in
      subst (λ ys. find (λ y. y.id == k) ys ≡ some cancelled) (sym same)
        (subst
          (λ j.
            find (λ y. y.id == k) (modify (λ y. y.id == j) written db.interviews) ≡ some cancelled)
          (sym own) (find-modify_self (λ y. y.id == k) written db.interviews here test))

  -- Cancelling an interview that is not cancelled, completed or being evaluated succeeds and writes
  -- no entry in the ledger. Directly afterwards, whoever may see it cannot `end` it, and another
  -- `cancel` or the timeout of its duration change nothing.
  pub cancelled_is_final :
      (why : EndedReason) (q : Request)
      → is_kept_for_good x.status ≡ false
      → is_cancelled x.status ≡ false
      → (db' : Db) × (cancel_locked broker current k now db ≡ ok (tt, db'))
        × (db'.entries ≡ db.entries)
        × (end_locked broker another k why later db' ≡ err (app_error 409 Code.interview_cancelled))
        × (cancel_locked broker another k later db' ≡ ok (tt, db'))
        × (timeout_realtime broker k q later db' ≡ ok (tt, db'))
  unfolding end_empty
  cancelled_is_final why q open_still fresh =
      let written = set_ended InterviewStatus.cancelled EndedReason.cancelled_reason now in
      let (ended, again, timed_out) =
        cancelled_row broker another k later cancelled_db cancelled_there seen_too why q refl in
      (
        cancelled_db,
        cancel_runs open_still fresh,
        (release_others x.credit_reservation_id now (write_interview x.id written db)).1,
        ended,
        again,
        timed_out,
      )

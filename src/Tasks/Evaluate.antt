-- ===== src/Tasks/Evaluate.antt =====
-- `evaluate_product_interview_task`. The evaluation of a transcript by the provider is a parameter.
-- What the provider has used is not recorded here.
use qatth.Base.{
  Bool, true, false, not, ◌&&◌, Option, none, some, List, [], ◌∷◌, find, any, all, select, sort_by,
  is_some, or_some, leb, ◌==◌, if◌then◌else◌,
}
use qatth.Schema.Common.{Uuid, Text, Time, Code}
use qatth.Schema.Interview.{
  InterviewStatus, ProductInterview, ProductInterviewEvent, ReportStatus, ProductInterviewReport,
}
use qatth.Db.{Db}
use qatth.Work.Leases.{claim, owns, clear}
use qatth.Interview.Access.{interview_of, write_interview}
use qatth.Cv.Access.{invalidate_candidate_profiles}
use qatth.Tasks.Leased.{
  TaskResult, Start, Failure, Outcome, safe_error_code, report_resource, with_report_resource,
  write_report,
}

-- An evaluation: the evidence of each strength and gap, and the rest.
pub record Evaluation : Type 0 where
  pub evidence : List (List Uuid)
  pub text : Text

abbrev pub report_of : Uuid → Db → Option ProductInterviewReport
report_of k db = find (λ x. x.id == k) db.reports

abbrev pub is_ready : ReportStatus → Bool
is_ready ReportStatus.ready = true
is_ready _ = false

abbrev pub set_report_claimed : Text → Time → ProductInterviewReport → ProductInterviewReport
set_report_claimed lease now x =
    record (with_report_resource (claim lease now (report_resource x)).1 now x) { error = none }

-- The first transaction: it claims the report.
unfoldable pub start_evaluate : Text → Uuid → Time → Db → Start × Db
start_evaluate lease k now db = elim (report_of k db) [
  | none ↦ (Start.returned TaskResult.missing, db)
  | some x ↦
      if is_ready x.status
      then (Start.returned TaskResult.done, db)
      else if not (claim lease now (report_resource x)).0
      then (Start.returned TaskResult.in_progress, db)
      else (Start.claimed, write_report k (set_report_claimed lease now) db)
]

-- The events that the report is about, in the order of their numbers.
unfoldable pub transcript_of : ProductInterviewReport → Db → List ProductInterviewEvent
transcript_of r db =
    sort_by (λ d e. leb d.sequence e.sequence)
      (select
        (λ e.
          e.interview_id == r.interview_id && leb e.sequence r.transcript_version && is_some e.text)
        db.events)

-- Every finding names evidence, and only events of the transcript.
unfoldable pub is_grounded : List ProductInterviewEvent → Evaluation → Bool
is_grounded events output =
    all (λ ids. has_any ids && all (λ k. any (λ e. e.id == k) events) ids) output.evidence
  where
    has_any : List Uuid → Bool
    has_any [] = false
    has_any (k ∷ ks) = true

-- The work between the transactions: the provider evaluates the transcript, and an evaluation with
-- unknown evidence is an error.
unfoldable pub evaluate_report :
    (List ProductInterviewEvent → Outcome Evaluation) → Uuid → Db → Outcome Evaluation
evaluate_report provider k db = elim (report_of k db) [
  | none ↦ Outcome.failed Failure.other_failure
  | some r ↦ elim (interview_of r.interview_id db) [
    | none ↦ Outcome.failed Failure.other_failure
    | some x ↦ elim (provider (transcript_of r db)) [
      | Outcome.failed f ↦ Outcome.failed f
      | Outcome.came output ↦
          if is_grounded (transcript_of r db) output
          then Outcome.came output
          else Outcome.failed Failure.other_failure
    ]
  ]
]

abbrev pub clear_report : Time → ProductInterviewReport → ProductInterviewReport
clear_report now x = with_report_resource (clear (report_resource x)) now x

abbrev pub set_report_ready : Evaluation → Time → ProductInterviewReport → ProductInterviewReport
set_report_ready output now x =
    clear_report now
      (record x { output = some output.text; status = ReportStatus.ready; completed_at = some now })

abbrev pub set_report_failed : Code → Time → ProductInterviewReport → ProductInterviewReport
set_report_failed c now x =
    clear_report now (record x { status = ReportStatus.failed; error = some c })

abbrev pub set_evaluated : Time → ProductInterview → ProductInterview
set_evaluated now x = record x {
  status = InterviewStatus.completed;
  ended_at = or_some x.ended_at (some now);
}

abbrev pub set_evaluation_failed : Code → ProductInterview → ProductInterview
set_evaluation_failed c x = record x {
  status = InterviewStatus.evaluation_failed;
  failure = some c;
}

-- The `except` branch.
unfoldable pub fail_evaluate : Text → Uuid → Failure → Time → Db → TaskResult × Db
fail_evaluate lease k f now db = elim (report_of k db) [
  | none ↦ (TaskResult.reraised, db)
  | some x ↦
      if owns lease (report_resource x)
      then (
        TaskResult.reraised,
        (let c = safe_error_code f Code.interview_evaluation_failed in
            write_interview x.interview_id (set_evaluation_failed c)
              (write_report k (set_report_failed c now) db)),
      )
      else (TaskResult.superseded, db)
]

-- The last transaction: the worker that still owns the report stores the evaluation, and the
-- interview is completed.
unfoldable pub finish_evaluate : Text → Uuid → Outcome Evaluation → Time → Db → TaskResult × Db
finish_evaluate lease k (Outcome.failed f) now db = fail_evaluate lease k f now db
finish_evaluate lease k (Outcome.came output) now db = elim (report_of k db) [
  | none ↦ (TaskResult.superseded, db)
  | some x ↦
      if owns lease (report_resource x)
      then (
        TaskResult.done,
        invalidate_candidate_profiles x.user_id (
            write_interview x.interview_id (set_evaluated now)
              (write_report k (set_report_ready output now) db)),
      )
      else (TaskResult.superseded, db)
]

-- `evaluate_product_interview_task` where nothing else writes between its transactions.
unfoldable pub evaluate_product_interview_task :
    (List ProductInterviewEvent → Outcome Evaluation)
    → Text
    → Uuid
    → Time
    → Time
    → Db
    → TaskResult × Db
evaluate_product_interview_task provider lease k now later db =
    let (start, db') = start_evaluate lease k now db in
    elim start [
      | Start.returned r ↦ (r, db')
      | Start.claimed ↦ finish_evaluate lease k (evaluate_report provider k db') later db'
    ]

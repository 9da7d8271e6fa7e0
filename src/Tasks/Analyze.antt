-- ===== src/Tasks/Analyze.antt =====
-- `analyze_product_cv_task`. The request's lease is the identifier that Celery gives the task, and
-- the analysis of a content by the provider is a parameter. What the provider has used is not
-- recorded here.
use qatth.Base.{Bool, true, false, not, none, some, if◌then◌else◌}
use qatth.Schema.Common.{Uuid, Text, Time, Code}
use qatth.Schema.Cv.{CvContent, AnalysisStatus, CvAnalysis}
use qatth.Db.{Db, ok, err}
use qatth.Billing.Credits.{capture, release}
use qatth.Work.Leases.{claim, owns, clear}
use qatth.Cv.Access.{analysis_of, version_of, write_analysis}
use qatth.Tasks.Leased.{
  TaskResult, Start, Failure, Outcome, safe_error_code, analysis_resource, with_analysis_resource,
}

abbrev pub is_analysis_completed : AnalysisStatus → Bool
is_analysis_completed AnalysisStatus.completed = true
is_analysis_completed _ = false

-- The row of a claimed analysis.
abbrev pub set_claimed : Text → Time → CvAnalysis → CvAnalysis
set_claimed lease now x =
    record (with_analysis_resource (claim lease now (analysis_resource x)).1 now x) {
      started_at = some now;
      error = none;
    }

-- The first transaction: it claims the analysis.
unfoldable pub start_analyze : Text → Uuid → Time → Db → Start × Db
start_analyze lease k now db = elim (analysis_of k db) [
  | none ↦ (Start.returned TaskResult.missing, db)
  | some x ↦
      if is_analysis_completed x.status
      then (Start.returned TaskResult.done, db)
      else if not (claim lease now (analysis_resource x)).0
      then (Start.returned TaskResult.in_progress, db)
      else (Start.claimed, write_analysis k (set_claimed lease now) db)
]

-- The work between the transactions: the provider analyses the version's content.
unfoldable pub analyze_version : (CvContent → Outcome Text) → Uuid → Db → Outcome Text
analyze_version provider k db = elim (analysis_of k db) [
  | none ↦ Outcome.failed Failure.other_failure
  | some x ↦ elim (version_of x.cv_version_id db) [
    | none ↦ Outcome.failed Failure.other_failure
    | some v ↦ provider v.content
  ]
]

abbrev pub clear_analysis : Time → CvAnalysis → CvAnalysis
clear_analysis now x = with_analysis_resource (clear (analysis_resource x)) now x

abbrev pub set_completed : Text → Time → CvAnalysis → CvAnalysis
set_completed output now x =
    clear_analysis now (record x {
      output = some output;
      status = AnalysisStatus.completed;
      completed_at = some now;
    })

abbrev pub set_failed : Code → Time → CvAnalysis → CvAnalysis
set_failed c now x =
    clear_analysis now
      (record x { status = AnalysisStatus.failed; error = some c; completed_at = some now })

-- The `except` branch: the worker that still owns the analysis fails it and releases its credits.
unfoldable pub fail_analyze : Text → Uuid → Failure → Time → Db → TaskResult × Db
fail_analyze lease k f now db = elim (analysis_of k db) [
  | none ↦ (TaskResult.reraised, db)
  | some x ↦
      if owns lease (analysis_resource x)
      then (
        TaskResult.reraised,
        release x.credit_reservation_id now
            (write_analysis k (set_failed (safe_error_code f Code.cv_analysis_failed) now) db),
      )
      else (TaskResult.superseded, db)
]

-- The last transaction: the worker that still owns the analysis stores the output and captures the
-- credits. If the capture raises, what was stored is rolled back, and the analysis fails.
unfoldable pub finish_analyze : Text → Uuid → Outcome Text → Time → Db → TaskResult × Db
finish_analyze lease k (Outcome.failed f) now db = fail_analyze lease k f now db
finish_analyze lease k (Outcome.came output) now db = elim (analysis_of k db) [
  | none ↦ (TaskResult.superseded, db)
  | some x ↦
      if not (owns lease (analysis_resource x))
      then (TaskResult.superseded, db)
      else elim (capture x.credit_reservation_id now
          (write_analysis k (set_completed output now) db)) [
            | ok (u, db') ↦ (TaskResult.done, db')
            | err e ↦ fail_analyze lease k (Failure.app_failure e.code) now db
          ]
]

-- `analyze_product_cv_task` where nothing else writes between its transactions.
unfoldable pub analyze_product_cv_task :
    (CvContent → Outcome Text) → Text → Uuid → Time → Time → Db → TaskResult × Db
analyze_product_cv_task provider lease k now later db =
    let (start, db') = start_analyze lease k now db in
    elim start [
      | Start.returned r ↦ (r, db')
      | Start.claimed ↦ finish_analyze lease k (analyze_version provider k db') later db'
    ]

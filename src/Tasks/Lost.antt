-- ===== src/Tasks/Lost.antt =====
-- A task of backend/app/workers/tasks.py whose worker was lost, and the step of `recover_stalled` of
-- backend/app/services/task_leases.py that recovers it.
use qatth.Base.{◌≤◌, ◌≡◌, none, some, find, ◌==◌}
use qatth.Schema.Common.{Time}
use qatth.Schema.Work.{Topic, LastError, OutboxEvent}
use qatth.Schema.Cv.{AnalysisStatus, CvAnalysis}
use qatth.Db.{Db}
use qatth.Work.Leases.{WorkStatus, Resource}
use qatth.Work.Dispatch.{has_dedup, write_event, set_published}
use qatth.Cv.Access.{analysis_of, write_analysis}
use qatth.Tasks.Leased.{with_analysis_resource}

module _ (t now : Time) (db : Db) {x : CvAnalysis} {e : OutboxEvent}
    (there : analysis_of x.id db ≡ some x) (running : x.status ≡ AnalysisStatus.processing)
    (lease : x.processing_lease_expires_at ≡ some t) (over : t ≤ now)
    (event : find (has_dedup Topic.cv_analyze x.id) db.outbox ≡ some e)
    (same_event : find (λ y. y.id == e.id) db.outbox ≡ some e) where
  -- The analysis waits again, without a lease.
  abbrev waiting : CvAnalysis → CvAnalysis
  waiting y = record y {
    status = AnalysisStatus.queued;
    processing_lease_id = none;
    processing_lease_expires_at = none;
    updated_at = now;
  }

  abbrev due : OutboxEvent
  due = record e {
    published_at = none;
    available_at = now;
    last_error = some LastError.processing_lease_expired;
  }

  abbrev waiting_resource : Resource
  waiting_resource = record {
    status = WorkStatus.waiting;
    processing_lease_id = none;
    processing_lease_expires_at = none;
    updated_at = x.updated_at;
  }

  -- The write of the loop.
  abbrev requeue : CvAnalysis → CvAnalysis
  requeue y = with_analysis_resource waiting_resource now y

  abbrev recovered_db : Db
  recovered_db = write_event e.id (λ y. due) (write_analysis x.id requeue db)

  abbrev sent_db : Db
  sent_db = write_event e.id (set_published now) recovered_db

-- ===== src/Tests/Workers.antt =====
-- Runs of the workers' tasks.
use qatth.Base.{◌≡◌, refl, none, some, [], ◌∷◌, arith, ◌⊎◌}
use qatth.Schema.Work.{Topic, OutboxEvent}
use qatth.Schema.Cv.{AnalysisStatus, CvAnalysis}
use qatth.Db.{Db}
use qatth.Work.Leases.{owns}
use qatth.Tasks.Leased.{TaskResult, Start, Outcome}
use qatth.Tasks.Analyze.{start_analyze, finish_analyze}
use qatth.Tasks.Settled.{IsOver, is_charged, is_unreserved, finish-settles}
use qatth.Tasks.Late.{taken_over}
use qatth.Tests.Data.{reserved_db}

-- The analysis 9, whose credits are in reservation 3; worker 1 has it until 900.
abbrev analysis : CvAnalysis
analysis = record {
  id = 9;
  user_id = 10;
  cv_version_id = 24;
  parent_analysis_id = none;
  attempt_number = 1;
  status = AnalysisStatus.processing;
  output = none;
  error = none;
  credit_reservation_id = some 3;
  started_at = some 0;
  completed_at = none;
  processing_lease_id = some 1;
  processing_lease_expires_at = some 900;
  updated_at = 0;
}

abbrev running_db : Db
running_db = record reserved_db { analyses = analysis ∷ [] }

finish-settles_example :
    let (result, db') = finish_analyze 1 9 (Outcome.came 5) 100 running_db in
    (result ≡ TaskResult.done) × IsOver AnalysisStatus.completed is_charged 9 db'
    ⊎ (result ≡ TaskResult.reraised) × IsOver AnalysisStatus.failed is_unreserved 9 db'
unfolding owns
finish-settles_example = finish-settles 1 9 100 running_db {x = analysis} refl refl (Outcome.came 5)

-- Worker 2 claims the analysis after worker 1 has lost it.
abbrev taken_db : Db
taken_db = record running_db {
  analyses =
      record analysis {
        processing_lease_id = some 2;
        processing_lease_expires_at = some 1900;
        started_at = some 1000;
        updated_at = 1000;
      }
      ∷ [];
}

taken_run : start_analyze 2 9 1000 running_db ≡ (Start.claimed, taken_db)
unfolding start_analyze qatth.Work.Leases.claim
taken_run = refl

taken_over_example :
    finish_analyze 1 9 (Outcome.came 5) 1001 taken_db ≡ (TaskResult.superseded, taken_db)
taken_over_example =
    taken_over 1 2 9 (Outcome.came 5) 1000 1001 running_db taken_db taken_run (λ e. omega arith)

abbrev event : OutboxEvent
event = record {
  id = 30;
  aggregate_id = 9;
  event_type = Topic.cv_analyze;
  available_at = 0;
  published_at = some 0;
  attempts = 1;
  last_error = none;
  occurred_at = 0;
}

abbrev lost_db : Db
lost_db = record running_db { outbox = event ∷ [] }

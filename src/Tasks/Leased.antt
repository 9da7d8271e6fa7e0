-- ===== src/Tasks/Leased.antt =====
-- What the tasks of backend/app/workers/tasks.py share: the rows that `ProductTaskLeaseService`
-- works on, what a task returns, and the errors that it stores (`safe_error_payload` of
-- backend/app/core/errors.py).
use qatth.Base.{List, ◌==◌, modify}
use qatth.Schema.Common.{Uuid, Text, Time, Code}
use qatth.Schema.Work.{Topic}
use qatth.Schema.Interview.{ReportStatus, ProductInterviewReport}
use qatth.Schema.Cv.{ScanStatus, CvScan, AnalysisStatus, CvAnalysis}
use qatth.Db.{Db}
use qatth.Cv.Access.{write_scan, write_analysis}
use qatth.Work.Leases.{WorkStatus, Resource}

-- The `status` that a task returns, or the exception that it raises again.
pub data TaskResult : Type 0 where
  missing ignored in_progress superseded done : TaskResult
  reraised : TaskResult

-- What the first transaction of a task comes to: it returns, or has claimed the resource.
pub data Start : Type 0 where
  returned : TaskResult → Start
  claimed : Start

-- An `AppError` with its code, or any other exception.
pub data Failure : Type 0 where
  app_failure : Code → Failure
  other_failure : Failure

pub data Outcome (A : Type 0) : Type 0 where
  came : A → Outcome A
  failed : Failure → Outcome A

-- `safe_error_code`. Every code of the model consists of capitals, digits and underscores.
abbrev pub safe_error_code : Failure → Code → Code
safe_error_code (app_failure c) fallback = c
safe_error_code other_failure fallback = fallback

-- A table whose rows are leased: one entry of `specifications` in `recover_stalled`, with the
-- columns that the leases read and write.
pub record Leased (R : Type 0) : Type 0 where
  pub topic : Topic
  pub id : R → Uuid
  pub rows : Db → List R
  pub write : Uuid → (R → R) → Db → Db
  pub resource : R → Resource
  pub with_resource : Resource → Time → R → R

-- The status that is neither the waiting nor the active one.
abbrev pub settled_text : Text
settled_text = 0

abbrev pub scan_work : ScanStatus → WorkStatus
scan_work ScanStatus.queued = WorkStatus.waiting
scan_work ScanStatus.extracting = WorkStatus.active
scan_work _ = WorkStatus.settled settled_text

abbrev pub scan_status : WorkStatus → ScanStatus → ScanStatus
scan_status WorkStatus.waiting s = ScanStatus.queued
scan_status WorkStatus.active s = ScanStatus.extracting
scan_status (WorkStatus.settled t) s = s

abbrev pub scan_resource : CvScan → Resource
scan_resource x = record {
  status = scan_work x.status;
  processing_lease_id = x.processing_lease_id;
  processing_lease_expires_at = x.processing_lease_expires_at;
  updated_at = x.updated_at;
}

abbrev pub with_scan_resource : Resource → Time → CvScan → CvScan
with_scan_resource r now x = record x {
  status = scan_status r.status x.status;
  processing_lease_id = r.processing_lease_id;
  processing_lease_expires_at = r.processing_lease_expires_at;
  updated_at = now;
}

abbrev pub leased_scans : Leased CvScan
leased_scans = record {
  topic = Topic.cv_extract;
  id = λ x. x.id;
  rows = λ db. db.scans;
  write = write_scan;
  resource = scan_resource;
  with_resource = with_scan_resource;
}

abbrev pub analysis_work : AnalysisStatus → WorkStatus
analysis_work AnalysisStatus.queued = WorkStatus.waiting
analysis_work AnalysisStatus.processing = WorkStatus.active
analysis_work _ = WorkStatus.settled settled_text

abbrev pub analysis_status : WorkStatus → AnalysisStatus → AnalysisStatus
analysis_status WorkStatus.waiting s = AnalysisStatus.queued
analysis_status WorkStatus.active s = AnalysisStatus.processing
analysis_status (WorkStatus.settled t) s = s

abbrev pub analysis_resource : CvAnalysis → Resource
analysis_resource x = record {
  status = analysis_work x.status;
  processing_lease_id = x.processing_lease_id;
  processing_lease_expires_at = x.processing_lease_expires_at;
  updated_at = x.updated_at;
}

abbrev pub with_analysis_resource : Resource → Time → CvAnalysis → CvAnalysis
with_analysis_resource r now x = record x {
  status = analysis_status r.status x.status;
  processing_lease_id = r.processing_lease_id;
  processing_lease_expires_at = r.processing_lease_expires_at;
  updated_at = now;
}

abbrev pub leased_analyses : Leased CvAnalysis
leased_analyses = record {
  topic = Topic.cv_analyze;
  id = λ x. x.id;
  rows = λ db. db.analyses;
  write = write_analysis;
  resource = analysis_resource;
  with_resource = with_analysis_resource;
}

-- A report waits and is processed under one status.
abbrev pub report_work : ReportStatus → WorkStatus
report_work ReportStatus.processing = WorkStatus.active
report_work _ = WorkStatus.settled settled_text

abbrev pub report_status : WorkStatus → ReportStatus → ReportStatus
report_status WorkStatus.waiting s = ReportStatus.processing
report_status WorkStatus.active s = ReportStatus.processing
report_status (WorkStatus.settled t) s = s

abbrev pub report_resource : ProductInterviewReport → Resource
report_resource x = record {
  status = report_work x.status;
  processing_lease_id = x.processing_lease_id;
  processing_lease_expires_at = x.processing_lease_expires_at;
  updated_at = x.updated_at;
}

abbrev pub with_report_resource : Resource → Time → ProductInterviewReport → ProductInterviewReport
with_report_resource r now x = record x {
  status = report_status r.status x.status;
  processing_lease_id = r.processing_lease_id;
  processing_lease_expires_at = r.processing_lease_expires_at;
  updated_at = now;
}

abbrev pub write_report : Uuid → (ProductInterviewReport → ProductInterviewReport) → Db → Db
write_report k f db = record db { reports = modify (λ x. x.id == k) f db.reports }

abbrev pub leased_reports : Leased ProductInterviewReport
leased_reports = record {
  topic = Topic.interview_evaluate;
  id = λ x. x.id;
  rows = λ db. db.reports;
  write = write_report;
  resource = report_resource;
  with_resource = with_report_resource;
}

-- ===== src/Tasks/Extract.antt =====
-- `extract_product_cv_task`. Reading the file and its extraction by the provider are a parameter,
-- as is `_checksum`. What the provider has used is not recorded here.
use qatth.Base.{Bool, true, false, not, ◌&&◌, Option, none, some, if◌then◌else◌}
use qatth.Schema.Common.{Uuid, Text, Time, Code}
use qatth.Schema.Cv.{ProductFileAsset, CvContent, ScanStatus, CvScan, CvDraft}
use qatth.Db.{Db}
use qatth.Work.Leases.{claim, owns, clear}
use qatth.Cv.Access.{scan_of, file_of, draft_of_scan, write_scan, is_uploaded, is_clean}
use qatth.Cv.Drafts.{has_draft, add_draft}
use qatth.Tasks.Leased.{
  TaskResult, Start, Failure, Outcome, safe_error_code, scan_resource, with_scan_resource,
}

-- `status in {"queued", "extraction_failed"}`.
abbrev pub is_extractable : ScanStatus → Bool
is_extractable ScanStatus.queued = true
is_extractable ScanStatus.extraction_failed = true
is_extractable _ = false

abbrev pub set_scan_claimed : Text → Time → CvScan → CvScan
set_scan_claimed lease now x =
    record (with_scan_resource (claim lease now (scan_resource x)).1 now x) {
      started_at = some now;
      error = none;
    }

-- The first transaction: it claims the scan.
unfoldable pub start_extract : Text → Uuid → Time → Db → Start × Db
start_extract lease k now db = elim (scan_of k db) [
  | none ↦ (Start.returned TaskResult.missing, db)
  | some x ↦
      if has_draft x.status
      then (Start.returned TaskResult.done, db)
      else if not (is_extractable x.status)
      then (Start.returned TaskResult.ignored, db)
      else if not (claim lease now (scan_resource x)).0
      then (Start.returned TaskResult.in_progress, db)
      else (Start.claimed, write_scan k (set_scan_claimed lease now) db)
]

-- The work between the transactions: the file is read and its content extracted.
unfoldable pub extract_file :
    (ProductFileAsset → Option Text → Outcome CvContent) → Uuid → Db → Outcome CvContent
extract_file provider k db = elim (scan_of k db) [
  | none ↦ Outcome.failed Failure.other_failure
  | some x ↦ elim (file_of x.file_id db) [
    | none ↦ Outcome.failed Failure.other_failure
    | some a ↦
        if is_uploaded a.upload_status && is_clean a.security_status
        then provider a x.locale_hint
        else Outcome.failed Failure.other_failure
  ]
]

abbrev pub clear_scan : Time → CvScan → CvScan
clear_scan now x = with_scan_resource (clear (scan_resource x)) now x

abbrev pub set_scan_ready : Time → CvScan → CvScan
set_scan_ready now x =
    clear_scan now (record x { status = ScanStatus.draft_ready; completed_at = some now })

abbrev pub set_scan_failed : Code → Time → CvScan → CvScan
set_scan_failed c now x =
    clear_scan now
      (record x { status = ScanStatus.extraction_failed; error = some c; completed_at = some now })

-- The `except` branch.
unfoldable pub fail_extract : Text → Uuid → Failure → Time → Db → TaskResult × Db
fail_extract lease k f now db = elim (scan_of k db) [
  | none ↦ (TaskResult.reraised, db)
  | some x ↦
      if owns lease (scan_resource x)
      then (
        TaskResult.reraised,
        write_scan k (set_scan_failed (safe_error_code f Code.cv_extraction_failed) now) db,
      )
      else (TaskResult.superseded, db)
]

module _ (checksum : CvContent → Text) where
  abbrev pub extracted_draft : CvScan → CvContent → Time → Db → CvDraft
  extracted_draft x content now db = record {
    id = db.next_id;
    scan_id = x.id;
    revision = 1;
    schema_version = x.schema_version;
    content = content;
    checksum = checksum content;
    confirmed_at = none;
    updated_at = now;
  }

  -- The draft of the scan, unless it has one.
  unfoldable pub open_draft : CvScan → CvContent → Time → Db → Db
  open_draft x content now db = elim (draft_of_scan x.id db) [
    | some d ↦ db
    | none ↦ add_draft (extracted_draft x content now db) db
  ]

  -- The last transaction: the worker that still owns the scan stores its draft.
  unfoldable pub finish_extract : Text → Uuid → Outcome CvContent → Time → Db → TaskResult × Db
  finish_extract lease k (Outcome.failed f) now db = fail_extract lease k f now db
  finish_extract lease k (Outcome.came content) now db = elim (scan_of k db) [
    | none ↦ (TaskResult.superseded, db)
    | some x ↦
        if owns lease (scan_resource x)
        then (TaskResult.done, write_scan k (set_scan_ready now) (open_draft x content now db))
        else (TaskResult.superseded, db)
  ]

  -- `extract_product_cv_task` where nothing else writes between its transactions.
  unfoldable pub extract_product_cv_task :
      (ProductFileAsset → Option Text → Outcome CvContent)
      → Text
      → Uuid
      → Time
      → Time
      → Db
      → TaskResult × Db
  extract_product_cv_task provider lease k now later db =
      let (start, db') = start_extract lease k now db in
      elim start [
        | Start.returned r ↦ (r, db')
        | Start.claimed ↦ finish_extract lease k (extract_file provider k db') later db'
      ]

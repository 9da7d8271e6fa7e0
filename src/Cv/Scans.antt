-- ===== src/Cv/Scans.antt =====
-- Scans of an uploaded file: `create_scan` and `retry_scan` of `ProductCvService`. The broker, the
-- storage and whether the user has given consent are parameters.
use qatth.Base.{
  ℕ, suc, ◌+◌, Bool, true, false, not, ◌&&◌, Option, none, some, List, [], ◌∷◌, ◌==◌, if◌then◌else◌,
  find, leb,
}
use qatth.Schema.Common.{Uuid, Text, Time, Code, AppError}
use qatth.Schema.Work.{Topic, OutboxEvent}
use qatth.Schema.Cv.{ObjectKey, ScanStatus, CvScan}
use qatth.Db.{Db, M, app_error, pure, gets, ◌>>=◌, ◌>>◌, raise_if, update}
use qatth.Billing.Trial.{ProductCurrentUser}
use qatth.Work.Idempotency.{Request, begin, complete}
use qatth.Work.Dispatch.{enqueue, publish_resource}
use qatth.Interview.Access.{require_consent}
use qatth.Cv.Access.{get_scan, get_cv, get_file, read_asset, replayed_resource}

pub record CreateCvScanRequest : Type 0 where
  pub file_id : Uuid
  pub cv_id : Option Uuid
  pub extraction_schema_version : Text
  pub locale_hint : Option Text

abbrev pub is_scan_of : Uuid → Text → CvScan → Bool
is_scan_of file schema x = x.file_id == file && x.schema_version == schema

-- The greatest attempt number of the file under the schema, and 0 where there is none.
unfoldable pub max_scan_attempt : Uuid → Text → List CvScan → ℕ
max_scan_attempt file schema [] = 0
max_scan_attempt file schema (x ∷ xs) =
    let rest = max_scan_attempt file schema xs in
    if is_scan_of file schema x && leb rest x.attempt_number then x.attempt_number else rest

abbrev pub first_scan : Uuid → Uuid → CreateCvScanRequest → Time → Db → CvScan
first_scan user file payload now db = record {
  id = db.next_id;
  user_id = user;
  file_id = file;
  cv_id = payload.cv_id;
  parent_scan_id = none;
  attempt_number = 1;
  status = ScanStatus.queued;
  schema_version = payload.extraction_schema_version;
  locale_hint = payload.locale_hint;
  error = none;
  started_at = none;
  completed_at = none;
  processing_lease_id = none;
  processing_lease_expires_at = none;
  updated_at = now;
}

abbrev pub next_scan : Uuid → CvScan → Time → Db → CvScan
next_scan user original now db = record {
  id = db.next_id;
  user_id = user;
  file_id = original.file_id;
  cv_id = original.cv_id;
  parent_scan_id = some original.id;
  attempt_number = max_scan_attempt original.file_id original.schema_version db.scans + 1;
  status = ScanStatus.queued;
  schema_version = original.schema_version;
  locale_hint = original.locale_hint;
  error = none;
  started_at = none;
  completed_at = none;
  processing_lease_id = none;
  processing_lease_expires_at = none;
  updated_at = now;
}

abbrev pub add_scan : CvScan → Db → Db
add_scan x db = record db { next_id = suc db.next_id; scans = x ∷ db.scans }

abbrev pub is_extraction_failed : ScanStatus → Bool
is_extraction_failed ScanStatus.extraction_failed = true
is_extraction_failed _ = false

-- `cv_id` is looked up only where the request names one.
abbrev pub check_cv : ProductCurrentUser → Option Uuid → M (Unit {0})
check_cv current none = pure tt
check_cv current (some k) = get_cv current k >> pure tt

-- The first scan of a file, for all requests that ask for it.
abbrev pub existing_scan : CreateCvScanRequest → Db → Option CvScan
existing_scan payload db =
    find
      (λ x. is_scan_of payload.file_id payload.extraction_schema_version x && x.attempt_number == 1)
      db.scans

module _ (broker : OutboxEvent → Option Text) where
  -- `_dispatch_scan`.
  abbrev pub dispatch_scan : Uuid → Time → Db → Db
  dispatch_scan k now db = (publish_resource broker now Topic.cv_extract k db).1

  module _ (current : ProductCurrentUser) (q : Request) (consented : Bool) (now : Time) where
    -- A new scan: stored, enqueued, the request completed, and dispatched.
    unfoldable pub start_scan : (Db → CvScan) → (Uuid → Db → Db) → M CvScan
    start_scan new complete_request = do
      x ← gets new
      update (add_scan x)
      update (λ db. (enqueue Topic.cv_extract x.id now db).1)
      update (complete_request x.id)
      update (dispatch_scan x.id now)
      pure x

    -- `create_scan`.
    unfoldable pub create_scan : (ObjectKey → Option AppError) → CreateCvScanRequest → M CvScan
    create_scan storage payload = do
      (r, replay) ← begin q now
      if replay then replayed_resource r (get_scan current) else (do
        require_consent consented
        owned_file ← get_file current payload.file_id
        file ← read_asset storage owned_file
        check_cv current payload.cv_id
        existing ← gets (existing_scan payload)
        elim existing [
          | some x ↦ (do update (complete r x.id 202 now); pure x)
          | none ↦
              start_scan (first_scan current.id file.id payload now) (λ k. complete r k 202 now)
        ])

    -- `retry_scan`.
    unfoldable pub retry_scan : Uuid → M CvScan
    retry_scan k = do
      original ← get_scan current k
      (r, replay) ← begin q now
      if replay then replayed_resource r (get_scan current) else (do
        require_consent consented
        raise_if (not (is_extraction_failed original.status))
            (app_error 409 Code.cv_scan_not_retryable)
        start_scan (next_scan current.id original now) (λ j. complete r j 202 now))

-- ===== src/Tests/Uploads.antt =====
-- Runs of the uploads.
use qatth.Base.{ℕ, ◌≡◌, refl, true, false, none, some, List, [], ◌∷◌, arith}
use qatth.Schema.Common.{Text, Code}
use qatth.Schema.Cv.{UploadStatus, SecurityStatus, ObjectKey, ProductFileAsset}
use qatth.Db.{Db, ok, err, retryable_error}
use qatth.Billing.Trial.{Role, ProductCurrentUser}
use qatth.Work.Idempotency.{Request, new_record, add_record}
use qatth.Files.Content.{validate_pdf, Scanner, Answer, chunks, chunk_size}
use qatth.Files.Upload.{
  ObjectStorage, CreateUploadIntentRequest, CompleteUploadRequest, new_asset, set_uploaded,
  write_file, create_intent, complete_upload,
}
use qatth.Files.Bytes.{IsSafePdf, validate_pdf-IsSafePdf}
use qatth.Files.Verified.{IsVerified, complete_upload-IsVerified}
use qatth.Files.Intent.{intent_db, intent_replay_stuck}
use qatth.Tests.Data.{empty_db}

abbrev uploader : ProductCurrentUser
uploader = record { id = 10; role = Role.student; email_verified = true }

abbrev request : Request
request = record { scope = 1; operation = 2; key = record { text = 3; size = 8 }; request_hash = 4 }

-- The bytes "%PDF-%%EOF".
abbrev small_pdf : List ℕ
small_pdf = 37 ∷ 80 ∷ 68 ∷ 70 ∷ 45 ∷ 37 ∷ 37 ∷ 69 ∷ 79 ∷ 70 ∷ []

abbrev storage : ObjectStorage
storage = record {
  is_local = true;
  stat = λ k.
      ok (record {
        size = 10;
        etag = some 6;
        content_type = none;
        amz_sha256 = none;
        sha256 = none;
      });
  read = λ k. ok small_pdf;
  put_system = λ k bs. none;
}

abbrev scanner : Scanner
scanner = record {
  is_configured = true;
  is_lenient = false;
  answer = λ cs. some (record { has_found = false; has_ok = true });
}

abbrev sum : List ℕ → Text
sum bs = 5

abbrev same : Text → Text
same t = t

abbrev file : UploadStatus → ProductFileAsset
file s = record {
  id = 40;
  user_id = 10;
  content_type = 1;
  declared_size_bytes = 10;
  actual_size_bytes = none;
  declared_sha256 = 5;
  verified_sha256 = none;
  object_key = ObjectKey.staging_key 10 41;
  provider_etag = none;
  expires_at = 900;
  uploaded_at = none;
  upload_status = s;
  security_status = SecurityStatus.unchecked;
}

abbrev file_db : UploadStatus → Db
file_db s = record empty_db { files = file s ∷ [] }

abbrev completion : CompleteUploadRequest
completion = record { sha256 = 5; provider_etag = none }

abbrev uploaded_file : ProductFileAsset
uploaded_file = record (file UploadStatus.uploaded) {
  actual_size_bytes = some 10;
  verified_sha256 = some 5;
  object_key = ObjectKey.clean_key 10 101;
  provider_etag = some 6;
  uploaded_at = some 50;
  security_status = SecurityStatus.clean;
}

abbrev uploaded_db : Db
uploaded_db =
    qatth.Work.Idempotency.complete (new_record request 50 (file_db UploadStatus.pending)) 40 200 50
      (record (add_record (new_record request 50 (file_db UploadStatus.pending))
        (file_db UploadStatus.pending)) { next_id = 102; files = uploaded_file ∷ [] })

upload_run :
    complete_upload storage sum same scanner true uploader 40 completion request 50
      (file_db UploadStatus.pending)
    ≡ (ok uploaded_file, uploaded_db)
unfolding complete_upload qatth.Work.Idempotency.begin qatth.Cv.Access.get_file
    qatth.Files.Upload.complete_asset qatth.Files.Upload.check_object
    qatth.Files.Upload.check_content qatth.Files.Upload.settle_upload
    qatth.Files.Content.validate_pdf qatth.Files.Content.scan_malware qatth.Files.Content.contains
    qatth.Files.Content.starts_with
upload_run = refl

complete_upload-IsVerified_example :
    IsVerified storage sum same scanner uploader
      (file UploadStatus.pending)
      completion
      (new_record request 50 (file_db UploadStatus.pending))
      50
      (add_record
        (new_record request 50 (file_db UploadStatus.pending))
        (file_db UploadStatus.pending))
      (file_db UploadStatus.pending)
      uploaded_file
      uploaded_db
complete_upload-IsVerified_example =
    complete_upload-IsVerified storage sum same scanner uploader 40 completion request 50
      (file_db UploadStatus.pending) {a = file UploadStatus.pending} (omega arith) (omega arith)
      refl refl refl refl refl upload_run

abbrev intent : CreateUploadIntentRequest
intent = record { content_type = 1; size_bytes = 10; sha256 = 5 }

intent_replay_stuck_example :
    (create_intent same true uploader intent request 50 empty_db
      ≡ ok (
        new_asset same uploader intent 50 (add_record (new_record request 50 empty_db) empty_db),
        intent_db same uploader intent request 50 empty_db,
      ))
    × (create_intent same true uploader intent request 60
          (intent_db same uploader intent request 50 empty_db)
        ≡ err (retryable_error 409 Code.idempotency_request_in_progress))
intent_replay_stuck_example =
    intent_replay_stuck same uploader intent request 50 empty_db 60 (omega arith) (omega arith) refl
      refl

validate_pdf-IsSafePdf_example :
    (validate_pdf small_pdf ≡ none → IsSafePdf small_pdf)
    × (IsSafePdf small_pdf → validate_pdf small_pdf ≡ none)
validate_pdf-IsSafePdf_example = validate_pdf-IsSafePdf small_pdf

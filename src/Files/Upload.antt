-- ===== src/Files/Upload.antt =====
-- The operations of `ProductFileService`. The object storage, SHA-256, `str.lower`, the scanner and
-- whether the user has given consent are parameters; the URLs that the storage signs are left out.
use qatth.Base.{
  ℕ, suc, ◌+◌, Bool, true, false, not, ◌&&◌, ◌||◌, Option, none, some, List, ◌∷◌, ◌==◌,
  if◌then◌else◌, some_and, opt_eq, or_some, find, modify, length, leb, ltb,
}
use qatth.Schema.Common.{Uuid, Text, Time, Code, AppError}
use qatth.Schema.Work.{IdempotencyRecord}
use qatth.Schema.Cv.{UploadStatus, SecurityStatus, ObjectKey, ProductFileAsset}
use qatth.Db.{Db, Result, ok, err, M, app_error, retryable_error, ◌>>=◌, ◌>>◌, pure, raise_if}
use qatth.Billing.Trial.{ProductCurrentUser}
use qatth.Work.Idempotency.{Request, begin, complete, complete_with}
use qatth.Interview.Access.{require_consent, is_request_completed}
use qatth.Cv.Access.{get_file, is_uploaded, is_clean}
use qatth.Files.Content.{Scanner, validate_pdf, scan_malware}

-- `ObjectStat`, with the checksum of its metadata under either name.
pub record ObjectStat : Type 0 where
  pub size : ℕ
  pub etag : Option Text
  pub content_type : Option Text
  pub amz_sha256 : Option Text
  pub sha256 : Option Text

-- `ObjectStorage`: whether its backend is "local", and what its calls return or raise.
pub record ObjectStorage : Type 0 where
  pub is_local : Bool
  pub stat : ObjectKey → Result ObjectStat
  pub read : ObjectKey → Result (List ℕ)
  pub put_system : ObjectKey → List ℕ → Option AppError

pub record CreateUploadIntentRequest : Type 0 where
  pub content_type : Text
  pub size_bytes : ℕ
  pub sha256 : Text

pub record CompleteUploadRequest : Type 0 where
  pub sha256 : Text
  pub provider_etag : Option Text

abbrev pub is_pending_upload : UploadStatus → Bool
is_pending_upload UploadStatus.pending = true
is_pending_upload _ = false

abbrev pub add_file : ProductFileAsset → Db → Db
add_file a db = record db { next_id = suc db.next_id; files = a ∷ db.files }

abbrev pub write_file : Uuid → (ProductFileAsset → ProductFileAsset) → Db → Db
write_file k f db = record db { files = modify (λ a. a.id == k) f db.files }

-- `_idempotent_asset`: a replay returns the asset, or the rejection that was stored.
unfoldable pub idempotent_asset : ProductCurrentUser → IdempotencyRecord → M ProductFileAsset
idempotent_asset current r db = elim (r.resource_id) [
  | none ↦ err (retryable_error 409 Code.idempotency_request_in_progress)
  | some k ↦
      if not (is_request_completed r.status)
      then err (retryable_error 409 Code.idempotency_request_in_progress)
      else elim (r.response_status) [
        | none ↦ get_file current k db
        | some status ↦
            if leb 400 status
            then err (
                app_error status
                  (elim (r.response_body) [ none ↦ Code.file_rejected | some c ↦ c ]))
            else get_file current k db
      ]
]

module _ (lower : Text → Text) where
  abbrev pub new_asset :
      ProductCurrentUser → CreateUploadIntentRequest → Time → Db → ProductFileAsset
  new_asset current payload now db = record {
    id = db.next_id;
    user_id = current.id;
    content_type = payload.content_type;
    declared_size_bytes = payload.size_bytes;
    actual_size_bytes = none;
    declared_sha256 = lower payload.sha256;
    verified_sha256 = none;
    object_key = ObjectKey.staging_key current.id db.next_id;
    provider_etag = none;
    expires_at = now + 900;
    uploaded_at = none;
    upload_status = UploadStatus.pending;
    security_status = SecurityStatus.unchecked;
  }

  abbrev pub is_open_intent : Uuid → Text → Time → ProductFileAsset → Bool
  is_open_intent user sha now a =
      a.user_id == user
      && a.declared_sha256 == lower sha
      && is_pending_upload a.upload_status
      && ltb now a.expires_at

  -- `create_intent` of a request that is new. The identifier of a new asset is only there after the
  -- flush of the commit: what `complete` stores in the request's record is `None`.
  unfoldable pub open_intent :
      ProductCurrentUser → CreateUploadIntentRequest → IdempotencyRecord → Time → M ProductFileAsset
  open_intent current payload r now db =
      elim (find (is_open_intent current.id payload.sha256 now) db.files) [
        | some a ↦ ok (a, complete_with r (some a.id) 201 none now db)
        | none ↦ ok (
          new_asset current payload now db,
          add_file (new_asset current payload now db) (complete_with r none 201 none now db),
        )
      ]

  -- `create_intent`.
  unfoldable pub create_intent :
      Bool → ProductCurrentUser → CreateUploadIntentRequest → Request → Time → M ProductFileAsset
  create_intent consented current payload q now = do
    require_consent consented
    (r, replay) ← begin q now
    if replay then idempotent_asset current r else open_intent current payload r now

-- `put_local`, up to the write of the storage: the asset that the bytes are for.
abbrev pub key_eq : ObjectKey → ObjectKey → Bool
key_eq (ObjectKey.staging_key a b) (ObjectKey.staging_key c d) = a == c && b == d
key_eq (ObjectKey.clean_key a b) (ObjectKey.clean_key c d) = a == c && b == d
key_eq _ _ = false

unfoldable pub put_local : ObjectKey → List ℕ → Option Text → Time → M ProductFileAsset
put_local k content content_type now db = elim (find (λ a. key_eq a.object_key k) db.files) [
  | none ↦ err (app_error 404 Code.upload_intent_not_found)
  | some a ↦
      if not (is_pending_upload a.upload_status) || leb a.expires_at now
      then err (app_error 404 Code.upload_intent_not_found)
      else if not (opt_eq content_type (some a.content_type))
      then err (app_error 422 Code.content_type_mismatch)
      else if ltb a.declared_size_bytes (length content)
      then err (app_error 413 Code.file_too_large)
      else ok (a, db)
]

-- What the checks of `complete` come to: the object with its bytes, a rejection with its code, or
-- an error that leaves the upload as it is.
pub data Verdict : Type 0 where
  passed : ObjectStat → List ℕ → Verdict
  refused : Code → Verdict
  interrupted : AppError → Verdict

-- `except AppError as exc`: an error with 422 rejects the file.
abbrev pub verdict_of : AppError → Verdict
verdict_of e = if e.status_code == 422 then Verdict.refused e.code else Verdict.interrupted e

abbrev pub set_rejected : ProductFileAsset → ProductFileAsset
set_rejected a = record a {
  upload_status = UploadStatus.rejected;
  security_status = SecurityStatus.quarantined;
}

abbrev pub set_uploaded :
    Uuid → ℕ → Text → Option Text → Time → Db → ProductFileAsset → ProductFileAsset
set_uploaded user size sha etag now db a = record a {
  actual_size_bytes = some size;
  verified_sha256 = some sha;
  provider_etag = etag;
  object_key = ObjectKey.clean_key user db.next_id;
  upload_status = UploadStatus.uploaded;
  security_status = SecurityStatus.clean;
  uploaded_at = some now;
}

module _ (storage : ObjectStorage) (sha256 : List ℕ → Text) (lower : Text → Text)
    (scanner : Scanner) where
  -- The bytes of the object: their checksum, the PDF's structure and the malware scan.
  unfoldable pub check_content : ProductFileAsset → ObjectStat → List ℕ → Verdict
  check_content a s bs =
      if not (sha256 bs == a.declared_sha256)
      then Verdict.refused Code.file_rejected
      else elim (validate_pdf bs) [
        | some e ↦ verdict_of e
        | none ↦ elim (scan_malware scanner bs) [
          | some e ↦ verdict_of e
          | none ↦ Verdict.passed s bs
        ]
      ]

  -- The checks of `complete` on the object of the storage.
  unfoldable pub check_object : ProductFileAsset → Verdict
  check_object a = elim (storage.stat a.object_key) [
    | err e ↦ Verdict.interrupted e
    | ok s ↦
        if not (s.size == a.declared_size_bytes)
        then Verdict.refused Code.file_rejected
        else if some_and s.content_type (λ t. not (lower t == lower a.content_type))
        then Verdict.refused Code.file_rejected
        else if not storage.is_local
            && not (opt_eq (or_some s.amz_sha256 s.sha256) (some a.declared_sha256))
        then Verdict.refused Code.file_rejected
        else elim (storage.read a.object_key) [
          | err e ↦ Verdict.interrupted e
          | ok bs ↦ check_content a s bs
        ]
  ]

  -- The end of `complete`, by the verdict: `_reject` commits and then raises; the object is copied
  -- under a clean key, and the asset is uploaded. The tables come with the error, too.
  unfoldable pub settle_upload :
      ProductCurrentUser
      → ProductFileAsset
      → CompleteUploadRequest
      → IdempotencyRecord
      → Time
      → Db
      → Verdict
      → Db
      → Result ProductFileAsset × Db
  settle_upload current a payload r now db (Verdict.interrupted e) before = (err e, before)
  settle_upload current a payload r now db (Verdict.refused c) before = (
    err (app_error 422 c),
    complete_with r (some a.id) 422 (some c) now (write_file a.id set_rejected db),
  )
  settle_upload current a payload r now db (Verdict.passed s bs) before =
      elim (storage.put_system (ObjectKey.clean_key current.id db.next_id) bs) [
        | some e ↦ (err e, before)
        | none ↦
            let f =
              set_uploaded current.id (length bs) (sha256 bs) (or_some payload.provider_etag s.etag)
                now db in
            (
              ok (f a),
              complete r a.id 200 now (write_file a.id f (record db { next_id = suc db.next_id })),
            )
      ]

  -- `complete` of the asset, for a request that is new; `before` are the tables before the request.
  unfoldable pub complete_asset :
      ProductCurrentUser
      → ProductFileAsset
      → CompleteUploadRequest
      → IdempotencyRecord
      → Time
      → Db
      → Db
      → Result ProductFileAsset × Db
  complete_asset current a payload r now db before =
      if is_uploaded a.upload_status && opt_eq a.verified_sha256 (some (lower payload.sha256))
      then (ok a, complete r a.id 200 now db)
      else if not (is_pending_upload a.upload_status) || leb a.expires_at now
      then (err (app_error 409 Code.upload_not_completable), before)
      else if not (lower payload.sha256 == a.declared_sha256)
      then (err (app_error 422 Code.checksum_mismatch), before)
      else settle_upload current a payload r now db (check_object a) before

  -- `complete`.
  unfoldable pub complete_upload :
      Bool
      → ProductCurrentUser
      → Uuid
      → CompleteUploadRequest
      → Request
      → Time
      → Db
      → Result ProductFileAsset × Db
  complete_upload consented current k payload q now db =
      elim ((require_consent consented >> begin q now) db) [
        | err e ↦ (err e, db)
        | ok ((r, replay), db') ↦
            if replay
            then elim (idempotent_asset current r db') [
              | err e ↦ (err e, db)
              | ok (a, d) ↦ (ok a, d)
            ]
            else elim (get_file current k db') [
              | err e ↦ (err e, db)
              | ok (a, d) ↦ complete_asset current a payload r now d db
            ]
      ]

-- `download_url`, up to the URL that the storage signs.
unfoldable pub download : ProductCurrentUser → Uuid → M ObjectKey
download current k = do
  a ← get_file current k
  raise_if (not (is_uploaded a.upload_status && is_clean a.security_status))
      (app_error 409 Code.file_not_available)
  pure a.object_key

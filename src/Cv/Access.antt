-- ===== src/Cv/Access.antt =====
-- Finding the rows of a user: `get_scan`, `get_analysis`, `_cv` and `_replayed_resource` of
-- `ProductCvService`, `read_owned` of backend/app/services/product_files.py, and
-- `invalidate_candidate_profiles` of backend/app/services/candidate_profiles.py. What reading an
-- object of the storage raises, if it does, is a parameter.
use qatth.Base.{
  Bool, true, false, ◌&&◌, Option, none, some, List, [], ◌∷◌, ◌==◌, if◌then◌else◌, find, modify,
  ◌≡◌, sym, ap, Bool-cases, inl, inr,
}
use qatth.Schema.Common.{Uuid, Code, AppError}
use qatth.Schema.Work.{IdempotencyRecord}
use qatth.Schema.Cv.{
  UploadStatus, SecurityStatus, ObjectKey, ProductFileAsset, CvStatus, ProductCv, CvScan, CvDraft,
  ProductCvVersion, CvAnalysis, CandidateProfile,
}
use qatth.Db.{Db, ok, err, M, app_error, retryable_error, ok_err, ok_value, ok_tables}
use qatth.Billing.Trial.{ProductCurrentUser}
use qatth.Interview.Access.{may_see, is_request_completed}

-- A row that is there and that the user may see.
abbrev pub owned : {A : Type 0} → (A → Uuid) → ProductCurrentUser → Code → Option A → M A
owned user_of current c none db = err (app_error 404 c)
owned user_of current c (some x) db =
    if may_see current (user_of x) then ok (x, db) else err (app_error 404 c)

abbrev pub scan_of : Uuid → Db → Option CvScan
scan_of k db = find (λ x. x.id == k) db.scans

abbrev pub cv_of : Uuid → Db → Option ProductCv
cv_of k db = find (λ x. x.id == k) db.cvs

abbrev pub analysis_of : Uuid → Db → Option CvAnalysis
analysis_of k db = find (λ x. x.id == k) db.analyses

abbrev pub version_of : Uuid → Db → Option ProductCvVersion
version_of k db = find (λ x. x.id == k) db.versions

abbrev pub draft_of_scan : Uuid → Db → Option CvDraft
draft_of_scan k db = find (λ x. x.scan_id == k) db.drafts

abbrev pub write_scan : Uuid → (CvScan → CvScan) → Db → Db
write_scan k f db = record db { scans = modify (λ x. x.id == k) f db.scans }

abbrev pub write_cv : Uuid → (ProductCv → ProductCv) → Db → Db
write_cv k f db = record db { cvs = modify (λ x. x.id == k) f db.cvs }

abbrev pub write_analysis : Uuid → (CvAnalysis → CvAnalysis) → Db → Db
write_analysis k f db = record db { analyses = modify (λ x. x.id == k) f db.analyses }

abbrev pub write_draft : Uuid → (CvDraft → CvDraft) → Db → Db
write_draft k f db = record db { drafts = modify (λ x. x.id == k) f db.drafts }

-- `get_scan`.
unfoldable pub get_scan : ProductCurrentUser → Uuid → M CvScan
get_scan current k db = owned (λ x. x.user_id) current Code.cv_scan_not_found (scan_of k db) db

-- `get_analysis`.
unfoldable pub get_analysis : ProductCurrentUser → Uuid → M CvAnalysis
get_analysis current k db =
    owned (λ x. x.user_id) current Code.cv_analysis_not_found (analysis_of k db) db

-- `_cv` of an identifier.
unfoldable pub get_cv : ProductCurrentUser → Uuid → M ProductCv
get_cv current k db = owned (λ x. x.user_id) current Code.cv_not_found (cv_of k db) db

-- The version of a replay.
unfoldable pub get_version : ProductCurrentUser → Uuid → M ProductCvVersion
get_version current k db =
    owned (λ x. x.user_id) current Code.cv_version_not_found (version_of k db) db

-- `_replayed_resource` of a replay; `get` finds the resource of the model.
unfoldable pub replayed_resource : {A : Type 0} → IdempotencyRecord → (Uuid → M A) → M A
replayed_resource r get db = elim (r.resource_id) [
  | none ↦ err (retryable_error 409 Code.idempotency_request_in_progress)
  | some k ↦
      if is_request_completed r.status
      then get k db
      else err (retryable_error 409 Code.idempotency_request_in_progress)
]

abbrev pub is_uploaded : UploadStatus → Bool
is_uploaded UploadStatus.uploaded = true
is_uploaded _ = false

abbrev pub is_clean : SecurityStatus → Bool
is_clean SecurityStatus.clean = true
is_clean _ = false

abbrev pub is_cv_active : CvStatus → Bool
is_cv_active CvStatus.active = true
is_cv_active _ = false

abbrev pub file_of : Uuid → Db → Option ProductFileAsset
file_of k db = find (λ x. x.id == k) db.files

-- `_owned`.
unfoldable pub get_file : ProductCurrentUser → Uuid → M ProductFileAsset
get_file current k db = owned (λ x. x.user_id) current Code.file_not_found (file_of k db) db

-- `read_owned`, after `_owned`.
unfoldable pub read_asset : (ObjectKey → Option AppError) → ProductFileAsset → M ProductFileAsset
read_asset storage x db =
    if is_uploaded x.upload_status && is_clean x.security_status
    then elim (storage x.object_key) [ none ↦ ok (x, db) | some e ↦ err e ]
    else err (app_error 409 Code.file_not_ready)

unfoldable pub mark_stale : Uuid → List CandidateProfile → List CandidateProfile
mark_stale user [] = []
mark_stale user (x ∷ xs) =
    (if x.user_id == user && x.is_fresh then record x { is_fresh = false } else x)
    ∷ mark_stale user xs

-- `invalidate_candidate_profiles`.
abbrev pub invalidate_candidate_profiles : Uuid → Db → Db
invalidate_candidate_profiles user db = record db { profiles = mark_stale user db.profiles }

-- Where a user gets a row, it is there, he may see it, and the tables stay as they are.
pub owned_inv :
    {A P : Type 0} (user_of : A → Uuid) (current : ProductCurrentUser) (c : Code) (o : Option A)
    (db : Db) {x : A} {db' : Db}
    → owned user_of current c o db ≡ ok (x, db')
    → (o ≡ some x → may_see current (user_of x) ≡ true → db ≡ db' → P)
    → P
owned_inv user_of current c none db h k = absurd (ok_err (sym h))
owned_inv user_of current c (some y) db {x} {db'} h k =
    elim (Bool-cases (may_see current (user_of y))) [
      | inl s ↦
          let row = ok_value (rw s at h) in k (ap some row) (rw row at s) (ok_tables (rw s at h))
      | inr s ↦ absurd (ok_err (sym (rw s at h)))
    ]

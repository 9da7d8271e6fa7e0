-- ===== src/Schema/Cv.antt =====
-- The tables of backend/app/models/product_cv.py, and `CandidateProfile` of
-- backend/app/models/product_jobs.py as far as the CV service writes it. Left out: the name
-- and the bucket of a file, confidences and warnings of a draft, and the columns that describe the
-- provider and the model.
use qatth.Base.{ℕ, Bool, Option}
use qatth.Schema.Common.{Uuid, Text, Time, Code}

pub data UploadStatus : Type 0 where
  pending uploaded rejected deleted : UploadStatus

pub data SecurityStatus : Type 0 where
  unchecked clean quarantined : SecurityStatus

-- The key of an object: "users/" with the user, "/cv-staging/" or "/cv-clean/", a fresh identifier
-- and ".pdf".
pub data ObjectKey : Type 0 where
  staging_key clean_key : Uuid → Uuid → ObjectKey

pub record ProductFileAsset : Type 0 where
  pub id : Uuid
  pub user_id : Uuid
  pub content_type : Text
  pub declared_size_bytes : ℕ
  pub actual_size_bytes : Option ℕ
  pub declared_sha256 : Text
  pub verified_sha256 : Option Text
  pub object_key : ObjectKey
  pub provider_etag : Option Text
  pub expires_at : Time
  pub uploaded_at : Option Time
  pub upload_status : UploadStatus
  pub security_status : SecurityStatus

-- `CvContent` of backend/app/schemas/product_cv.py: the name that a title is made of, and the rest.
pub record CvContent : Type 0 where
  pub full_name : Option Text
  pub rest : Text

-- A title that the user gives, "CV - " with a name, or "My CV".
pub data Title : Type 0 where
  given named : Text → Title
  my_cv : Title

pub data CvStatus : Type 0 where
  active archived deleting : CvStatus

pub record ProductCv : Type 0 where
  pub id : Uuid
  pub user_id : Uuid
  pub title : Title
  pub status : CvStatus
  pub active_version_id : Option Uuid
  pub created_at : Time
  pub updated_at : Time

pub data ScanStatus : Type 0 where
  queued extracting draft_ready confirmed extraction_failed : ScanStatus

pub record CvScan : Type 0 where
  pub id : Uuid
  pub user_id : Uuid
  pub file_id : Uuid
  pub cv_id : Option Uuid
  pub parent_scan_id : Option Uuid
  pub attempt_number : ℕ
  pub status : ScanStatus
  pub schema_version : Text
  pub locale_hint : Option Text
  pub error : Option Code
  pub started_at : Option Time
  pub completed_at : Option Time
  pub processing_lease_id : Option Text
  pub processing_lease_expires_at : Option Time
  pub updated_at : Time

pub record CvDraft : Type 0 where
  pub id : Uuid
  pub scan_id : Uuid
  pub revision : ℕ
  pub schema_version : Text
  pub content : CvContent
  pub checksum : Text
  pub confirmed_at : Option Time
  pub updated_at : Time

pub record ProductCvVersion : Type 0 where
  pub id : Uuid
  pub cv_id : Uuid
  pub user_id : Uuid
  pub source_scan_id : Option Uuid
  pub source_file_id : Uuid
  pub version : ℕ
  pub schema_version : Text
  pub content : CvContent
  pub checksum : Text

pub data AnalysisStatus : Type 0 where
  queued processing completed failed : AnalysisStatus

pub record CvAnalysis : Type 0 where
  pub id : Uuid
  pub user_id : Uuid
  pub cv_version_id : Uuid
  pub parent_analysis_id : Option Uuid
  pub attempt_number : ℕ
  pub status : AnalysisStatus
  pub output : Option Text
  pub error : Option Code
  pub credit_reservation_id : Option Uuid
  pub started_at : Option Time
  pub completed_at : Option Time
  pub processing_lease_id : Option Text
  pub processing_lease_expires_at : Option Time
  pub updated_at : Time

-- Whether the profile's `status` is "fresh".
pub record CandidateProfile : Type 0 where
  pub id : Uuid
  pub user_id : Uuid
  pub is_fresh : Bool

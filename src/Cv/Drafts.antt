-- ===== src/Cv/Drafts.antt =====
-- The draft of a scan: `get_draft`, `create_version_draft` and `update_draft` of
-- `ProductCvService`. The validation of a patch (`CvContent.model_validate`) and `_checksum`, a
-- SHA-256 of the content, are parameters.
use qatth.Base.{
  ℕ, suc, ◌+◌, Bool, true, false, not, ◌&&◌, none, some, ◌∷◌, ◌==◌, if◌then◌else◌, any,
}
use qatth.Schema.Common.{Uuid, Text, Time, Code}
use qatth.Schema.Cv.{ScanStatus, CvScan, CvContent, CvDraft, ProductCvVersion}
use qatth.Db.{
  Db, Result, ok, err, M, app_error, pure, gets, or_raise, ◌>>=◌, ◌>>◌, raise_if, update,
}
use qatth.Billing.Trial.{ProductCurrentUser}
use qatth.Work.Idempotency.{Request, begin, complete}
use qatth.Interview.Access.{require_consent}
use qatth.Cv.Access.{
  draft_of_scan, version_of, write_draft, get_scan, replayed_resource, is_cv_active,
}
use qatth.Cv.Scans.{max_scan_attempt, add_scan}

-- `status in {"draft_ready", "confirmed"}`.
abbrev pub has_draft : ScanStatus → Bool
has_draft ScanStatus.draft_ready = true
has_draft ScanStatus.confirmed = true
has_draft _ = false

abbrev pub is_draft_ready : ScanStatus → Bool
is_draft_ready ScanStatus.draft_ready = true
is_draft_ready _ = false

-- The draft of a scan, or 404.
unfoldable pub find_draft : Uuid → M CvDraft
find_draft k db = or_raise (draft_of_scan k db) (app_error 404 Code.cv_draft_not_found) db

-- `get_draft`.
unfoldable pub get_draft : ProductCurrentUser → Uuid → M CvDraft
get_draft current k = do
  scan ← get_scan current k
  raise_if (not (has_draft scan.status)) (app_error 409 Code.cv_draft_not_ready)
  find_draft scan.id

-- A version of the user whose CV is active.
abbrev pub is_usable : Uuid → ProductCvVersion → Db → Bool
is_usable user v db =
    v.user_id == user && any (λ c. c.id == v.cv_id && is_cv_active c.status) db.cvs

-- The version that a new draft, or an analysis, starts from.
unfoldable pub usable_version : ProductCurrentUser → Uuid → M ProductCvVersion
usable_version current k db = elim (version_of k db) [
  | none ↦ err (app_error 404 Code.cv_version_not_found)
  | some v ↦
      if is_usable current.id v db
      then ok (v, db)
      else err (app_error 404 Code.cv_version_not_found)
]

abbrev pub edit_scan : Uuid → ProductCvVersion → Time → Db → CvScan
edit_scan user v now db = record {
  id = db.next_id;
  user_id = user;
  file_id = v.source_file_id;
  cv_id = some v.cv_id;
  parent_scan_id = v.source_scan_id;
  attempt_number = max_scan_attempt v.source_file_id v.schema_version db.scans + 1;
  status = ScanStatus.draft_ready;
  schema_version = v.schema_version;
  locale_hint = none;
  error = none;
  started_at = some now;
  completed_at = some now;
  processing_lease_id = none;
  processing_lease_expires_at = none;
  updated_at = now;
}

abbrev pub version_draft : Uuid → ProductCvVersion → Time → Db → CvDraft
version_draft scan v now db = record {
  id = db.next_id;
  scan_id = scan;
  revision = 1;
  schema_version = v.schema_version;
  content = v.content;
  checksum = v.checksum;
  confirmed_at = none;
  updated_at = now;
}

abbrev pub add_draft : CvDraft → Db → Db
add_draft x db = record db { next_id = suc db.next_id; drafts = x ∷ db.drafts }

-- `create_version_draft`.
unfoldable pub create_version_draft : Bool → ProductCurrentUser → Uuid → Request → Time → M CvDraft
create_version_draft consented current k q now = do
  (r, replay) ← begin q now
  if replay
      then replayed_resource r (get_scan current) >>= (λ scan. get_draft current scan.id)
      else (do
        require_consent consented
        v ← usable_version current k
        scan ← gets (edit_scan current.id v now)
        update (add_scan scan)
        draft ← gets (version_draft scan.id v now)
        update (add_draft draft)
        update (complete r scan.id 201 now)
        pure draft)

abbrev pub set_content : (CvContent → Text) → CvContent → Time → CvDraft → CvDraft
set_content checksum content now d = record d {
  content = content;
  checksum = checksum content;
  revision = suc d.revision;
  updated_at = now;
}

module _ (validate : Text → Result CvContent) (checksum : CvContent → Text) where
  abbrev pub validated : Text → M CvContent
  validated raw db = elim (validate raw) [ ok c ↦ ok (c, db) | err e ↦ err e ]

  -- `update_draft`.
  unfoldable pub update_draft : ProductCurrentUser → Uuid → ℕ → Text → Time → M CvDraft
  update_draft current k revision raw now = do
    scan ← get_scan current k
    raise_if (not (is_draft_ready scan.status)) (app_error 409 Code.cv_draft_not_editable)
    draft ← find_draft scan.id
    raise_if (not (draft.revision == revision)) (app_error 409 Code.cv_draft_revision_conflict)
    content ← validated raw
    update (write_draft draft.id (set_content checksum content now))
    pure (set_content checksum content now draft)

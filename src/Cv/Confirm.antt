-- ===== src/Cv/Confirm.antt =====
-- `confirm` of `ProductCvService`: the draft of a scan becomes a version of a CV. `str.lower` of a
-- checksum is a parameter.
use qatth.Base.{
  ℕ, suc, ◌+◌, Bool, not, ◌&&◌, Option, none, some, List, [], ◌∷◌, ◌==◌, if◌then◌else◌, some_and,
  find, leb,
}
use qatth.Schema.Common.{Uuid, Text, Time, Code}
use qatth.Schema.Cv.{
  Title, CvStatus, ProductCv, ScanStatus, CvScan, CvContent, CvDraft, ProductCvVersion,
}
use qatth.Db.{Db, M, app_error, pure, gets, ◌>>=◌, ◌>>◌, raise_if, update}
use qatth.Billing.Trial.{ProductCurrentUser}
use qatth.Work.Idempotency.{Request, begin, complete}
use qatth.Interview.Access.{require_consent}
use qatth.Cv.Access.{
  write_scan, write_cv, write_draft, get_scan, get_cv, get_version, replayed_resource, is_cv_active,
  invalidate_candidate_profiles,
}
use qatth.Cv.Drafts.{is_draft_ready, find_draft}

pub record ConfirmCvDraftRequest : Type 0 where
  pub revision : ℕ
  pub checksum : Text
  pub title : Option Text

-- The empty text, which counts as absent.
abbrev pub empty_text : Text
empty_text = 0

-- `_default_title`.
unfoldable pub default_title : CvContent → Title
default_title c = elim (c.full_name) [
  | none ↦ Title.my_cv
  | some name ↦ if name == empty_text then Title.my_cv else Title.named name
]

-- `payload.title or self._default_title(draft.content)`.
abbrev pub title_of : ConfirmCvDraftRequest → CvDraft → Title
title_of payload d = elim (payload.title) [
  | none ↦ default_title d.content
  | some t ↦ if t == empty_text then default_title d.content else Title.given t
]

abbrev pub new_cv : Uuid → Title → Time → Db → ProductCv
new_cv user title now db = record {
  id = db.next_id;
  user_id = user;
  title = title;
  status = CvStatus.active;
  active_version_id = none;
  created_at = now;
  updated_at = now;
}

abbrev pub add_cv : ProductCv → Db → Db
add_cv c db = record db { next_id = suc db.next_id; cvs = c ∷ db.cvs }

-- The CV that the version goes to: the scan's, unless it is archived, or a new one.
unfoldable pub target_cv :
    ProductCurrentUser → CvScan → ConfirmCvDraftRequest → CvDraft → Time → M ProductCv
target_cv current scan payload draft now = elim (scan.cv_id) [
  | none ↦ (do c ← gets (new_cv current.id (title_of payload draft) now); update (add_cv c); pure c)
  | some k ↦ (do
    c ← get_cv current k
    raise_if (not (is_cv_active c.status)) (app_error 409 Code.cv_archived)
    pure c)
]

-- The greatest version of a CV, and 0 where there is none.
unfoldable pub max_version : Uuid → List ProductCvVersion → ℕ
max_version k [] = 0
max_version k (v ∷ vs) =
    let rest = max_version k vs in if v.cv_id == k && leb rest v.version then v.version else rest

abbrev pub new_version : ProductCurrentUser → ProductCv → CvScan → CvDraft → Db → ProductCvVersion
new_version current c scan draft db = record {
  id = db.next_id;
  cv_id = c.id;
  user_id = current.id;
  source_scan_id = some scan.id;
  source_file_id = scan.file_id;
  version = max_version c.id db.versions + 1;
  schema_version = draft.schema_version;
  content = draft.content;
  checksum = draft.checksum;
}

abbrev pub add_version : ProductCvVersion → Db → Db
add_version v db = record db { next_id = suc db.next_id; versions = v ∷ db.versions }

abbrev pub set_active : Uuid → Time → ProductCv → ProductCv
set_active v now c = record c { active_version_id = some v; updated_at = now }

abbrev pub set_confirmed : Uuid → Time → CvScan → CvScan
set_confirmed c now x = record x {
  cv_id = some c;
  status = ScanStatus.confirmed;
  completed_at = some now;
  updated_at = now;
}

abbrev pub set_draft_confirmed : Time → CvDraft → CvDraft
set_draft_confirmed now d = record d { confirmed_at = some now; updated_at = now }

-- The writes of `confirm` for a new version.
abbrev pub store_version : ProductCurrentUser → CvScan → CvDraft → ProductCvVersion → Time → Db → Db
store_version current scan draft v now db = invalidate_candidate_profiles current.id (
    write_draft draft.id (set_draft_confirmed now) (
      write_scan scan.id (set_confirmed v.cv_id now)
        (write_cv v.cv_id (set_active v.id now) (add_version v db))))

abbrev pub version_of_scan : Uuid → Db → Option ProductCvVersion
version_of_scan k db = find (λ v. some_and v.source_scan_id (λ s. s == k)) db.versions

module _ (lower : Text → Text) where
  -- The draft that the request refers to is the current one.
  abbrev pub is_current : ConfirmCvDraftRequest → CvDraft → Bool
  is_current payload d = d.revision == payload.revision && d.checksum == lower payload.checksum

  -- `confirm` of a scan that has no version yet.
  unfoldable pub confirm_new :
      ProductCurrentUser → CvScan → ConfirmCvDraftRequest → Time → M ProductCvVersion
  confirm_new current scan payload now = do
    raise_if (not (is_draft_ready scan.status)) (app_error 409 Code.cv_scan_not_confirmable)
    draft ← find_draft scan.id
    raise_if (not (is_current payload draft)) (app_error 409 Code.cv_draft_revision_conflict)
    c ← target_cv current scan payload draft now
    v ← gets (new_version current c scan draft)
    update (store_version current scan draft v now)
    pure v

  -- `confirm` under the scan's lock: a scan has one version.
  unfoldable pub confirm_scan :
      ProductCurrentUser → Uuid → ConfirmCvDraftRequest → Time → M ProductCvVersion
  confirm_scan current k payload now = do
    scan ← get_scan current k
    existing ← gets (version_of_scan scan.id)
    elim existing [ some v ↦ pure v | none ↦ confirm_new current scan payload now ]

  -- `confirm`.
  unfoldable pub confirm :
      Bool → ProductCurrentUser → Uuid → ConfirmCvDraftRequest → Request → Time → M ProductCvVersion
  confirm consented current k payload q now = do
    get_scan current k
    (r, replay) ← begin q now
    if replay then replayed_resource r (get_version current) else (do
      require_consent consented
      v ← confirm_scan current k payload now
      update (complete r v.id 201 now)
      pure v)

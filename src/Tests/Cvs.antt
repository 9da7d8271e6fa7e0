-- ===== src/Tests/Cvs.antt =====
-- Runs of the CVs: drafts that are edited and confirmed.
use qatth.Base.{◌≡◌, refl, true, false, none, some, List, [], ◌∷◌, arith, zero, suc, Distinct}
use qatth.Schema.Common.{Text, Code}
use qatth.Schema.Cv.{
  Title, CvStatus, ProductCv, ScanStatus, CvScan, CvContent, CvDraft, ProductCvVersion,
}
use qatth.Db.{Db, Result, ok, err, app_error}
use qatth.Billing.Trial.{Role, ProductCurrentUser}
use qatth.Cv.Access.{scan_of}
use qatth.Cv.Confirm.{ConfirmCvDraftRequest, default_title, max_version, confirm_scan}
use qatth.Cv.Numbering.{InVersionOrder, AllVersionsBelow, confirm_once, confirm_scan-InVersionOrder}
use qatth.Cv.Register.{
  Edit, Register, compare_and_set_each, edit, edit_each, Holds, edit_each-Refines, stale_edit,
}
use qatth.Cv.Order.{ids}
use qatth.Cv.Pages.{walk, walk_ends}
use qatth.Tests.Data.{empty_db}

abbrev student : ProductCurrentUser
student = record { id = 10; role = Role.student; email_verified = true }

abbrev administrator : ProductCurrentUser
administrator = record { id = 11; role = Role.admin; email_verified = true }

abbrev content : Text → CvContent
content t = record { full_name = some 7; rest = t }

abbrev sum : CvContent → Text
sum c = suc c.rest

-- Any text but the empty one is a content.
abbrev read_content : Text → Result CvContent
read_content zero = err (app_error 422 Code.cv_draft_not_editable)
read_content (suc n) = ok (content n)

abbrev scan : CvScan
scan = record {
  id = 20;
  user_id = 10;
  file_id = 21;
  cv_id = some 23;
  parent_scan_id = none;
  attempt_number = 1;
  status = ScanStatus.draft_ready;
  schema_version = 1;
  locale_hint = none;
  error = none;
  started_at = some 1;
  completed_at = some 2;
  processing_lease_id = none;
  processing_lease_expires_at = none;
  updated_at = 2;
}

abbrev draft : CvDraft
draft = record {
  id = 22;
  scan_id = 20;
  revision = 1;
  schema_version = 1;
  content = content 5;
  checksum = 6;
  confirmed_at = none;
  updated_at = 2;
}

abbrev cv : ProductCv
cv = record {
  id = 23;
  user_id = 10;
  title = Title.my_cv;
  status = CvStatus.active;
  active_version_id = some 24;
  created_at = 1;
  updated_at = 1;
}

abbrev version : ProductCvVersion
version = record {
  id = 24;
  cv_id = 23;
  user_id = 10;
  source_scan_id = some 19;
  source_file_id = 21;
  version = 4;
  schema_version = 1;
  content = content 3;
  checksum = 4;
}

abbrev draft_db : Db
draft_db = record empty_db {
  cvs = cv ∷ [];
  scans = scan ∷ [];
  drafts = draft ∷ [];
  versions = version ∷ [];
}

abbrev edited : Edit
edited = record { revision = 1; raw = 9; at_time = 3 }

abbrev edited_late : Edit
edited_late = record { revision = 1; raw = 8; at_time = 4 }

abbrev edited_next : Edit
edited_next = record { revision = 2; raw = 7; at_time = 5 }

abbrev register : Register
register = record { revision = 1; content = content 5 }

draft_db-Holds : Holds read_content sum student 20 register draft_db
draft_db-Holds = record {
  scan = scan;
  draft = draft;
  scan_found = refl;
  seen = refl;
  ready = refl;
  found = refl;
  found_by_id = refl;
  same_revision = refl;
  same_content = refl;
  checked = refl;
}

-- Of two edits of one revision the first is accepted.
edits_run :
    (edit_each read_content sum student 20 (edited ∷ edited_late ∷ edited_next ∷ []) draft_db).0
    ≡ true ∷ false ∷ true ∷ []
unfolding edit_each edit qatth.Cv.Drafts.update_draft qatth.Cv.Access.get_scan
    qatth.Cv.Drafts.find_draft
edits_run = refl

edit_each-Refines_example :
    let es : List Edit = edited ∷ edited_late ∷ edited_next ∷ [] in
    ((edit_each read_content sum student 20 es draft_db).0
      ≡ (compare_and_set_each read_content es register).0)
    × Holds read_content sum student 20
        (compare_and_set_each read_content es register).1
        (edit_each read_content sum student 20 es draft_db).1
edit_each-Refines_example =
    edit_each-Refines read_content sum student 20 (edited ∷ edited_late ∷ edited_next ∷ []) register
      draft_db draft_db-Holds

edited_accepted : (edit read_content sum student 20 edited draft_db).0 ≡ true
unfolding edit qatth.Cv.Drafts.update_draft qatth.Cv.Access.get_scan qatth.Cv.Drafts.find_draft
edited_accepted = refl

stale_edit_example :
    let later =
      (edit_each read_content sum student 20
        (edited_next ∷ [])
        (edit read_content sum student 20 edited draft_db).1).1 in
    edit read_content sum student 20 edited_late later ≡ (false, later)
stale_edit_example =
    stale_edit read_content sum student 20 edited edited_late (edited_next ∷ []) register draft_db
      draft_db-Holds edited_accepted (omega arith)

abbrev request : ConfirmCvDraftRequest
request = record { revision = 1; checksum = 6; title = none }

abbrev another : ConfirmCvDraftRequest
another = record { revision = 3; checksum = 0; title = some 1 }

abbrev confirmed : ProductCvVersion
confirmed = record {
  id = 100;
  cv_id = 23;
  user_id = 10;
  source_scan_id = some 20;
  source_file_id = 21;
  version = 5;
  schema_version = 1;
  content = content 5;
  checksum = 6;
}

abbrev confirmed_db : Db
confirmed_db = record draft_db {
  next_id = 101;
  cvs = record cv { active_version_id = some 100; updated_at = 50 } ∷ [];
  scans =
      record scan { status = ScanStatus.confirmed; completed_at = some 50; updated_at = 50 } ∷ [];
  drafts = record draft { confirmed_at = some 50; updated_at = 50 } ∷ [];
  versions = confirmed ∷ version ∷ [];
}

confirm_run : confirm_scan (λ t. t) student 20 request 50 draft_db ≡ ok (confirmed, confirmed_db)
unfolding confirm_scan qatth.Cv.Confirm.confirm_new qatth.Cv.Access.get_scan
    qatth.Cv.Drafts.find_draft qatth.Cv.Confirm.target_cv qatth.Cv.Access.get_cv max_version
    qatth.Cv.Access.mark_stale
confirm_run = refl

confirm_once_example :
    confirm_scan (λ t. t) administrator 20 another 60 confirmed_db ≡ ok (confirmed, confirmed_db)
confirm_once_example =
    confirm_once (λ t. t) student request 50 draft_db 20 administrator another 60 {x = scan} refl
      refl confirm_run

draft_db-InVersionOrder : InVersionOrder 23 draft_db.versions
unfolding InVersionOrder AllVersionsBelow
draft_db-InVersionOrder = (λ own. tt, tt)

confirm_scan-InVersionOrder_example : InVersionOrder 23 confirmed_db.versions
confirm_scan-InVersionOrder_example =
    confirm_scan-InVersionOrder (λ t. t) student request 50 draft_db 23 20 draft_db-InVersionOrder
      confirm_run

abbrev cvs_db : Db
cvs_db = record empty_db {
  cvs =
      record cv { id = 31; created_at = 1 }
      ∷ record cv { id = 32; created_at = 3 }
      ∷ record cv { id = 33; created_at = 3 }
      ∷ record cv { id = 34; user_id = 11 }
      ∷ [];
}

different : Distinct (ids cvs_db.cvs)
different = (
  (λ e. omega (arith, e), (λ e. omega (arith, e), (λ e. omega (arith, e), tt))),
  ((λ e. omega (arith, e), (λ e. omega (arith, e), tt)), ((λ e. omega (arith, e), tt), (tt, tt))),
)

-- Two pages of two items.
walk_ends_example :
    walk student 2 cvs_db 4 none
    ≡ some (
        record cv { id = 33; created_at = 3 }
        ∷ record cv { id = 32; created_at = 3 }
        ∷ record cv { id = 31; created_at = 1 }
        ∷ [])
walk_ends_example = walk_ends student 2 cvs_db different (omega arith)

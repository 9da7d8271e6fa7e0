-- ===== src/Cv/Versions.antt =====
-- The CVs and their versions: `list_cvs`, `list_versions`, `set_active_version` and `archive` of
-- `ProductCvService`. A cursor is the pair that `_encode_cursor` writes; its text, which
-- `_decode_cursor` reads back or rejects, is a parameter.
use qatth.Base.{
  ℕ, suc, Bool, true, false, not, ◌&&◌, ◌||◌, Option, none, some, List, [], ◌∷◌, ◌==◌,
  if◌then◌else◌, find, select, sort_by, take, length, leb, ltb,
}
use qatth.Schema.Common.{Uuid, Time, Code}
use qatth.Schema.Cv.{CvStatus, ProductCv, ProductCvVersion}
use qatth.Db.{Db, M, app_error, pure, gets, or_raise, ◌>>=◌, ◌>>◌, raise_if, update}
use qatth.Billing.Trial.{ProductCurrentUser}
use qatth.Work.Idempotency.{Request, begin, complete}
use qatth.Cv.Access.{
  write_cv, get_cv, get_version, replayed_resource, is_cv_active, invalidate_candidate_profiles,
}
use qatth.Cv.Confirm.{set_active}

pub record Cursor : Type 0 where
  pub created_at : Time
  pub id : Uuid

abbrev pub cursor_of : ProductCv → Cursor
cursor_of c = record { created_at = c.created_at; id = c.id }

abbrev pub is_deleting : CvStatus → Bool
is_deleting CvStatus.deleting = true
is_deleting _ = false

-- The newest CV first, and by identifier among those of one time.
abbrev pub newer_cv : ProductCv → ProductCv → Bool
newer_cv c d = ltb d.created_at c.created_at || d.created_at == c.created_at && leb d.id c.id

-- The CV comes after the cursor.
unfoldable pub is_after : Option Cursor → ProductCv → Bool
is_after none c = true
is_after (some x) c = ltb c.created_at x.created_at || c.created_at == x.created_at && ltb c.id x.id

abbrev pub last : {A : Type 0} → List A → Option A
last [] = none
last (x ∷ []) = some x
last (x ∷ y ∷ ys) = last (y ∷ ys)

-- The page of a query's rows, at most `limit + 1` of them: the items and the next cursor.
unfoldable pub page : ℕ → List ProductCv → List ProductCv × Option Cursor
page limit records =
    let items = take limit records in
    (
      items,
      (if ltb limit (length records)
          then (elim (last items) [ none ↦ none | some c ↦ some (cursor_of c) ])
          else none),
    )

-- `list_cvs`.
unfoldable pub list_cvs :
    ProductCurrentUser → Option Cursor → ℕ → Db → List ProductCv × Option Cursor
list_cvs current cursor limit db = page limit (
    take (suc limit) (
      sort_by newer_cv (
        select (λ c. c.user_id == current.id && not (is_deleting c.status) && is_after cursor c)
          db.cvs)))

-- `list_versions`.
unfoldable pub list_versions : ProductCurrentUser → Uuid → M (List ProductCvVersion)
list_versions current k = do
  c ← get_cv current k
  gets (λ db. sort_by (λ v w. leb w.version v.version) (select (λ v. v.cv_id == c.id) db.versions))

-- `set_active_version`.
unfoldable pub set_active_version :
    ProductCurrentUser → Uuid → Uuid → Request → Time → M ProductCvVersion
set_active_version current k version q now = do
  c ← get_cv current k
  (r, replay) ← begin q now
  if replay then replayed_resource r (get_version current) else (do
    raise_if (not (is_cv_active c.status)) (app_error 409 Code.cv_archived)
    found ← gets (λ db. find (λ v. v.id == version && v.cv_id == c.id) db.versions)
    v ← or_raise found (app_error 404 Code.cv_version_not_found)
    update (write_cv c.id (set_active v.id now))
    update (invalidate_candidate_profiles current.id)
    update (complete r v.id 200 now)
    pure v)

abbrev pub set_archived : Time → ProductCv → ProductCv
set_archived now c = record c {
  status = CvStatus.archived;
  active_version_id = none;
  updated_at = now;
}

-- `archive`.
unfoldable pub archive : ProductCurrentUser → Uuid → Request → Time → M ProductCv
archive current k q now = do
  c ← get_cv current k
  (r, replay) ← begin q now
  if replay then replayed_resource r (get_cv current) else (do
    update (write_cv c.id (set_archived now))
    update (invalidate_candidate_profiles current.id)
    update (complete r c.id 200 now)
    pure (set_archived now c))

-- ===== src/Cv/Analyses.antt =====
-- Analyses of a version: `create_analysis` and `retry_analysis` of `ProductCvService`, which
-- reserve credits and hand the task to the outbox. The broker and whether the user has given
-- consent are parameters.
use qatth.Base.{
  ℕ, suc, ◌+◌, Bool, true, false, not, ◌&&◌, Option, none, some, List, [], ◌∷◌, ◌==◌, if◌then◌else◌,
  any, leb,
}
use qatth.Schema.Common.{Uuid, Text, Time, Code}
use qatth.Schema.Billing.{ReferenceType}
use qatth.Schema.Work.{Topic, OutboxEvent}
use qatth.Schema.Cv.{AnalysisStatus, CvAnalysis, ProductCvVersion}
use qatth.Db.{Db, ok, err, M, app_error, pure, gets, ◌>>=◌, ◌>>◌, raise_if, update}
use qatth.Billing.Trial.{ProductCurrentUser}
use qatth.Billing.Credits.{reserve}
use qatth.Work.Idempotency.{Request, begin, complete}
use qatth.Work.Dispatch.{enqueue, publish_resource}
use qatth.Interview.Access.{require_consent}
use qatth.Interview.Realtime.{id_of}
use qatth.Cv.Access.{version_of, write_analysis, get_analysis, replayed_resource, is_cv_active}
use qatth.Cv.Drafts.{usable_version}

-- The feature "cv_analysis".
abbrev pub analysis_feature : Text
analysis_feature = 1

abbrev pub new_analysis : Uuid → Uuid → Option Uuid → ℕ → Time → Db → CvAnalysis
new_analysis user version parent attempt now db = record {
  id = db.next_id;
  user_id = user;
  cv_version_id = version;
  parent_analysis_id = parent;
  attempt_number = attempt;
  status = AnalysisStatus.queued;
  output = none;
  error = none;
  credit_reservation_id = none;
  started_at = none;
  completed_at = none;
  processing_lease_id = none;
  processing_lease_expires_at = none;
  updated_at = now;
}

abbrev pub add_analysis : CvAnalysis → Db → Db
add_analysis x db = record db { next_id = suc db.next_id; analyses = x ∷ db.analyses }

abbrev pub set_reservation : Option Uuid → CvAnalysis → CvAnalysis
set_reservation r x = record x { credit_reservation_id = r }

-- The greatest attempt number of a version's analyses, and 0 where there is none.
unfoldable pub max_analysis_attempt : Uuid → List CvAnalysis → ℕ
max_analysis_attempt k [] = 0
max_analysis_attempt k (x ∷ xs) =
    let rest = max_analysis_attempt k xs in
    if x.cv_version_id == k && leb rest x.attempt_number then x.attempt_number else rest

abbrev pub is_failed_analysis : AnalysisStatus → Bool
is_failed_analysis AnalysisStatus.failed = true
is_failed_analysis _ = false

-- The version of a retried analysis, whose CV must be active still.
unfoldable pub active_version : Uuid → M ProductCvVersion
active_version k db = elim (version_of k db) [
  | none ↦ err (app_error 409 Code.cv_archived)
  | some v ↦
      if any (λ c. c.id == v.cv_id && is_cv_active c.status) db.cvs
      then ok (v, db)
      else err (app_error 409 Code.cv_archived)
]

module _ (broker : OutboxEvent → Option Text) where
  -- `_dispatch_analysis`.
  abbrev pub dispatch_analysis : Uuid → Time → Db → Db
  dispatch_analysis k now db = (publish_resource broker now Topic.cv_analyze k db).1

  module _ (current : ProductCurrentUser) (q : Request) (consented : Bool) (now : Time) where
    -- A new analysis: stored, its credits reserved, enqueued, the request completed, dispatched.
    unfoldable pub start_analysis : (Db → CvAnalysis) → (Uuid → Db → Db) → M CvAnalysis
    start_analysis new complete_request = do
      x ← gets new
      update (add_analysis x)
      credit ← reserve current analysis_feature ReferenceType.cv_analysis x.id none none now
      update (write_analysis x.id (set_reservation (id_of credit)))
      update (λ db. (enqueue Topic.cv_analyze x.id now db).1)
      update (complete_request x.id)
      update (dispatch_analysis x.id now)
      pure (set_reservation (id_of credit) x)

    -- `create_analysis`.
    unfoldable pub create_analysis : Uuid → M CvAnalysis
    create_analysis k = do
      (r, replay) ← begin q now
      if replay then replayed_resource r (get_analysis current) else (do
        require_consent consented
        v ← usable_version current k
        start_analysis (new_analysis current.id v.id none 1 now) (λ j. complete r j 202 now))

    -- `retry_analysis`.
    unfoldable pub retry_analysis : Uuid → M CvAnalysis
    retry_analysis k = do
      original ← get_analysis current k
      (r, replay) ← begin q now
      if replay then replayed_resource r (get_analysis current) else (do
        require_consent consented
        raise_if (not (is_failed_analysis original.status))
            (app_error 409 Code.cv_analysis_not_retryable)
        v ← active_version original.cv_version_id
        attempt ← gets (λ db. max_analysis_attempt original.cv_version_id db.analyses + 1)
        start_analysis (new_analysis current.id v.id (some original.id) attempt now)
            (λ j. complete r j 202 now))

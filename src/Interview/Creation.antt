-- ===== src/Interview/Creation.antt =====
-- The creation of an interview: `create` and `_plan` of `ProductInterviewService`. The model that is
-- deployed (`runtime_model_configuration`), the versions of the rubric and the prompt that the
-- environment gives, and whether the user has given consent are parameters.
use qatth.Base.{
  ℕ, suc, ◌≤◌, ◌≡◌, refl, Bool, true, false, ◌&&◌, Option, none, some, List, [], ◌∷◌, ◌==◌,
  if◌then◌else◌, find, any, length, arith,
}
use qatth.Schema.Common.{Uuid, Text, Time, Code}
use qatth.Schema.Cv.{ProductCvVersion}
use qatth.Schema.Interview.{
  InterviewStatus, InterviewType, Dimension, JobStatus, ProductJob, CvSnapshot, JobSnapshot,
  PlanSnapshot, ProductInterview,
}
use qatth.Db.{Db, Result, ok, err, M, app_error, ◌>>=◌, ◌>>◌, pure, gets, update, raise_if}
use qatth.Billing.Trial.{ProductCurrentUser}
use qatth.Work.Idempotency.{
  Request, is_request, new_record, add_record, set_request_completed, begin, complete,
}
use qatth.Cv.Access.{version_of, is_cv_active}
use qatth.Cv.Drafts.{usable_version}
use qatth.Interview.Access.{require_consent, replayed_interview, get_interview, interview_of}

pub record CreateInterviewRequest : Type 0 where
  pub cv_version_id : Uuid
  pub job_id : Option Uuid
  pub target_role : Text
  pub interview_type : InterviewType
  pub language : Text
  pub duration_minutes : ℕ

-- What `runtime_model_configuration` returns; no version stands for "environment".
pub record Runtime : Type 0 where
  pub model : Text
  pub version : Option Text
  pub instruction_prefix : Option Text

pub record Versions : Type 0 where
  pub rubric : Text
  pub prompt : Text

abbrev pub is_job_active : JobStatus → Bool
is_job_active JobStatus.active = true
is_job_active _ = false

abbrev pub snapshot_of_job : ProductJob → JobSnapshot
snapshot_of_job j = record {
  job_id = j.id;
  title = j.title;
  company_name = j.company_name;
  location = j.location_text;
  description = j.description_text;
  skills = j.skills;
  verified_at = j.verified_at;
}

-- `job_snapshot`.
unfoldable pub find_job : Option Uuid → M (Option JobSnapshot)
find_job none db = ok (none, db)
find_job (some k) db = elim (find (λ j. j.id == k && is_job_active j.status) db.jobs) [
  | none ↦ err (app_error 404 Code.job_not_found)
  | some j ↦ ok (some (snapshot_of_job j), db)
]

-- No job has no snapshot.
abbrev snapshot : Option ProductJob → Option JobSnapshot
snapshot none = none
snapshot (some j) = some (snapshot_of_job j)

abbrev pub snapshot_of_cv : ProductCvVersion → CvSnapshot
snapshot_of_cv v = record {
  version_id = v.id;
  schema_version = v.schema_version;
  checksum = v.checksum;
  content = v.content;
}

abbrev pub dimensions : InterviewType → List Dimension
dimensions InterviewType.behavioral =
    Dimension.communication ∷ Dimension.ownership ∷ Dimension.teamwork ∷ Dimension.learning ∷ []
dimensions InterviewType.technical =
    Dimension.technical_depth ∷ Dimension.problem_solving ∷ Dimension.tradeoffs ∷ Dimension.evidence
    ∷ []
dimensions InterviewType.mixed =
    Dimension.communication ∷ Dimension.technical_depth ∷ Dimension.problem_solving
    ∷ Dimension.role_fit ∷ []

-- `_plan`, with the prefix that `create` adds.
abbrev pub plan : CreateInterviewRequest → Option Text → PlanSnapshot
plan payload prefix = record {
  target_role = payload.target_role;
  interview_type = payload.interview_type;
  language = payload.language;
  duration_minutes = payload.duration_minutes;
  dimensions = dimensions payload.interview_type;
  instruction_prefix = prefix;
}

abbrev pub prompt_of : Option Text → Text → Text
prompt_of none t = t
prompt_of (some v) t = v

abbrev pub new_interview :
    Versions
    → ProductCurrentUser
    → CreateInterviewRequest
    → ProductCvVersion
    → Runtime
    → Option JobSnapshot
    → Time
    → Db
    → ProductInterview
new_interview versions current payload v runtime job now db = record {
  id = db.next_id;
  user_id = current.id;
  cv_version_id = v.id;
  job_id = payload.job_id;
  target_role = payload.target_role;
  interview_type = payload.interview_type;
  language = payload.language;
  duration_minutes = payload.duration_minutes;
  status = InterviewStatus.ready;
  cv_snapshot = snapshot_of_cv v;
  job_snapshot = job;
  plan_snapshot = plan payload runtime.instruction_prefix;
  rubric_version = versions.rubric;
  prompt_version = prompt_of runtime.version versions.prompt;
  gemini_model = runtime.model;
  gemini_resumption_handle = none;
  credit_reservation_id = none;
  billable_started_at = none;
  billable_event_id = none;
  failure = none;
  ended_reason = none;
  started_at = none;
  ended_at = none;
  reconnect_until = none;
  created_at = now;
}

abbrev pub add_interview : ProductInterview → Db → Db
add_interview x db = record db { next_id = suc db.next_id; interviews = x ∷ db.interviews }

-- The configuration that is deployed, or its error.
abbrev pub read_runtime : Result Runtime → M Runtime
read_runtime (ok r) db = ok (r, db)
read_runtime (err e) db = err e

-- `create`.
unfoldable pub create_interview :
    Versions
    → Result Runtime
    → Bool
    → ProductCurrentUser
    → CreateInterviewRequest
    → Request
    → Time
    → M ProductInterview
create_interview versions deployed consented current payload q now = do
  (r, replay) ← begin q now
  (if replay then replayed_interview current r else do
    require_consent consented
    v ← usable_version current payload.cv_version_id
    runtime ← read_runtime deployed
    job ← find_job payload.job_id
    x ← gets (new_interview versions current payload v runtime job now)
    update (add_interview x)
    update (complete r x.id 201 now)
    pure x)

four_dimensions : (t : InterviewType) → length (dimensions t) ≡ 4
four_dimensions InterviewType.behavioral = refl
four_dimensions InterviewType.technical = refl
four_dimensions InterviewType.mixed = refl

-- No job, or the job as it is in the table.
abbrev pub KeepsJob : Option ProductJob → Option JobSnapshot → Type 0
KeepsJob none s = s ≡ none
KeepsJob (some j) s =
    (t : JobSnapshot) × (s ≡ some t)
    × (t.job_id ≡ j.id)
    × (t.title ≡ j.title)
    × (t.company_name ≡ j.company_name)
    × (t.location ≡ j.location_text)
    × (t.description ≡ j.description_text)
    × (t.skills ≡ j.skills)
    × (t.verified_at ≡ j.verified_at)

module _ (versions : Versions) (runtime : Runtime) (current : ProductCurrentUser)
    (payload : CreateInterviewRequest) (q : Request) (now : Time) (db : Db) where
  abbrev begun : Db
  begun = add_record (new_record q now db) db

  abbrev pub created : ProductCvVersion → Option JobSnapshot → ProductInterview
  created v job = new_interview versions current payload v runtime job now begun

  abbrev pub created_db : ProductCvVersion → Option JobSnapshot → Db
  created_db v job =
      complete (new_record q now db) (created v job).id 201 now
        (add_interview (created v job) begun)

  -- What is promised of a new interview.
  abbrev pub IsReady : ProductCvVersion → Option ProductJob → ProductInterview → Type 0
  IsReady v job x =
      (x.user_id ≡ current.id)
      × (x.status ≡ InterviewStatus.ready)
      × (x.credit_reservation_id ≡ none)
      × (x.started_at ≡ none)
      × (x.cv_version_id ≡ v.id)
      × (x.cv_snapshot.version_id ≡ v.id)
      × (x.cv_snapshot.schema_version ≡ v.schema_version)
      × (x.cv_snapshot.checksum ≡ v.checksum)
      × (x.cv_snapshot.content ≡ v.content)
      × KeepsJob job x.job_snapshot
      × (x.duration_minutes ≡ payload.duration_minutes)
      × (x.plan_snapshot.target_role ≡ payload.target_role)
      × (x.plan_snapshot.interview_type ≡ payload.interview_type)
      × (x.plan_snapshot.duration_minutes ≡ payload.duration_minutes)
      × (length x.plan_snapshot.dimensions ≡ 4)

  -- The request names no job, or an active one of the table.
  abbrev pub Names : Option ProductJob → Type 0
  Names none = payload.job_id ≡ none
  Names (some j) =
      (payload.job_id ≡ some j.id)
      × (find (λ y. y.id == j.id && is_job_active y.status) db.jobs ≡ some j)

  job_read :
      (job : Option ProductJob)
      → Names job
      → find_job payload.job_id begun ≡ ok (snapshot job, begun)
  unfolding find_job
  job_read none h = rw h refl
  job_read (some j) (h, there) = rw (h, find_job, there) refl

  job_kept : (job : Option ProductJob) → KeepsJob job (snapshot job)
  job_kept none = refl
  job_kept (some j) = (snapshot_of_job j, refl, refl, refl, refl, refl, refl, refl, refl)

  version_read :
      {v : ProductCvVersion}
      → version_of payload.cv_version_id db ≡ some v
      → v.user_id ≡ current.id
      → any (λ c. c.id == v.cv_id && is_cv_active c.status) db.cvs ≡ true
      → usable_version current payload.cv_version_id begun ≡ ok (v, begun)
  unfolding usable_version
  version_read {v} there own active =
      let mine : (v.user_id == current.id) ≡ true = ground arith in
      rw (usable_version, there, mine, active) refl

  module _ (low : 8 ≤ q.key.size) (high : q.key.size ≤ 128)
      (fresh : find (is_request q) db.requests ≡ none) where
    begin_new : begin q now db ≡ ok ((new_record q now db, false), begun)
    unfolding begin
    begin_new = ground arith

    begin_again :
        (later : Time) (v : ProductCvVersion) (job : Option JobSnapshot)
        → begin q later (created_db v job)
          ≡ ok (
            (set_request_completed (created v job).id 201 now (new_record q now db), true),
            created_db v job,
          )
    unfolding begin complete
    begin_again later v job = ground arith

    create_runs :
        (other : Result Runtime) (later : Time) {v : ProductCvVersion} {job : Option JobSnapshot}
        → usable_version current payload.cv_version_id begun ≡ ok (v, begun)
        → find_job payload.job_id begun ≡ ok (job, begun)
        → (create_interview versions (ok runtime) true current payload q now db
            ≡ ok (created v job, created_db v job))
          × (create_interview versions other true current payload q later (created_db v job)
              ≡ ok (created v job, created_db v job))
    unfolding create_interview replayed_interview get_interview complete
    create_runs other later {v} {job} usable found = (
      rw (create_interview, raise_if, ◌>>◌, ◌>>=◌, begin_new, usable, found) refl,
      rw (create_interview, ◌>>=◌, begin_again later v job, replayed_interview, get_interview)
          (grind arith),
    )

    -- A new request of a user with consent, for a version of an active CV of the user and no job or
    -- an active one, creates a ready interview of the user without a credit reservation. It keeps
    -- the version's content and the job as they were, and a plan of four dimensions for the role,
    -- type and duration that were asked for. The same request, at any later time and whatever is
    -- deployed by then, returns this interview and changes nothing.
    pub create_once :
        (other : Result Runtime) (later : Time) (job : Option ProductJob) {v : ProductCvVersion}
        → version_of payload.cv_version_id db ≡ some v
        → v.user_id ≡ current.id
        → any (λ c. c.id == v.cv_id && is_cv_active c.status) db.cvs ≡ true
        → Names job
        → (x : ProductInterview) × (db' : Db) × (create_interview versions
              (ok runtime)
              true
              current
              payload
              q
              now
              db
            ≡ ok (x, db'))
          × IsReady v job x
          × (interview_of x.id db' ≡ some x)
          × (create_interview versions other true current payload q later db' ≡ ok (x, db'))
    unfolding complete
    create_once other later job {v} there own active named =
        let (first, second) =
          create_runs other later (version_read there own active) (job_read job named) in
        (
          created v (snapshot job),
          created_db v (snapshot job),
          first,
          (
            refl,
            refl,
            refl,
            refl,
            refl,
            refl,
            refl,
            refl,
            refl,
            job_kept job,
            refl,
            refl,
            refl,
            refl,
            four_dimensions payload.interview_type,
          ),
          ground arith,
          second,
        )

-- ===== src/Work/Leases.antt =====
-- The processing leases of `ProductTaskLeaseService`, backend/app/services/task_leases.py: one
-- resource (a scan or an analysis) with the columns that the service reads. A report, which waits
-- and is processed under one status, is left out.
use qatth.Base.{
  ℕ, ◌+◌, Bool, true, false, not, ◌&&◌, ◌||◌, Option, none, some, ◌==◌, if◌then◌else◌, is_some,
  some_and, leb, ltb, opt_eq,
}
use qatth.Schema.Common.{Text, Time}
use qatth.Schema.Work.{LastError, OutboxEvent}

-- The two statuses that a lease moves a resource between, and any other.
pub data WorkStatus : Type 0 where
  waiting active : WorkStatus
  settled : Text → WorkStatus

pub record Resource : Type 0 where
  pub status : WorkStatus
  pub processing_lease_id : Option Text
  pub processing_lease_expires_at : Option Time
  pub updated_at : Time

abbrev pub lease_duration : ℕ
lease_duration = 900

-- Another worker's lease that has not run out.
abbrev pub is_held_by_other : Text → Time → Resource → Bool
is_held_by_other lease now r =
    some_and r.processing_lease_id (λ k. not (k == lease))
    && some_and r.processing_lease_expires_at (λ t. ltb now t)

-- `claim`.
unfoldable pub claim : Text → Time → Resource → Bool × Resource
claim lease now r = if is_held_by_other lease now r then (false, r) else (
  true,
  record r {
    processing_lease_id = some lease;
    processing_lease_expires_at = some (now + lease_duration);
    status = WorkStatus.active;
  },
)

-- `owns`.
unfoldable pub owns : Text → Resource → Bool
owns lease r = opt_eq r.processing_lease_id (some lease)

-- `clear`.
unfoldable pub clear : Resource → Resource
clear r = record r { processing_lease_id = none; processing_lease_expires_at = none }

abbrev pub is_active : WorkStatus → Bool
is_active WorkStatus.active = true
is_active _ = false

-- The test of `recover_stalled`: the lease has run out, or a resource without a lease has not been
-- touched for as long as a lease lasts.
abbrev pub lease_expired : Time → Resource → Bool
lease_expired now r =
    is_active r.status
    && (some_and r.processing_lease_expires_at (λ t. leb t now)
        || not (is_some r.processing_lease_id) && leb (r.updated_at + lease_duration) now)

-- One candidate of `recover_stalled` that has an event: it waits again, and its event is due.
unfoldable pub recover : Time → Resource × OutboxEvent → Bool × (Resource × OutboxEvent)
recover now (r, e) =
    if lease_expired now r
    then (
      true,
      (
        clear (record r { status = WorkStatus.waiting }),
        record e {
          published_at = none;
          available_at = now;
          last_error = some LastError.processing_lease_expired;
        },
      ),
    )
    else (false, (r, e))

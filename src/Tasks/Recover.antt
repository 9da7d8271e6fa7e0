-- ===== src/Tasks/Recover.antt =====
-- `recover_stalled` of backend/app/services/task_leases.py: the rows of the three leased tables
-- whose task was lost get a new event, or have their event published again.
use qatth.Base.{
  ℕ, suc, ◌+◌, ◌-◌, Bool, true, false, Option, none, some, List, [], ◌∷◌, if◌then◌else◌, find,
  select, sort_by, take, leb,
}
use qatth.Schema.Common.{Text, Time}
use qatth.Schema.Work.{OutboxEvent}
use qatth.Db.{Db}
use qatth.Work.Leases.{WorkStatus, recover}
use qatth.Work.Dispatch.{has_dedup, enqueue, write_event, publish_pending}
use qatth.Tasks.Leased.{Leased, leased_scans, leased_analyses, leased_reports}

-- The counts of what was recovered and what got an event.
pub record Recovered : Type 0 where
  pub recovered : ℕ
  pub backfilled : ℕ

-- Waiting or active.
abbrev pub is_open_work : WorkStatus → Bool
is_open_work (WorkStatus.settled t) = false
is_open_work _ = true

module _ {R : Type 0} (table : Leased R) (now : Time) where
  -- One candidate of the loop.
  unfoldable pub recover_one : R → Recovered → Db → Recovered × Db
  recover_one x n db = elim (find (has_dedup table.topic (table.id x)) db.outbox) [
    | none ↦
        (record n { backfilled = suc n.backfilled }, (enqueue table.topic (table.id x) now db).1)
    | some e ↦
        let (stalled, (r, e')) = recover now (table.resource x, e) in
        if stalled
        then (
          record n { recovered = suc n.recovered },
          write_event e.id (λ y. e') (table.write (table.id x) (table.with_resource r now) db),
        )
        else (n, db)
  ]

  unfoldable pub recover_each : List R → Recovered → Db → Recovered × Db
  recover_each [] n db = (n, db)
  recover_each (x ∷ xs) n db = let (m, db') = recover_one x n db in recover_each xs m db'

  -- One specification of the loop over the tables: the rows touched longest ago, up to the limit.
  -- Where the counts have reached the limit, the limit that is left is 0.
  unfoldable pub recover_table : ℕ → Recovered → Db → Recovered × Db
  recover_table limit n db =
      recover_each
        (take (limit - (n.recovered + n.backfilled)) (
          sort_by (λ x y. leb (table.resource x).updated_at (table.resource y).updated_at)
            (select (λ x. is_open_work (table.resource x).status) (table.rows db))))
        n db

-- `recover_stalled`, and the number of events that were published.
unfoldable pub recover_stalled : (OutboxEvent → Option Text) → ℕ → Time → Db → (Recovered × ℕ) × Db
recover_stalled broker limit now db =
    let (a, db₁) =
      recover_table leased_scans now limit (record { recovered = 0; backfilled = 0 }) db in
    let (b, db₂) = recover_table leased_analyses now limit a db₁ in
    let (c, db₃) = recover_table leased_reports now limit b db₂ in
    let (published, db₄) = publish_pending broker now limit db₃ in ((c, published), db₄)

-- ===== src/Billing/Commands.antt =====
-- Idempotent administrator commands: `_command` and `_complete_command` of
-- `ProductBillingService`. The hash of a request (SHA-256 over its JSON) is a parameter.
use qatth.Base.{
  suc, Bool, true, false, not, ◌&&◌, Option, none, some, ◌∷◌, ◌==◌, if◌then◌else◌, find, modify,
}
use qatth.Schema.Common.{Uuid, Text, Time, Code}
use qatth.Schema.Billing.{CommandType, CommandStatus, BillingCommand}
use qatth.Db.{Db, ok, err, M, app_error, retryable_error}
use CommandType.{
  create_portal_session, create_billing_catalog, publish_signup_trial_policy,
  request_credit_adjustment, activate_billing_catalog, approve_credit_adjustment,
  reject_credit_adjustment, set_feature_price,
}

abbrev pub command_eq : CommandType → CommandType → Bool
command_eq create_portal_session create_portal_session = true
command_eq create_billing_catalog create_billing_catalog = true
command_eq publish_signup_trial_policy publish_signup_trial_policy = true
command_eq request_credit_adjustment request_credit_adjustment = true
command_eq (activate_billing_catalog a) (activate_billing_catalog b) = a == b
command_eq (approve_credit_adjustment a) (approve_credit_adjustment b) = a == b
command_eq (reject_credit_adjustment a) (reject_credit_adjustment b) = a == b
command_eq (set_feature_price a k) (set_feature_price b j) = a == b && k == j
command_eq _ _ = false

abbrev pub is_command : Uuid → CommandType → Text → BillingCommand → Bool
is_command actor t key c =
    c.actor_user_id == actor && command_eq c.command_type t && c.idempotency_key == key

abbrev pub is_completed : CommandStatus → Bool
is_completed CommandStatus.completed = true
is_completed CommandStatus.processing = false

abbrev pub new_command : Uuid → CommandType → Text → Text → Db → BillingCommand
new_command actor t key hash db = record {
  id = db.next_id;
  actor_user_id = actor;
  command_type = t;
  idempotency_key = key;
  request_hash = hash;
  status = CommandStatus.processing;
  resource_id = none;
  completed_at = none;
}

abbrev pub add_command : BillingCommand → Db → Db
add_command c db = record db { next_id = suc db.next_id; commands = c ∷ db.commands }

-- `_command`: the command, and whether it is a replay of one that has completed.
unfoldable pub command : Uuid → CommandType → Text → Text → M (BillingCommand × Bool)
command actor t key hash db = elim (find (is_command actor t key) db.commands) [
  | some c ↦
      if not (c.request_hash == hash)
      then err (app_error 409 Code.idempotency_key_reused)
      else if not (is_completed c.status)
      then err (retryable_error 409 Code.idempotent_command_in_progress)
      else ok ((c, true), db)
  | none ↦
      ok
        ((new_command actor t key hash db, false), add_command (new_command actor t key hash db) db)
]

abbrev pub set_completed : Option Uuid → Time → BillingCommand → BillingCommand
set_completed resource now c = record c {
  status = CommandStatus.completed;
  resource_id = resource;
  completed_at = some now;
}

-- `_complete_command`.
unfoldable pub complete_command : BillingCommand → Option Uuid → Time → Db → Db
complete_command c resource now db = record db {
  commands = modify (λ x. x.id == c.id) (set_completed resource now) db.commands;
}

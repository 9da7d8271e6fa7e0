-- ===== src/Billing/Replay.antt =====
-- Commands of backend/app/services/product_billing.py that are sent again.
use qatth.Base.{◌≡◌, refl, true, false, none, Option, find, arith}
use qatth.Schema.Common.{Uuid, Text, Time, Code}
use qatth.Schema.Billing.{CommandType, BillingCommand}
use qatth.Db.{Db, ok, err, app_error, retryable_error}
use qatth.Billing.Commands.{
  command_eq, is_command, command, complete_command, new_command, add_command, set_completed,
}
use CommandType.{
  create_portal_session, create_billing_catalog, publish_signup_trial_policy,
  request_credit_adjustment, activate_billing_catalog, approve_credit_adjustment,
  reject_credit_adjustment, set_feature_price,
}

command_eq_refl : (t : CommandType) → command_eq t t ≡ true
command_eq_refl create_portal_session = refl
command_eq_refl create_billing_catalog = refl
command_eq_refl publish_signup_trial_policy = refl
command_eq_refl request_credit_adjustment = refl
command_eq_refl (activate_billing_catalog a) = ground arith
command_eq_refl (approve_credit_adjustment a) = ground arith
command_eq_refl (reject_credit_adjustment a) = ground arith
command_eq_refl (set_feature_price a k) = ground arith

-- A command that is new, run and completed is afterwards a replay with its resource for the same
-- actor, type, key and request, changes nothing, and is rejected for any other request; before it
-- is completed, the same request is told to try again.
command-complete_command :
    (actor : Uuid) (t : CommandType) (key hash : Text) (resource : Option Uuid) (now : Time)
    (db : Db)
    → find (is_command actor t key) db.commands ≡ none
    → (c : BillingCommand) × (db' : Db) × (command actor t key hash db ≡ ok ((c, false), db'))
      × (command actor t key hash db'
          ≡ err (retryable_error 409 Code.idempotent_command_in_progress))
      × (command actor t key hash (complete_command c resource now db')
          ≡ ok ((set_completed resource now c, true), complete_command c resource now db'))
      × ((other : Text)
          → ¬ (other ≡ hash)
          → command actor t key other (complete_command c resource now db')
            ≡ err (app_error 409 Code.idempotency_key_reused))
unfolding command complete_command
command-complete_command actor t key hash resource now db fresh = (
  new_command actor t key hash db,
  add_command (new_command actor t key hash db) db,
  ground arith,
  ground (arith, command_eq_refl t),
  ground (arith, command_eq_refl t),
  λ other ne. ground (arith, command_eq_refl t),
)

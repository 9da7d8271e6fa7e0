-- ===== src/Billing/Trial.antt =====
-- The catalog and the signup trial: `active_catalog`, `active_trial_policy` and
-- `ensure_signup_trial` of `ProductBillingService`, and the current user of
-- backend/app/core/identity_security.py as far as the services read it.
use qatth.Base.{
  ℕ, suc, ◌+◌, ◌*◌, Bool, not, ◌&&◌, ◌||◌, none, some, ◌∷◌, ◌==◌, if◌then◌else◌, some_and, is_some,
  select, find, first, sort_by, leb, ltb,
}
use qatth.Schema.Common.{Uuid, Text, Time, Code}
use qatth.Schema.Billing.{
  BillingCatalogVersion, SignupTrialPolicy, SignupTrialGrant, BucketType, Key, ReferenceType,
}
use qatth.Db.{Db, ok, M, app_error, pure, gets, or_raise, ◌>>=◌, update, is_draft}
use qatth.Billing.Accounts.{account, grant_bucket}

pub data Role : Type 0 where
  student admin : Role

pub record ProductCurrentUser : Type 0 where
  pub id : Uuid
  pub role : Role
  pub email_verified : Bool

-- The texts "VN" and "VND".
abbrev pub market_vn : Text
market_vn = 84

abbrev pub currency_vnd : Text
currency_vnd = 704

abbrev pub days : ℕ → Time
days n = n * 86400

-- Published, begun by `now` and not yet ended.
abbrev pub is_effective : Time → BillingCatalogVersion → Bool
is_effective now c =
    not (is_draft c.status)
    && some_and c.effective_from (λ t. leb t now)
    && not (some_and c.effective_to (λ t. leb t now))

abbrev pub from_of : BillingCatalogVersion → Time
from_of c = elim (c.effective_from) [ none ↦ 0 | some t ↦ t ]

unfoldable pub active_catalog : Time → M BillingCatalogVersion
active_catalog now db =
    or_raise
      (first (
        sort_by (λ c d. leb (from_of d) (from_of c))
          (select (λ c. c.market == market_vn && c.currency == currency_vnd && is_effective now c)
            db.catalogs)))
      (app_error 503 Code.billing_catalog_unavailable) db

abbrev pub newer_policy : SignupTrialPolicy → SignupTrialPolicy → Bool
newer_policy p q =
    ltb q.effective_from p.effective_from
    || p.effective_from == q.effective_from && leb q.created_at p.created_at

unfoldable pub active_trial_policy : Time → M SignupTrialPolicy
active_trial_policy now db =
    or_raise (first (sort_by newer_policy (select (λ p. leb p.effective_from now) db.policies)))
      (app_error 503 Code.trial_policy_unavailable) db

abbrev pub has_grant : Uuid → SignupTrialPolicy → SignupTrialGrant → Bool
has_grant user_id policy g = g.user_id == user_id && g.policy_key == policy.policy_key

abbrev pub new_grant : Uuid → SignupTrialPolicy → Uuid → Db → SignupTrialGrant
new_grant user_id policy bucket_id db = record {
  id = db.next_id;
  user_id = user_id;
  policy_id = policy.id;
  policy_key = policy.policy_key;
  bucket_id = bucket_id;
}

abbrev pub add_grant : SignupTrialGrant → Db → Db
add_grant g db = record db { next_id = suc db.next_id; trial_grants = g ∷ db.trial_grants }

-- The grant itself, under the account's lock. The second look for a grant finds what the first
-- one found, since a call is atomic here.
unfoldable pub grant_trial : Uuid → SignupTrialPolicy → Time → M (Unit {0})
grant_trial user_id policy now = do
  a ← account user_id
  b ←
      grant_bucket a.id BucketType.trial (Key.trial_key policy.id user_id) policy.credit_grant
        (some (now + days policy.valid_days)) ReferenceType.signup_trial policy.id
        (Key.trial_key policy.id user_id) now
  g ← gets (new_grant user_id policy b.id)
  update (add_grant g)

-- A verified user gets the trial of an enabled policy once.
unfoldable pub ensure_signup_trial : ProductCurrentUser → Time → M (Unit {0})
ensure_signup_trial current now db =
    if not current.email_verified
    then ok (tt, db)
    else (do
      policy ← active_trial_policy now
      granted ← gets (λ d. is_some (find (has_grant current.id policy) d.trial_grants))
      if not policy.enabled || granted then pure tt else grant_trial current.id policy now)
        db

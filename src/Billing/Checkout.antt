-- ===== src/Billing/Checkout.antt =====
-- Checkout and portal sessions: `create_checkout`, `create_portal` and `_validate_redirect` of
-- `ProductBillingService`. `urlsplit` and the payment adapter are parameters: a URL comes with its
-- scheme and its origin, and the adapter answers with a session or raises.
use qatth.Base.{
  suc, ◌+◌, Bool, true, false, not, ◌&&◌, ◌||◌, Option, none, some, List, ◌∷◌, ◌==◌, if◌then◌else◌,
  some_and, is_some, find, first, modify, select, sort_by, any, leb,
}
use qatth.Schema.Common.{Uuid, Text, Time, Code}
use qatth.Schema.Billing.{
  BillingOffer, BillingCatalogVersion, BillingSubscription, CommandType, CheckoutStatus,
  BillingCheckoutSession,
}
use qatth.Db.{Db, Result, ok, err, M, app_error, pure, raise, gets, or_raise, ◌>>=◌, ◌>>◌, update}
use qatth.Billing.Trial.{active_catalog}
use qatth.Billing.Commands.{command, complete_command}
use qatth.Billing.Reversals.{lift}

pub data Scheme : Type 0 where
  https http : Scheme
  other_scheme : Text → Scheme

-- `urlsplit(value)`: the text, its scheme, and its origin without a trailing slash; `none` where
-- the URL names no host.
pub record Url : Type 0 where
  pub text : Text
  pub scheme : Scheme
  pub origin : Option Text

pub record RedirectSettings : Type 0 where
  pub allowlist : List Url
  pub is_local : Bool

abbrev pub is_https : Scheme → Bool
is_https Scheme.https = true
is_https _ = false

abbrev pub is_http : Scheme → Bool
is_http Scheme.http = true
is_http _ = false

-- The origin is one of the allow-list's; an entry without a host allows nothing.
abbrev pub is_allowed : List Url → Option Text → Bool
is_allowed us origin = some_and origin (λ o. any (λ u. some_and u.origin (λ p. p == o)) us)

-- `_validate_redirect`: HTTPS, or plain HTTP in a local environment, to an allowed origin.
unfoldable pub validate_redirect : RedirectSettings → Url → Result (Unit {0})
validate_redirect s u =
    if not (is_https u.scheme) && not (s.is_local && is_http u.scheme)
      || not (is_some u.origin)
      || not (is_allowed s.allowlist u.origin)
    then err (app_error 422 Code.payment_redirect_not_allowed)
    else ok tt

pub record RedirectSession : Type 0 where
  pub provider_session_id : Text
  pub url : Text
  pub expires_at : Time

pub record Adapter : Type 0 where
  pub provider : Text
  pub create_checkout : Uuid → Result RedirectSession
  pub create_portal : Text → Text → Url → Result RedirectSession

pub record CheckoutRequest : Type 0 where
  pub offer_id : Uuid
  pub success_url : Url
  pub cancel_url : Url

abbrev pub is_checkout_of : Uuid → Text → BillingCheckoutSession → Bool
is_checkout_of user key c = c.user_id == user && some_and c.idempotency_key (λ k. k == key)

abbrev pub new_checkout :
    Uuid
    → BillingOffer
    → BillingCatalogVersion
    → Text
    → CheckoutRequest
    → Option Text
    → Text
    → Time
    → Db
    → BillingCheckoutSession
new_checkout user offer catalog provider payload key hash now db = record {
  id = db.next_id;
  user_id = user;
  offer_id = offer.id;
  catalog_version_id = catalog.id;
  provider = provider;
  provider_session_id = none;
  status = CheckoutStatus.created;
  success_url = payload.success_url.text;
  cancel_url = payload.cancel_url.text;
  redirect_url = none;
  idempotency_key = key;
  request_hash = some hash;
  expires_at = now + 1800;
  completed_at = none;
}

abbrev pub set_session : RedirectSession → BillingCheckoutSession → BillingCheckoutSession
set_session s c = record c {
  provider_session_id = some s.provider_session_id;
  redirect_url = some s.url;
  expires_at = s.expires_at;
}

abbrev pub offer_on_sale : Uuid → BillingCatalogVersion → Db → Option BillingOffer
offer_on_sale k catalog db =
    find (λ o. o.id == k && o.catalog_version_id == catalog.id && o.active) db.offers

-- The checkout of a request that is new.
unfoldable pub open_checkout :
    RedirectSettings
    → Adapter
    → Uuid
    → CheckoutRequest
    → Option Text
    → Text
    → Time
    → M BillingCheckoutSession
open_checkout s adapter user payload key hash now = do
  catalog ← active_catalog now
  found ← gets (offer_on_sale payload.offer_id catalog)
  offer ← or_raise found (app_error 404 Code.billing_offer_not_found)
  lift (validate_redirect s payload.success_url)
  lift (validate_redirect s payload.cancel_url)
  c ← gets (new_checkout user offer catalog adapter.provider payload key hash now)
  update (λ db. record db { next_id = suc db.next_id; checkouts = c ∷ db.checkouts })
  session ← lift (adapter.create_checkout c.id)
  update (λ db. record db {
    checkouts = modify (λ x. x.id == c.id) (set_session session) db.checkouts;
  })
  pure (set_session session c)

-- `create_checkout`: a key that was used returns its checkout, for the same request.
unfoldable pub create_checkout :
    RedirectSettings
    → Adapter
    → Uuid
    → CheckoutRequest
    → Option Text
    → Text
    → Time
    → M BillingCheckoutSession
create_checkout s adapter user payload none hash now =
    open_checkout s adapter user payload none hash now
create_checkout s adapter user payload (some key) hash now = do
  old ← gets (λ db. find (is_checkout_of user key) db.checkouts)
  elim old [
    | none ↦ open_checkout s adapter user payload (some key) hash now
    | some c ↦
        if some_and c.request_hash (λ h. h == hash)
        then pure c
        else raise (app_error 409 Code.idempotency_key_reused)
  ]

abbrev pub latest_subscription : Uuid → Db → Option BillingSubscription
latest_subscription user db = first (
    sort_by (λ x y. leb y.created_at x.created_at)
      (select (λ x. x.user_id == user) db.subscriptions))

-- The portal session itself.
unfoldable pub open_portal : RedirectSettings → Adapter → Uuid → M RedirectSession
open_portal s adapter user = do
  found ← gets (latest_subscription user)
  x ← or_raise found (app_error 409 Code.subscription_not_found)
  u ← or_raise (first s.allowlist) (app_error 503 Code.payment_redirect_not_configured)
  lift (validate_redirect s u)
  customer ← or_raise x.provider_customer_id (app_error 409 Code.payment_customer_not_found)
  lift (adapter.create_portal x.provider customer u)

-- `create_portal`: a replay returns `none` for the response that the command keeps.
unfoldable pub create_portal :
    RedirectSettings → Adapter → Uuid → Text → Text → Time → M (Option RedirectSession)
create_portal s adapter user key hash now = do
  (c, replay) ← command user CommandType.create_portal_session key hash
  if replay then pure none else (do
    session ← open_portal s adapter user
    update (complete_command c none now)
    pure (some session))

-- ===== src/Billing/Catalogs.antt =====
-- Publishing prices: `create_catalog_version`, `activate_catalog`, `_schedule_catalog_activation`,
-- `update_feature_price` and `publish_trial_policy` of `ProductBillingService`. `strftime` and the
-- request hashes are parameters. A call returns the identifier of the row that it wrote.
use qatth.Base.{
  ℕ, suc, Bool, true, false, not, ◌&&◌, ◌||◌, Option, none, some, List, [], ◌∷◌, map, ◌==◌,
  if◌then◌else◌, some_and, or_else, or_some, find, modify, select, any, ltb,
}
use qatth.Base.Int.{ℤ}
use qatth.Schema.Common.{Uuid, Text, Time, Code}
use qatth.Schema.Billing.{
  CatalogStatus, BillingCatalogVersion, OfferType, BillingOffer, FeatureCreditPrice,
  SignupTrialPolicy, CommandType,
}
use qatth.Db.{
  Db, Result, ok, err, M, app_error, pure, gets, or_raise, ◌>>=◌, ◌>>◌, raise_if, update, is_draft,
  is_subscription,
}
use qatth.Billing.Commands.{command, complete_command}

-- The published catalogs that begin before a time, and after it.
abbrev pub begins_before : Time → BillingCatalogVersion → Bool
begins_before t c = some_and c.effective_from (λ f. ltb f t)

abbrev pub begins_after : Time → BillingCatalogVersion → Bool
begins_after t c = some_and c.effective_from (λ f. ltb t f)

abbrev pub begins_at : Time → BillingCatalogVersion → Bool
begins_at t c = some_and c.effective_from (λ f. f == t)

abbrev pub start : BillingCatalogVersion → Time
start c = or_else c.effective_from 0

-- `max(..., key=effective_from, default=None)` and `min`: the first of the greatest, the least.
unfoldable pub latest : List BillingCatalogVersion → Option BillingCatalogVersion
latest [] = none
latest (c ∷ cs) = elim (latest cs) [
  | none ↦ some c
  | some d ↦ if ltb (start c) (start d) then some d else some c
]

unfoldable pub earliest : List BillingCatalogVersion → Option BillingCatalogVersion
earliest [] = none
earliest (c ∷ cs) = elim (earliest cs) [
  | none ↦ some c
  | some d ↦ if ltb (start d) (start c) then some d else some c
]

abbrev pub set_end : Option Time → BillingCatalogVersion → BillingCatalogVersion
set_end t c = record c { effective_to = t }

abbrev pub outlasts : Time → BillingCatalogVersion → Bool
outlasts t c = elim (c.effective_to) [ none ↦ true | some u ↦ ltb t u ]

-- `_schedule_catalog_activation`: the published catalogs with the predecessor cut short, and the
-- end of the new catalog.
unfoldable pub schedule_catalog_activation :
    List BillingCatalogVersion → Time → Result (List BillingCatalogVersion × Option Time)
schedule_catalog_activation published from =
    if any (begins_at from) published
    then err (app_error 409 Code.billing_catalog_effective_time_conflict)
    else (let end : Option Time = elim (earliest (select (begins_after from) published)) [
      | none ↦ none
      | some d ↦ d.effective_from
    ] in
        elim (latest (select (begins_before from) published)) [
          | none ↦ ok (published, end)
          | some c ↦
              if outlasts from c
              then ok (modify (λ x. x.id == c.id) (set_end (some from)) published, end)
              else ok (published, end)
        ])

abbrev pub is_published : Text → Text → BillingCatalogVersion → Bool
is_published market currency c =
    c.market == market && c.currency == currency && not (is_draft c.status)

abbrev pub set_active :
    Time → Option Time → Text → Uuid → Time → BillingCatalogVersion → BillingCatalogVersion
set_active from end why actor now c = record c {
  status = CatalogStatus.active;
  effective_from = some from;
  effective_to = end;
  published_at = some now;
  activation_reason = some why;
  created_by_user_id = or_some c.created_by_user_id (some actor);
}

-- Writes the ends that the schedule gave to the published rows.
unfoldable pub write_ends :
    List BillingCatalogVersion → List BillingCatalogVersion → List BillingCatalogVersion
write_ends [] rows = rows
write_ends (c ∷ cs) rows = write_ends cs (modify (λ x. x.id == c.id) (set_end c.effective_to) rows)

abbrev pub catalog_of : Uuid → Db → Option BillingCatalogVersion
catalog_of k db = find (λ c. c.id == k) db.catalogs

-- The activation itself.
unfoldable pub activate_draft : Uuid → Uuid → Time → Text → Time → M (Unit {0})
activate_draft actor k from why now = do
  found ← gets (catalog_of k)
  c ← or_raise found (app_error 404 Code.billing_catalog_not_found)
  raise_if (not (is_draft c.status)) (app_error 409 Code.billing_catalog_immutable)
  published ← gets (λ db. select (is_published c.market c.currency) db.catalogs)
  (ends, end) ← (λ db. elim (schedule_catalog_activation published from) [
    | ok r ↦ ok (r, db)
    | err e ↦ err e
  ])
  update (λ db. record db {
    catalogs =
        modify (λ x. x.id == k) (set_active from end why actor now) (write_ends ends db.catalogs);
  })

unfoldable pub activate_catalog : Uuid → Uuid → Time → Text → Text → Text → Time → M (Option Uuid)
activate_catalog actor k from why key hash now = do
  (c, replay) ← command actor (CommandType.activate_billing_catalog k) key hash
  if replay then pure c.resource_id else (do
    activate_draft actor k from why now
    update (complete_command c (some k) now)
    pure (some k))

pub record OfferRequest : Type 0 where
  pub item_code : Text
  pub offer_type : OfferType
  pub amount_minor : ℤ
  pub currency : Text
  pub billing_interval : Option Text
  pub credit_grant : ℤ
  pub active : Bool

pub record PriceRequest : Type 0 where
  pub feature_key : Text
  pub credit_cost : ℤ
  pub maximum_duration_minutes : Option ℕ

pub record CatalogRequest : Type 0 where
  pub version_key : Text
  pub market : Text
  pub currency : Text
  pub offers : List OfferRequest
  pub feature_prices : List PriceRequest

-- The text "month".
abbrev pub month : Text
month = 30

-- `len(set(xs)) != len(xs)`.
abbrev pub has_duplicate : List Text → Bool
has_duplicate [] = false
has_duplicate (x ∷ xs) = any (λ y. y == x) xs || has_duplicate xs

abbrev pub is_bad_interval : OfferRequest → Bool
is_bad_interval o =
    is_subscription o.offer_type && not (some_and o.billing_interval (λ i. i == month))

abbrev pub new_offer : Uuid → OfferRequest → Db → BillingOffer
new_offer catalog o db = record {
  id = db.next_id;
  catalog_version_id = catalog;
  item_code = o.item_code;
  offer_type = o.offer_type;
  amount_minor = o.amount_minor;
  currency = o.currency;
  billing_interval = o.billing_interval;
  credit_grant = o.credit_grant;
  active = o.active;
}

unfoldable pub add_offers : Uuid → List OfferRequest → M (Unit {0})
add_offers catalog [] = pure tt
add_offers catalog (o ∷ os) = do
  raise_if (is_bad_interval o) (app_error 422 Code.invalid_billing_interval)
  update (λ db. record db { next_id = suc db.next_id; offers = new_offer catalog o db ∷ db.offers })
  add_offers catalog os

abbrev pub new_price : Uuid → PriceRequest → Option Text → Db → FeatureCreditPrice
new_price catalog p why db = record {
  id = db.next_id;
  catalog_version_id = catalog;
  feature_key = p.feature_key;
  credit_cost = p.credit_cost;
  maximum_duration_minutes = p.maximum_duration_minutes;
  change_reason = why;
}

abbrev pub add_price : Uuid → PriceRequest → Option Text → Db → Db
add_price catalog p why db = record db {
  next_id = suc db.next_id;
  prices = new_price catalog p why db ∷ db.prices;
}

unfoldable pub add_prices : Uuid → List PriceRequest → Db → Db
add_prices catalog [] db = db
add_prices catalog (p ∷ ps) db = add_prices catalog ps (add_price catalog p none db)

abbrev pub new_catalog : Uuid → CatalogRequest → Db → BillingCatalogVersion
new_catalog actor payload db = record {
  id = db.next_id;
  version_key = payload.version_key;
  market = payload.market;
  currency = payload.currency;
  status = CatalogStatus.draft;
  effective_from = none;
  effective_to = none;
  created_by_user_id = some actor;
  activation_reason = none;
  published_at = none;
}

unfoldable pub create_draft : Uuid → CatalogRequest → M Uuid
create_draft actor payload = do
  raise_if
      (has_duplicate (map (λ o. o.item_code) payload.offers)
        || has_duplicate (map (λ p. p.feature_key) payload.feature_prices))
      (app_error 422 Code.duplicate_catalog_item)
  c ← gets (new_catalog actor payload)
  update (λ db. record db { next_id = suc db.next_id; catalogs = c ∷ db.catalogs })
  add_offers c.id payload.offers
  update (add_prices c.id payload.feature_prices)
  pure c.id

unfoldable pub create_catalog_version : Uuid → CatalogRequest → Text → Text → Time → M (Option Uuid)
create_catalog_version actor payload key hash now = do
  (c, replay) ← command actor CommandType.create_billing_catalog key hash
  if replay then pure c.resource_id else (do
    k ← create_draft actor payload
    update (complete_command c (some k) now)
    pure (some k))

pub record PriceUpdate : Type 0 where
  pub catalog_version_id : Uuid
  pub credit_cost : ℤ
  pub maximum_duration_minutes : Option ℕ
  pub reason : Text

abbrev pub is_price : Uuid → Text → FeatureCreditPrice → Bool
is_price catalog key p = p.catalog_version_id == catalog && p.feature_key == key

abbrev pub set_price : PriceUpdate → FeatureCreditPrice → FeatureCreditPrice
set_price u p = record p {
  credit_cost = u.credit_cost;
  maximum_duration_minutes = u.maximum_duration_minutes;
  change_reason = some u.reason;
}

abbrev pub price_request : Text → PriceUpdate → PriceRequest
price_request key u = record {
  feature_key = key;
  credit_cost = u.credit_cost;
  maximum_duration_minutes = u.maximum_duration_minutes;
}

-- The price of a draft catalog, written or added.
unfoldable pub put_price : Uuid → Text → PriceUpdate → M Uuid
put_price k feature u = do
  raise_if (not (u.catalog_version_id == k)) (app_error 422 Code.catalog_version_mismatch)
  found ← gets (catalog_of k)
  c ← or_raise found (app_error 404 Code.billing_catalog_not_found)
  raise_if (not (is_draft c.status)) (app_error 409 Code.billing_catalog_immutable)
  old ← gets (λ db. find (is_price k feature) db.prices)
  elim old [
    | some p ↦
        update (λ db. record db { prices = modify (is_price k feature) (set_price u) db.prices })
        >> pure p.id
    | none ↦ (do
      p ← gets (new_price k (price_request feature u) (some u.reason))
      update (add_price k (price_request feature u) (some u.reason))
      pure p.id)
  ]

unfoldable pub update_feature_price :
    Uuid → Uuid → Text → PriceUpdate → Text → Text → Time → M (Option Uuid)
update_feature_price actor k feature u key hash now = do
  (c, replay) ← command actor (CommandType.set_feature_price k feature) key hash
  if replay
      then pure c.resource_id
      else (do p ← put_price k feature u; update (complete_command c (some p) now); pure (some p))

pub record TrialUpdate : Type 0 where
  pub enabled : Bool
  pub credit_grant : ℤ
  pub valid_days : ℕ
  pub effective_from : Option Time
  pub reason : Text

-- The text "SIGNUP_VERIFIED_EMAIL".
abbrev pub signup_policy_key : Text
signup_policy_key = 1

module _ (trial_version : Time → Text) where
  abbrev pub new_policy : Uuid → TrialUpdate → Time → Db → SignupTrialPolicy
  new_policy actor u now db = record {
    id = db.next_id;
    policy_key = signup_policy_key;
    enabled = u.enabled;
    credit_grant = u.credit_grant;
    valid_days = u.valid_days;
    policy_version = trial_version (or_else u.effective_from now);
    effective_from = or_else u.effective_from now;
    reason = some u.reason;
    created_by_user_id = some actor;
    created_at = now;
  }

  unfoldable pub publish_trial_policy : Uuid → TrialUpdate → Text → Text → Time → M (Option Uuid)
  publish_trial_policy actor u key hash now = do
    (c, replay) ← command actor CommandType.publish_signup_trial_policy key hash
    if replay then pure c.resource_id else (do
      p ← gets (new_policy actor u now)
      update (λ db. record db { next_id = suc db.next_id; policies = p ∷ db.policies })
      update (complete_command c (some p.id) now)
      pure (some p.id))

-- ===== src/Billing/Redirect.antt =====
-- The redirects that `_validate_redirect` of backend/app/services/product_billing.py lets through.
use qatth.Base.{
  ◌≡◌, ◌⊎◌, refl, true, false, not, ◌&&◌, some, List, [], ◌∷◌, ◌==◌, some_and, any, arith,
  Bool-cases, Option-cases, inl, inr,
}
use qatth.Schema.Common.{Text}
use qatth.Db.{ok}
use qatth.Billing.Checkout.{Scheme, Url, RedirectSettings, is_https, is_http, validate_redirect}

-- An entry of the list that has the origin.
pub data Allows (o : Text) : List Url → Type 0 where
  here : {a : Url} {us : List Url} → a.origin ≡ some o → Allows o (a ∷ us)
  there : {a : Url} {us : List Url} → Allows o us → Allows o (a ∷ us)

any-Allows :
    (o : Text) (us : List Url) → any (λ u. some_and u.origin (λ p. p == o)) us ≡ true → Allows o us
any-Allows o [] h = ground arith
any-Allows o (u ∷ us) h = elim (Option-cases u.origin) [
  | inl e ↦ there (any-Allows o us (ground arith))
  | inr (p, e) ↦ elim (Bool-cases (p == o)) [
    | inl t ↦ here (ground arith)
    | inr t ↦ there (any-Allows o us (ground arith))
  ]
]

scheme_cases :
    (s : RedirectSettings) (c : Scheme)
    → not (is_https c) && not (s.is_local && is_http c) ≡ false
    → (c ≡ Scheme.https) ⊎ ((s.is_local ≡ true) × (c ≡ Scheme.http))
scheme_cases s Scheme.https h = inl refl
scheme_cases s Scheme.http h = inr (ground arith, refl)
scheme_cases s (Scheme.other_scheme t) h = ground arith

-- A redirect that is let through goes to the origin of an entry of the allow-list, over HTTPS, or
-- over plain HTTP in a local environment only.
pub validate_redirect-Allows :
    (s : RedirectSettings) (u : Url)
    → validate_redirect s u ≡ ok tt
    → ((u.scheme ≡ Scheme.https) ⊎ ((s.is_local ≡ true) × (u.scheme ≡ Scheme.http)))
      × (o : Text) × (u.origin ≡ some o)
      × Allows o s.allowlist
unfolding validate_redirect
validate_redirect-Allows s u h = elim (Option-cases u.origin) [
  | inl e ↦ ground arith
  | inr (o, e) ↦
      (scheme_cases s u.scheme (ground arith), o, e, any-Allows o s.allowlist (ground arith))
]

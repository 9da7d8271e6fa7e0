-- ===== src/Db/Monad.antt =====
-- A call that reads and writes the tables, and may raise.
use qatth.Base.{
  ℕ, ◌≡◌, refl, sym, ap, ◌∙◌, ◌⊎◌, inl, inr, Bool, true, false, Option, none, some, if◌then◌else◌,
}
use qatth.Schema.Common.{AppError, Code}
use qatth.Db.Tables.{Db}

pub data Result (A : Type 0) : Type 0 where
  ok : A → Result A
  err : AppError → Result A

abbrev pub M : Type 0 → Type 0
M A = Db → Result (A × Db)

-- `AppError(status_code, code, ...)`, which is not retryable unless the call says so.
abbrev pub app_error : ℕ → Code → AppError
app_error status c = record { status_code = status; code = c; retryable = false }

abbrev pub retryable_error : ℕ → Code → AppError
retryable_error status c = record { status_code = status; code = c; retryable = true }

module _ {A : Type 0} where
  abbrev pub pure : A → M A
  pure a db = ok (a, db)

  abbrev pub raise : AppError → M A
  raise e db = err e

  abbrev pub gets : (Db → A) → M A
  gets f db = ok (f db, db)

  -- `if x is None: raise ...`
  abbrev pub or_raise : Option A → AppError → M A
  or_raise none e = raise e
  or_raise (some a) e = pure a

infixl 5 ◌>>=◌ ◌>>◌
abbrev pub ◌>>=◌ : {A B : Type 0} → M A → (A → M B) → M B
◌>>=◌ m f db = elim (m db) [ ok (a, db') ↦ f a db' | err e ↦ err e ]

abbrev pub ◌>>◌ : {A B : Type 0} → M A → M B → M B
m >> k = m >>= λ _. k

abbrev pub raise_if : Bool → AppError → M (Unit {0})
raise_if c e db = if c then err e else ok (tt, db)

abbrev pub update : (Db → Db) → M (Unit {0})
update f db = ok (tt, f db)

-- A call that returns hands its value and its tables to the rest.
pub bind_ok :
    {A B : Type 0} (m : M A) (f : A → M B) (db : Db) {a : A} {db' : Db}
    → m db ≡ ok (a, db')
    → (m >>= f) db ≡ f a db'
bind_ok m f db h = rw (h, ◌>>=◌)

-- A call that raises raises as a whole.
pub bind_err :
    {A B : Type 0} (m : M A) (f : A → M B) (db : Db) {e : AppError}
    → m db ≡ err e
    → (m >>= f) db ≡ err e
bind_err m f db h = rw (h, ◌>>=◌)

pub Result-cases :
    {A : Type 0} (r : Result A) → ((e : AppError) × (r ≡ err e)) ⊎ ((a : A) × (r ≡ ok a))
Result-cases (ok a) = inr (a, refl)
Result-cases (err e) = inl (e, refl)

pub ok_err : {A : Type 0} {a : A} {e : AppError} → ok a ≡ err e → ⊥
ok_err h = cc

-- Calls that returned the same have the same value and the same tables.
module _ {A : Type 0} {p q : A × Db} where
  pub ok_value : ok p ≡ ok q → p.0 ≡ q.0
  ok_value h = cc

  pub ok_tables : ok p ≡ ok q → p.1 ≡ q.1
  ok_tables h = cc

-- What a call that returned has done, handed to the rest of a proof of `P`.
module _ {P : Type 0} where
  -- Where a sequence of calls returns, the first call has returned, and then the rest.
  pub bind_inv :
      {A B : Type 0} (m : M A) (f : A → M B) (db : Db) {r : B × Db}
      → (m >>= f) db ≡ ok r
      → ((a : A) (db' : Db) → m db ≡ ok (a, db') → f a db' ≡ ok r → P)
      → P
  bind_inv m f db h k = elim (Result-cases (m db)) [
    | inl (e, x) ↦ absurd (ok_err (sym h ∙ bind_err m f db x))
    | inr ((a, d), x) ↦ k a d x (sym (bind_ok m f db x) ∙ h)
  ]

  -- Where a guarded call returns, the guard let it pass.
  pub raise_if_inv :
      {B : Type 0} (c : Bool) (e : AppError) (m : M B) (db : Db) {r : B × Db}
      → (raise_if c e >> m) db ≡ ok r
      → (c ≡ false → m db ≡ ok r → P)
      → P
  raise_if_inv true e m db h k = absurd (ok_err (sym h))
  raise_if_inv false e m db h k = k refl h

  -- Where a value is demanded and the call returns, it was there.
  pub or_raise_inv :
      {A : Type 0} (o : Option A) (e : AppError) (db : Db) {a : A} {db' : Db}
      → or_raise o e db ≡ ok (a, db')
      → (o ≡ some a → db ≡ db' → P)
      → P
  or_raise_inv none e db h k = absurd (ok_err (sym h))
  or_raise_inv (some x) e db h k = k (ap some (ok_value h)) (ok_tables h)

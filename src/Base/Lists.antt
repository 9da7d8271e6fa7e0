-- ===== src/Base/Lists.antt =====
-- Lists with Boolean tests: a query's `where` clause, its order and its limit. It models no code.
use Prim.Native.Nat.{ℕ, zero, suc, ◌+◌}
use mathlib.Core.Path.{◌≡◌}
use mathlib.Core.Logic.{◌≢◌}
use mathlib.Core.Bool.{Bool, true, false, ◌||◌, ◌&&◌}
use mathlib.Core.Option.{Option, none, some}
use mathlib.Core.List.{List, [], ◌∷◌, ◌++◌}
use native.Mathlib.Omega.{arith}
use qatth.Base.Tests.{if◌then◌else◌}

module _ {ℓ} {A : Type ℓ} where
  abbrev pub length : List A → ℕ
  length [] = 0
  length (x ∷ xs) = suc (length xs)

  abbrev pub take : ℕ → List A → List A
  take zero xs = []
  take (suc n) [] = []
  take (suc n) (x ∷ xs) = x ∷ take n xs

  -- The rows that a query's `where` keeps.
  abbrev pub select : (A → Bool) → List A → List A
  select p [] = []
  select p (x ∷ xs) = if p x then x ∷ select p xs else select p xs

  -- The first row that a query finds (`db.scalar`).
  abbrev pub find : (A → Bool) → List A → Option A
  find p [] = none
  find p (x ∷ xs) = if p x then some x else find p xs

  abbrev pub any : (A → Bool) → List A → Bool
  any p [] = false
  any p (x ∷ xs) = p x || any p xs

  abbrev pub all : (A → Bool) → List A → Bool
  all p [] = true
  all p (x ∷ xs) = p x && all p xs

  -- Writes the first row that passes the test.
  abbrev pub modify : (A → Bool) → (A → A) → List A → List A
  modify p f [] = []
  modify p f (x ∷ xs) = if p x then f x ∷ xs else x ∷ modify p f xs

  -- Insertion before the first row that must not come earlier; `le` is the order of the query.
  abbrev pub insert_by : (A → A → Bool) → A → List A → List A
  insert_by le a [] = a ∷ []
  insert_by le a (x ∷ xs) = if le a x then a ∷ x ∷ xs else x ∷ insert_by le a xs

  -- `order by`: a stable insertion sort.
  abbrev pub sort_by : (A → A → Bool) → List A → List A
  sort_by le [] = []
  sort_by le (x ∷ xs) = insert_by le x (sort_by le xs)

  pub length-append : (xs ys : List A) → length (xs ++ ys) ≡ length xs + length ys
  length-append [] ys = omega arith
  length-append (x ∷ xs) ys = omega (arith, length-append xs ys)

-- A predicate that holds of every element, and a list of numbers with no repetition.
abbrev pub All {ℓ κ} : {A : Type ℓ} → (A → Type κ) → List A → Type κ
All P [] = Unit
All P (x ∷ xs) = P x × All P xs

abbrev pub Distinct : List ℕ → Type 0
Distinct [] = Unit
Distinct (x ∷ xs) = All (λ y. y ≢ x) xs × Distinct xs

pub All-map₂ {ℓ κ ι μ} :
    {A : Type ℓ} (P : A → Type κ) (Q : A → Type ι) (R : A → Type μ)
    → ((x : A) → P x → Q x → R x)
    → (xs : List A) → All P xs
    → All Q xs
    → All R xs
All-map₂ P Q R f [] p q = tt
All-map₂ P Q R f (x ∷ xs) p q = (f x p.0 q.0, All-map₂ P Q R f xs p.1 q.1)

-- The first row of a query (`db.scalar` of an ordered query).
abbrev pub first {ℓ} : {A : Type ℓ} → List A → Option A
first [] = none
first (x ∷ xs) = some x

-- The row that a query finds passes its test, and a write to it is found if it still passes.
module _ {ℓ} {A : Type ℓ} (p : A → Bool) where
  pub find_test : (xs : List A) {x : A} → find p xs ≡ some x → p x ≡ true
  find_test [] e = cc
  find_test (y ∷ xs) {x} e = ground (arith, find_test xs {x = x})

  pub find-modify_self :
      (f : A → A) (xs : List A) {x : A}
      → find p xs ≡ some x
      → p (f x) ≡ true
      → find p (modify p f xs) ≡ some (f x)
  find-modify_self f [] e h = cc
  find-modify_self f (y ∷ xs) {x} e h = ground (arith, find-modify_self f xs {x = x})

-- A write by one test to the row that another test finds too.
pub find-modify_other {ℓ} :
    {A : Type ℓ} (p q : A → Bool) (f : A → A) (xs : List A) {x : A}
    → find p xs ≡ some x
    → find q xs ≡ some x
    → p (f x) ≡ true
    → find p (modify q f xs) ≡ some (f x)
find-modify_other p q f [] e d h = cc
find-modify_other p q f (y ∷ xs) {x} e d h =
    ground
      (arith, find_test p (y ∷ xs) e, find_test q (y ∷ xs) d, find-modify_other p q f xs {x = x})

pub first-some {ℓ} :
    {A : Type ℓ} (xs : List A) {x : A} → first xs ≡ some x → (ys : List A) × (xs ≡ x ∷ ys)
first-some [] e = cc
first-some (y ∷ xs) e = (xs, ground arith)

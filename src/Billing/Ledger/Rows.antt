-- ===== src/Billing/Ledger/Rows.antt =====
-- Bucket rows under their primary key: what a query selects is found again by its identifier, and
-- a write to one row leaves the others alone.
use qatth.Base.{
  ◌≡◌, refl, ◌≢◌, Bool, true, some, List, [], ◌∷◌, map, ◌==◌, find, modify, select, arith,
  Bool-cases, inl, inr, All, Distinct, All-map₂,
}
use qatth.Schema.Common.{Uuid}
use qatth.Schema.Billing.{CreditBucket}

abbrev pub ids : List CreditBucket → List Uuid
ids bs = map (λ b. b.id) bs

-- The row that the identifier finds passes the test.
abbrev pub Found : (CreditBucket → Bool) → List CreditBucket → Uuid → Type 0
Found p bs k = (b : CreditBucket) × (find (λ x. x.id == k) bs ≡ some b) × (p b ≡ true)

Found-cons :
    (p : CreditBucket → Bool) (x : CreditBucket) (bs : List CreditBucket) (k : Uuid)
    → k ≢ x.id
    → Found p bs k
    → Found p (x ∷ bs) k
Found-cons p x bs k ne (b, e, h) = (b, ground arith, h)

All-select :
    (P : Uuid → Type 0) (p : CreditBucket → Bool) (bs : List CreditBucket)
    → All P (ids bs)
    → All P (ids (select p bs))
All-select P p [] h = tt
All-select P p (x ∷ bs) h = elim (Bool-cases (p x)) [
  | inl e ↦ rw e (h.0, All-select P p bs h.1)
  | inr e ↦ rw e (All-select P p bs h.1)
]

pub Distinct-select :
    (p : CreditBucket → Bool) (bs : List CreditBucket)
    → Distinct (ids bs)
    → Distinct (ids (select p bs))
Distinct-select p [] h = tt
Distinct-select p (x ∷ bs) h = elim (Bool-cases (p x)) [
  | inl e ↦ rw e (All-select (λ y. y ≢ x.id) p bs h.0, Distinct-select p bs h.1)
  | inr e ↦ rw e (Distinct-select p bs h.1)
]

-- Under distinct identifiers every selected row is found by its identifier.
pub Found-select :
    (p : CreditBucket → Bool) (bs : List CreditBucket)
    → Distinct (ids bs)
    → All (Found p bs) (ids (select p bs))
Found-select p [] h = tt
Found-select p (x ∷ bs) h =
    let rest =
      All-map₂ (λ k. k ≢ x.id) (Found p bs) (Found p (x ∷ bs)) (Found-cons p x bs)
        (ids (select p bs)) (All-select (λ y. y ≢ x.id) p bs h.0) (Found-select p bs h.1) in
    elim (Bool-cases (p x)) [ inl e ↦ rw e ((x, ground arith, e), rest) | inr e ↦ rw e rest ]

pub find-modify_ne :
    (k j : Uuid) (f : CreditBucket → CreditBucket) (bs : List CreditBucket)
    → ((b : CreditBucket) → (f b).id ≡ b.id)
    → j ≢ k
    → find (λ x. x.id == j) (modify (λ x. x.id == k) f bs) ≡ find (λ x. x.id == j) bs
find-modify_ne k j f [] keep ne = refl
find-modify_ne k j f (x ∷ bs) keep ne = ground (arith, keep x, find-modify_ne k j f bs keep ne)

pub ids-modify :
    (k : Uuid) (f : CreditBucket → CreditBucket) (bs : List CreditBucket)
    → ((b : CreditBucket) → (f b).id ≡ b.id)
    → ids (modify (λ x. x.id == k) f bs) ≡ ids bs
ids-modify k f [] keep = refl
ids-modify k f (x ∷ bs) keep = ground (arith, keep x, ids-modify k f bs keep)

-- ===== src/Billing/Reservation/Backed.antt =====
-- A reservation that is backed by its allocations, and what the loops of `capture` and `refund`
-- do to what the accounts hold.
use qatth.Base.{
  ◌≡◌, refl, ◌∙◌, Bool, true, false, some, List, [], ◌∷◌, ◌==◌, if◌then◌else◌, some_and, find,
  modify, arith, Bool-cases, Option-cases, inl, inr, All,
}
use qatth.Base.Int.{ℤ, pos, ◌+ℤ◌, int_laws}
use qatth.Schema.Common.{Uuid, Time}
use qatth.Schema.Billing.{CreditBucket, CreditReservationAllocation, CreditReservation}
use qatth.Db.{Db}
use qatth.Billing.Accounts.{share, held}
use qatth.Billing.Credits.{
  allocations_of, consume, consume_each, give_back, give_back_each, is_open,
}
use qatth.Billing.Ledger.Balance.{held-modify}

-- The bucket belongs to the account.
abbrev pub owned : Uuid → Uuid → List CreditBucket → Bool
owned a k bs = some_and (find (λ b. b.id == k) bs) (λ b. b.account_id == a)

unfoldable pub amount_sum : List CreditReservationAllocation → ℤ
amount_sum [] = pos 0
amount_sum (x ∷ xs) = x.amount +ℤ amount_sum xs

abbrev pub AllOwned : Uuid → List CreditReservationAllocation → List CreditBucket → Type 0
AllOwned a xs bs = All (λ x. owned a x.bucket_id bs ≡ true) xs

-- The allocations stand in buckets of the reservation's account and add up to its amount.
pub record IsBacked (r : CreditReservation) (db : Db) : Type 0 where
  pub all_owned : AllOwned r.account_id (allocations_of r.id db) db.buckets
  pub adds_up : amount_sum (allocations_of r.id db) ≡ r.amount

-- An amount that counts for account `a`, as account `x` sees it.
unfoldable pub toward : Uuid → Uuid → ℤ → ℤ
toward a x v = if a == x then v else pos 0

pub toward-+ℤ : (a x : Uuid) (v w : ℤ) → toward a x (v +ℤ w) ≡ toward a x v +ℤ toward a x w
unfolding toward
toward-+ℤ a x v w = elim (Bool-cases (a == x)) [ inl e ↦ rw e | inr e ↦ rw e (omega int_laws) ]

pub toward-zero : (a x : Uuid) → toward a x (pos 0) ≡ pos 0
unfolding toward
toward-zero a x = ground arith

owned-modify :
    (a k j : Uuid) (f : CreditBucket → CreditBucket) (bs : List CreditBucket)
    → ((b : CreditBucket) → ((f b).id ≡ b.id) × ((f b).account_id ≡ b.account_id))
    → owned a j (modify (λ b. b.id == k) f bs) ≡ owned a j bs
owned-modify a k j f [] keep = refl
owned-modify a k j f (b ∷ bs) keep = ground (arith, keep b, owned-modify a k j f bs keep)

AllOwned-modify :
    (a k : Uuid) (f : CreditBucket → CreditBucket) (xs : List CreditReservationAllocation)
    (bs : List CreditBucket)
    → ((b : CreditBucket) → ((f b).id ≡ b.id) × ((f b).account_id ≡ b.account_id))
    → AllOwned a xs bs
    → AllOwned a xs (modify (λ b. b.id == k) f bs)
AllOwned-modify a k f [] bs keep h = tt
AllOwned-modify a k f (x ∷ xs) bs keep h =
    (owned-modify a k x.bucket_id f bs keep ∙ h.0, AllOwned-modify a k f xs bs keep h.1)

share-consume :
    (a x : Uuid) (m : ℤ) (b : CreditBucket)
    → (b.account_id == a) ≡ true
    → share x (consume m b) +ℤ toward a x m ≡ share x b
unfolding share toward
share-consume a x m b h = elim (Bool-cases (a == x)) [
  | inl e ↦ let t : (b.account_id == x) ≡ true = ground arith in rw (e, t) (omega int_laws)
  | inr e ↦ let t : (b.account_id == x) ≡ false = ground arith in rw (e, t) (omega int_laws)
]

share-give_back :
    (a x : Uuid) (m : ℤ) (b : CreditBucket)
    → (b.account_id == a) ≡ true
    → share x (give_back m b) ≡ share x b +ℤ toward a x m
unfolding share toward
share-give_back a x m b h = elim (Bool-cases (a == x)) [
  | inl e ↦ let t : (b.account_id == x) ≡ true = ground arith in rw (e, t) (omega int_laws)
  | inr e ↦ let t : (b.account_id == x) ≡ false = ground arith in rw (e, t) (omega int_laws)
]

-- Consuming the allocations takes their sum from the account, and nothing from another.
pub held-consume_each :
    (a x : Uuid) (xs : List CreditReservationAllocation) (bs : List CreditBucket)
    {bs' : List CreditBucket}
    → AllOwned a xs bs
    → consume_each xs bs ≡ some bs'
    → held x bs' +ℤ toward a x (amount_sum xs) ≡ held x bs
unfolding consume_each amount_sum
held-consume_each a x [] bs {bs'} o e =
    let same : bs ≡ bs' = ground arith in rw (← same) (omega (int_laws, toward-zero a x))
held-consume_each a x (y ∷ xs) bs {bs'} o e =
    elim (Option-cases (find (λ b. b.id == y.bucket_id) bs)) [
      | inl n ↦ absurd (ground arith)
      | inr (b, f) ↦
          let bs₁ = modify (λ c. c.id == y.bucket_id) (consume y.amount) bs in
          let own : (b.account_id == a) ≡ true = ground arith in
          let rest =
            held-consume_each a x xs bs₁ {bs' = bs'}
              (AllOwned-modify a y.bucket_id (consume y.amount) xs bs (λ c. (refl, refl)) o.1)
              (ground arith) in
          omega (
            int_laws,
            rest,
            held-modify x y.bucket_id (consume y.amount) bs f,
            share-consume a x y.amount b own,
            toward-+ℤ a x y.amount (amount_sum xs),
          )
    ]

module _ (now : Time) (y : CreditReservationAllocation) (xs : List CreditReservationAllocation)
    (adj : ℤ) (bs : List CreditBucket) where
  give_back_open :
      some_and (find (λ b. b.id == y.bucket_id) bs) (is_open now) ≡ true
      → give_back_each now (y ∷ xs) adj bs
        ≡ give_back_each now xs adj (modify (λ b. b.id == y.bucket_id) (give_back y.amount) bs)
  unfolding give_back_each
  give_back_open e = rw (e, give_back_each)

  give_back_shut :
      some_and (find (λ b. b.id == y.bucket_id) bs) (is_open now) ≡ false
      → give_back_each now (y ∷ xs) adj bs ≡ give_back_each now xs (adj +ℤ y.amount) bs
  unfolding give_back_each
  give_back_shut e = rw (e, give_back_each)

-- Giving the allocations back adds their sum to the account, in its buckets or in the amount for
-- the adjustment bucket.
pub held-give_back_each :
    (a x : Uuid) (now : Time) (xs : List CreditReservationAllocation) (adj : ℤ)
    (bs : List CreditBucket)
    → AllOwned a xs bs
    → let (adj', bs') = give_back_each now xs adj bs in
      held x bs' +ℤ toward a x adj' ≡ held x bs +ℤ toward a x adj +ℤ toward a x (amount_sum xs)
unfolding give_back_each amount_sum
held-give_back_each a x now [] adj bs o = omega (int_laws, toward-zero a x)
held-give_back_each a x now (y ∷ xs) adj bs o =
    elim (Bool-cases (some_and (find (λ b. b.id == y.bucket_id) bs) (is_open now))) [
      | inl open_bucket ↦ elim (Option-cases (find (λ b. b.id == y.bucket_id) bs)) [
        | inl n ↦ absurd (ground arith)
        | inr (b, f) ↦
            let bs₁ = modify (λ c. c.id == y.bucket_id) (give_back y.amount) bs in
            let own : (b.account_id == a) ≡ true = ground arith in
            let rest =
              held-give_back_each a x now xs adj bs₁ (
                AllOwned-modify a y.bucket_id (give_back y.amount) xs bs (λ c. (refl, refl)) o.1) in
            rw (give_back_open now y xs adj bs open_bucket) (
              omega (
                int_laws,
                rest,
                held-modify x y.bucket_id (give_back y.amount) bs f,
                share-give_back a x y.amount b own,
                toward-+ℤ a x y.amount (amount_sum xs),
              ))
      ]
      | inr shut ↦ rw (give_back_shut now y xs adj bs shut) (
          omega (
            int_laws,
            held-give_back_each a x now xs (adj +ℤ y.amount) bs o.1,
            toward-+ℤ a x adj y.amount,
            toward-+ℤ a x y.amount (amount_sum xs),
          ))
    ]

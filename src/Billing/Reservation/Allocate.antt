-- ===== src/Billing/Reservation/Allocate.antt =====
-- The loop of `reserve` sets aside exactly the price, and moves no credits between accounts.
use qatth.Base.{
  ◌≡◌, refl, ◌∙◌, ◌≢◌, true, false, none, some, List, [], ◌∷◌, ◌==◌, if◌then◌else◌, find, modify,
  arith, Bool-cases, Option-cases, inl, inr, All, Distinct,
}
use qatth.Base.Int.{ℤ, pos, ◌+ℤ◌, ◌-ℤ◌, ◌≤ℤ◌, ◌<ℤ◌, eqb_ℤ, min_ℤ, int_laws}
use qatth.Schema.Common.{Uuid}
use qatth.Schema.Billing.{CreditBucket, CreditReservationAllocation}
use qatth.Db.{Db}
use qatth.Billing.Accounts.{share, held}
use qatth.Billing.Credits.{set_aside, allocate_bucket, allocate}
use qatth.Billing.Ledger.Rows.{find-modify_ne}

-- The rounds of the loop.
module _ (r k : Uuid) (ks : List Uuid) (c : ℤ) (db : Db) where
  pub allocate_absent :
      find (λ b. b.id == k) db.buckets ≡ none → allocate r (k ∷ ks) c db ≡ allocate r ks c db
  unfolding allocate
  allocate_absent e = ground arith

  module _ {b : CreditBucket} (e : find (λ b. b.id == k) db.buckets ≡ some b) where
    pub allocate_skip :
        eqb_ℤ (min_ℤ b.available c) (pos 0) ≡ true → allocate r (k ∷ ks) c db ≡ allocate r ks c db
    unfolding allocate
    allocate_skip z = ground arith

    pub allocate_last :
        eqb_ℤ (min_ℤ b.available c) (pos 0) ≡ false
        → eqb_ℤ (c -ℤ min_ℤ b.available c) (pos 0) ≡ true
        → allocate r (k ∷ ks) c db ≡ allocate_bucket r k (min_ℤ b.available c) db
    unfolding allocate
    allocate_last z l = ground arith

    pub allocate_more :
        eqb_ℤ (min_ℤ b.available c) (pos 0) ≡ false
        → eqb_ℤ (c -ℤ min_ℤ b.available c) (pos 0) ≡ false
        → allocate r (k ∷ ks) c db
          ≡ allocate r ks (c -ℤ min_ℤ b.available c) (allocate_bucket r k (min_ℤ b.available c) db)
    unfolding allocate
    allocate_more z l = ground arith

-- What a reservation has been allocated.
unfoldable pub allocated : Uuid → List CreditReservationAllocation → ℤ
allocated r [] = pos 0
allocated r (x ∷ xs) = (if x.reservation_id == r then x.amount else pos 0) +ℤ allocated r xs

-- What the listed buckets have available.
unfoldable pub reach : List Uuid → List CreditBucket → ℤ
reach [] bs = pos 0
reach (k ∷ ks) bs =
    elim (find (λ b. b.id == k) bs) [ none ↦ pos 0 | some b ↦ b.available ] +ℤ reach ks bs

share-set_aside :
    (x : Uuid) (amount : ℤ) (b : CreditBucket) → share x (set_aside amount b) ≡ share x b
unfolding share
share-set_aside x amount b = elim (Bool-cases (b.account_id == x)) [
  | inl e ↦ rw e (omega int_laws)
  | inr e ↦ rw e
]

held-set_aside :
    (x k : Uuid) (amount : ℤ) (bs : List CreditBucket)
    → held x (modify (λ b. b.id == k) (set_aside amount) bs) ≡ held x bs
unfolding held
held-set_aside x k amount [] = refl
held-set_aside x k amount (b ∷ bs) = elim (Bool-cases (b.id == k)) [
  | inl e ↦ rw e (omega (int_laws, share-set_aside x amount b))
  | inr e ↦ rw e (omega (int_laws, held-set_aside x k amount bs))
]

-- The loop leaves what every account holds, and the ledger, as they were.
held-allocate :
    (x r : Uuid) (ks : List Uuid) (c : ℤ) (db : Db)
    → (held x (allocate r ks c db).buckets ≡ held x db.buckets)
      × ((allocate r ks c db).entries ≡ db.entries)
unfolding allocate
held-allocate x r [] c db = (refl, refl)
held-allocate x r (k ∷ ks) c db = elim (Option-cases (find (λ b. b.id == k) db.buckets)) [
  | inl e ↦ rw (allocate_absent r k ks c db e) (held-allocate x r ks c db)
  | inr (b, e) ↦ elim (Bool-cases (eqb_ℤ (min_ℤ b.available c) (pos 0))) [
    | inl z ↦ rw (allocate_skip r k ks c db e z) (held-allocate x r ks c db)
    | inr z ↦ elim (Bool-cases (eqb_ℤ (c -ℤ min_ℤ b.available c) (pos 0))) [
      | inl l ↦
          rw (allocate_last r k ks c db e z l)
            (held-set_aside x k (min_ℤ b.available c) db.buckets, refl)
      | inr l ↦
          let db₁ = allocate_bucket r k (min_ℤ b.available c) db in
          let (held, entries) = held-allocate x r ks (c -ℤ min_ℤ b.available c) db₁ in
          rw (allocate_more r k ks c db e z l)
            (held ∙ held-set_aside x k (min_ℤ b.available c) db.buckets, entries)
    ]
  ]
]

reach-modify_ne :
    (k : Uuid) (amount : ℤ) (ks : List Uuid) (bs : List CreditBucket)
    → All (λ j. j ≢ k) ks
    → reach ks (modify (λ b. b.id == k) (set_aside amount) bs) ≡ reach ks bs
unfolding reach
reach-modify_ne k amount [] bs h = refl
reach-modify_ne k amount (j ∷ ks) bs h =
    rw (find-modify_ne k j (set_aside amount) bs (λ b. refl) h.0)
      (rw (reach-modify_ne k amount ks bs h.1))

-- The three outcomes of a round, for what a bucket has and what remains.
module _ (a c : ℤ) (p : pos 0 <ℤ c) where
  min_zero : eqb_ℤ (min_ℤ a c) (pos 0) ≡ true → a ≡ pos 0
  min_zero z = ground arith

  min_all : eqb_ℤ (c -ℤ min_ℤ a c) (pos 0) ≡ true → min_ℤ a c ≡ c
  unfolding ◌-ℤ◌
  min_all z = ground arith

  min_part : eqb_ℤ (c -ℤ min_ℤ a c) (pos 0) ≡ false → (min_ℤ a c ≡ a) × (a <ℤ c)
  unfolding ◌-ℤ◌
  min_part z = ground arith

reach-absent :
    (k : Uuid) (ks : List Uuid) (bs : List CreditBucket)
    → find (λ b. b.id == k) bs ≡ none
    → reach (k ∷ ks) bs ≡ reach ks bs
unfolding reach
reach-absent k ks bs e = rw e (omega int_laws)

reach-found :
    (k : Uuid) (ks : List Uuid) (bs : List CreditBucket) {b : CreditBucket}
    → find (λ b. b.id == k) bs ≡ some b
    → reach (k ∷ ks) bs ≡ b.available +ℤ reach ks bs
unfolding reach
reach-found k ks bs e = rw e

allocated-allocate_bucket :
    (r k : Uuid) (m : ℤ) (db : Db)
    → allocated r (allocate_bucket r k m db).allocations ≡ m +ℤ allocated r db.allocations
unfolding allocated
allocated-allocate_bucket r k m db = let own : (r == r) ≡ true = ground arith in rw own

reach_nil : (c : ℤ) (bs : List CreditBucket) → pos 0 <ℤ c → c ≤ℤ reach [] bs → ⊥
unfolding reach
reach_nil c bs p h = omega int_laws

-- Where the listed buckets have enough, exactly the price is allocated.
pub allocate_exact :
    (r : Uuid) (ks : List Uuid) (c : ℤ) (db : Db)
    → Distinct ks
    → pos 0 <ℤ c
    → c ≤ℤ reach ks db.buckets
    → allocated r (allocate r ks c db).allocations ≡ allocated r db.allocations +ℤ c
allocate_exact r [] c db d p h = absurd (reach_nil c db.buckets p h)
allocate_exact r (k ∷ ks) c db d p h = elim (Option-cases (find (λ b. b.id == k) db.buckets)) [
  | inl e ↦
      rw (allocate_absent r k ks c db e)
        (allocate_exact r ks c db d.1 p (omega (int_laws, h, reach-absent k ks db.buckets e)))
  | inr (b, e) ↦ elim (Bool-cases (eqb_ℤ (min_ℤ b.available c) (pos 0))) [
    | inl z ↦ rw (allocate_skip r k ks c db e z) (
        allocate_exact r ks c db d.1 p
          (omega (int_laws, h, reach-found k ks db.buckets e, min_zero b.available c p z)))
    | inr z ↦ elim (Bool-cases (eqb_ℤ (c -ℤ min_ℤ b.available c) (pos 0))) [
      | inl l ↦ rw (allocate_last r k ks c db e z l) (
          omega (
            int_laws,
            allocated-allocate_bucket r k (min_ℤ b.available c) db,
            min_all b.available c p l,
          ))
      | inr l ↦
          let (m_eq, less) = min_part b.available c p l in
          let m = min_ℤ b.available c in
          let rest =
            allocate_exact r ks (c -ℤ m) (allocate_bucket r k m db) d.1
              (omega (int_laws, m_eq, less))
              (omega (
                int_laws,
                h,
                m_eq,
                reach-found k ks db.buckets e,
                reach-modify_ne k m ks db.buckets d.0,
              )) in
          rw (allocate_more r k ks c db e z l)
            (omega (int_laws, rest, allocated-allocate_bucket r k m db))
    ]
  ]
]

-- ===== src/Cv/Order.antt =====
-- The order in which `list_cvs` of backend/app/services/product_cv.py lists the CVs: the newest
-- first, and by identifier among those of one time.
use qatth.Base.{
  ℕ, suc, ◌≡◌, ◌≢◌, refl, ap, ◌∙◌, Bool, true, false, ◌&&◌, some, List, [], ◌∷◌, map, if◌then◌else◌,
  arith, Bool-cases, inl, inr, All, Distinct, select, insert_by, sort_by, length,
}
use qatth.Schema.Cv.{ProductCv}
use qatth.Cv.Versions.{cursor_of, newer_cv, is_after}

-- The CV `d` comes after `c`.
abbrev pub comes_after : ProductCv → ProductCv → Bool
comes_after c d = is_after (some (cursor_of c)) d

-- Every CV of the list comes after those before it.
unfoldable pub IsListed : List ProductCv → Type 0
IsListed [] = Unit
IsListed (c ∷ cs) = All (λ d. comes_after c d ≡ true) cs × IsListed cs

abbrev pub ids : List ProductCv → List ℕ
ids cs = map (λ c. c.id) cs

module _ (P : ProductCv → Type 0) where
  pub All-select : (p : ProductCv → Bool) (cs : List ProductCv) → All P cs → All P (select p cs)
  All-select p [] h = tt
  All-select p (c ∷ cs) h = elim (Bool-cases (p c)) [
    | inl t ↦ rw t (h.0, All-select p cs h.1)
    | inr t ↦ rw t (All-select p cs h.1)
  ]

  All-insert :
      (c : ProductCv) (cs : List ProductCv) → P c → All P cs → All P (insert_by newer_cv c cs)
  All-insert c [] q h = (q, tt)
  All-insert c (d ∷ cs) q h = elim (Bool-cases (newer_cv c d)) [
    | inl t ↦ rw t (q, h)
    | inr t ↦ rw t (h.0, All-insert c cs q h.1)
  ]

  pub All-sort : (cs : List ProductCv) → All P cs → All P (sort_by newer_cv cs)
  All-sort [] h = tt
  All-sort (c ∷ cs) h = All-insert c (sort_by newer_cv cs) h.0 (All-sort cs h.1)

after_newer : (c d : ProductCv) → newer_cv c d ≡ true → ¬ (d.id ≡ c.id) → comes_after c d ≡ true
unfolding is_after
after_newer c d h ne = ground arith

after_older : (c d : ProductCv) → newer_cv c d ≡ false → comes_after d c ≡ true
unfolding is_after
after_older c d h = ground arith

newer_after : (c d : ProductCv) → comes_after c d ≡ true → newer_cv c d ≡ true
unfolding is_after
newer_after c d h = ground arith

pub after_trans :
    (b c d : ProductCv) → comes_after b c ≡ true → comes_after c d ≡ true → comes_after b d ≡ true
unfolding is_after
after_trans b c d h k = ground arith

pub after_asym : (c d : ProductCv) → comes_after c d ≡ true → comes_after d c ≡ false
unfolding is_after
after_asym c d h = ground arith

pub after_irrefl : (c : ProductCv) → comes_after c c ≡ false
unfolding is_after
after_irrefl c = ground arith

pub All-after :
    (b c : ProductCv) (cs : List ProductCv)
    → comes_after b c ≡ true
    → All (λ d. comes_after c d ≡ true) cs
    → All (λ d. comes_after b d ≡ true) cs
All-after b c [] h all = tt
All-after b c (d ∷ cs) h all = (after_trans b c d h all.0, All-after b c cs h all.1)

-- Insertion into a listed list keeps it listed.
IsListed-insert :
    (c : ProductCv) (cs : List ProductCv)
    → IsListed cs
    → All (λ d. ¬ (d.id ≡ c.id)) cs
    → IsListed (insert_by newer_cv c cs)
unfolding IsListed
IsListed-insert c [] h new = (tt, tt)
IsListed-insert c (d ∷ cs) h new = elim (Bool-cases (newer_cv c d)) [
  | inl t ↦ let first = after_newer c d t new.0 in rw t ((first, All-after c d cs first h.0), h)
  | inr t ↦ rw t (
    All-insert (λ e. comes_after d e ≡ true) c cs (after_older c d t) h.0,
    IsListed-insert c cs h.1 new.1,
  )
]

new_id :
    (c : ProductCv) (cs : List ProductCv)
    → All (λ k. k ≢ c.id) (ids cs)
    → All (λ d. ¬ (d.id ≡ c.id)) cs
new_id c [] h = tt
new_id c (d ∷ cs) h = (h.0, new_id c cs h.1)

-- Sorting CVs with different identifiers lists them.
pub IsListed-sort : (cs : List ProductCv) → Distinct (ids cs) → IsListed (sort_by newer_cv cs)
unfolding IsListed
IsListed-sort [] h = tt
IsListed-sort (c ∷ cs) h =
    IsListed-insert c (sort_by newer_cv cs) (IsListed-sort cs h.1)
      (All-sort (λ d. ¬ (d.id ≡ c.id)) cs (new_id c cs h.0))

length-insert :
    (c : ProductCv) (cs : List ProductCv) → length (insert_by newer_cv c cs) ≡ suc (length cs)
length-insert c [] = refl
length-insert c (d ∷ cs) = elim (Bool-cases (newer_cv c d)) [
  | inl t ↦ rw t refl
  | inr t ↦ let rest = length-insert c cs in rw (t, rest) refl
]

pub length-sort : (cs : List ProductCv) → length (sort_by newer_cv cs) ≡ length cs
length-sort [] = refl
length-sort (c ∷ cs) = length-insert c (sort_by newer_cv cs) ∙ ap suc (length-sort cs)

-- A CV that comes before all of a list is inserted in front.
insert_first :
    (c : ProductCv) (cs : List ProductCv)
    → All (λ d. comes_after c d ≡ true) cs
    → insert_by newer_cv c cs ≡ c ∷ cs
insert_first c [] h = refl
insert_first c (d ∷ cs) h = let t = newer_after c d h.0 in rw t refl

select-insert :
    (p : ProductCv → Bool) (c : ProductCv) (cs : List ProductCv)
    → IsListed cs
    → All (λ d. ¬ (d.id ≡ c.id)) cs
    → select p (insert_by newer_cv c cs)
      ≡ (if p c then insert_by newer_cv c (select p cs) else select p cs)
unfolding IsListed
select-insert p c [] h new = refl
select-insert p c (d ∷ cs) h new = elim (Bool-cases (newer_cv c d)) [
  | inl t ↦
      let all : All (λ e. comes_after c e ≡ true) (d ∷ cs) =
        (after_newer c d t new.0, All-after c d cs (after_newer c d t new.0) h.0) in
      let front =
        insert_first c (select p (d ∷ cs))
          (All-select (λ e. comes_after c e ≡ true) p (d ∷ cs) all) in
      rw (t, front) refl
  | inr t ↦ let rest = select-insert p c cs h.1 new.1 in ground (arith, rest)
]

-- Selecting from the sorted rows is sorting the selected ones.
pub select-sort :
    (p : ProductCv → Bool) (cs : List ProductCv)
    → Distinct (ids cs)
    → select p (sort_by newer_cv cs) ≡ sort_by newer_cv (select p cs)
select-sort p [] h = refl
select-sort p (c ∷ cs) h =
    let rest = select-sort p cs h.1 in
    let step =
      select-insert p c (sort_by newer_cv cs) (IsListed-sort cs h.1)
        (All-sort (λ d. ¬ (d.id ≡ c.id)) cs (new_id c cs h.0)) in
    ground (arith, rest, step)

pub select-select :
    (p q : ProductCv → Bool) (cs : List ProductCv)
    → select p (select q cs) ≡ select (λ c. q c && p c) cs
select-select p q [] = refl
select-select p q (c ∷ cs) = ground (arith, select-select p q cs)

pub Distinct-select :
    (p : ProductCv → Bool) (cs : List ProductCv) → Distinct (ids cs) → Distinct (ids (select p cs))
Distinct-select p [] h = tt
Distinct-select p (c ∷ cs) h = elim (Bool-cases (p c)) [
  | inr t ↦ rw t (Distinct-select p cs h.1)
  | inl t ↦ rw t (
    ids_other c (select p cs) (All-select (λ d. ¬ (d.id ≡ c.id)) p cs (new_id c cs h.0)),
    Distinct-select p cs h.1,
  )
]
  where
    ids_other :
        (c : ProductCv) (cs : List ProductCv)
        → All (λ d. ¬ (d.id ≡ c.id)) cs
        → All (λ k. k ≢ c.id) (ids cs)
    ids_other c [] h = tt
    ids_other c (d ∷ cs) h = (h.0, ids_other c cs h.1)

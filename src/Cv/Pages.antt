-- ===== src/Cv/Pages.antt =====
-- The pages of `list_cvs` of backend/app/services/product_cv.py: a client that follows the cursors
-- comes to an end and has seen every CV once.
use mathlib.Core.Path.{subst}
use qatth.Base.{
  ℕ, zero, suc, ◌+◌, ◌≤◌, ◌≡◌, refl, sym, ap, ◌∙◌, Bool, true, false, not, ◌&&◌, Option, none, some,
  List, [], ◌∷◌, ◌++◌, arith, Bool-cases, inl, inr, All, Distinct, select, sort_by, take, length,
  length-append, ltb, ◌==◌,
}
use qatth.Schema.Cv.{ProductCv}
use qatth.Db.{Db}
use qatth.Billing.Trial.{ProductCurrentUser}
use qatth.Cv.Versions.{Cursor, cursor_of, newer_cv, is_after, is_deleting, last, page, list_cvs}
use qatth.Cv.Order.{
  comes_after, IsListed, ids, after_asym, after_irrefl, IsListed-sort, length-sort, select-sort,
  select-select, Distinct-select,
}

-- What a client has after a page: its items, with those of the pages that its cursor leads to.
abbrev joined :
    List ProductCv × Option Cursor → (Cursor → Option (List ProductCv)) → Option (List ProductCv)
joined (items, none) rest = some items
joined (items, some c) rest = elim (rest c) [ none ↦ none | some more ↦ some (items ++ more) ]

-- A client that asks for page after page, at most so many: the items of all pages, if the last of
-- them has no next cursor.
unfoldable pub walk : ProductCurrentUser → ℕ → Db → ℕ → Option Cursor → Option (List ProductCv)
walk current limit db zero cursor = none
walk current limit db (suc n) cursor =
    joined (list_cvs current cursor limit db) (λ c. walk current limit db n (some c))

select_everything :
    (p : ProductCv → Bool) (cs : List ProductCv) → All (λ c. p c ≡ true) cs → select p cs ≡ cs
select_everything p [] h = refl
select_everything p (c ∷ cs) h = let rest = select_everything p cs h.1 in rw (h.0, rest) refl

select_ext :
    (p q : ProductCv → Bool) (cs : List ProductCv)
    → ((c : ProductCv) → p c ≡ q c)
    → select p cs ≡ select q cs
select_ext p q [] h = refl
select_ext p q (c ∷ cs) h = let rest = select_ext p q cs h in rw (h c, rest) refl

select-All : (p : ProductCv → Bool) (cs : List ProductCv) → All (λ c. p c ≡ true) (select p cs)
select-All p [] = tt
select-All p (c ∷ cs) = elim (Bool-cases (p c)) [
  | inl t ↦ rw t (t, select-All p cs)
  | inr t ↦ rw t (select-All p cs)
]

none_not_some : {A : Type 0} {a : A} → none ≡ some a → ⊥
none_not_some h = cc

some_same : {A : Type 0} {a b : A} → some a ≡ some b → a ≡ b
some_same h = cc

-- The last of the first rows is one of them.
last_take :
    (P : ProductCv → Type 0) (n : ℕ) (cs : List ProductCv) {c : ProductCv}
    → All P cs
    → last (take n cs) ≡ some c
    → P c
last_take P zero cs h e = absurd (none_not_some e)
last_take P (suc n) [] h e = absurd (none_not_some e)
last_take P (suc zero) (x ∷ cs) h e = subst P (some_same e) h.0
last_take P (suc (suc n)) (x ∷ []) h e = subst P (some_same e) h.0
last_take P (suc (suc n)) (x ∷ y ∷ cs) {c} h e = last_take P (suc n) (y ∷ cs) {c = c} h.1 e

-- The first rows of a list, and the rows after the last of them, are the list.
take-select :
    (n : ℕ) (cs : List ProductCv) {c : ProductCv}
    → IsListed cs
    → last (take (suc n) cs) ≡ some c
    → take (suc n) cs ++ select (comes_after c) cs ≡ cs
unfolding IsListed
take-select n [] h e = absurd (none_not_some e)
take-select zero (x ∷ cs) {c} h e =
    let same : x ≡ c = some_same e in
    let self = subst (λ d. comes_after d x ≡ false) same (after_irrefl x) in
    let all : All (λ d. comes_after c d ≡ true) cs =
      subst (λ y. All (λ d. comes_after y d ≡ true) cs) same h.0 in
    let rest = select_everything (comes_after c) cs all in rw (self, rest) refl
take-select (suc n) (x ∷ []) {c} h e =
    let self = subst (λ d. comes_after d x ≡ false) (some_same e) (after_irrefl x) in rw self refl
take-select (suc n) (x ∷ y ∷ cs) {c} h e =
    let rest = take-select n (y ∷ cs) {c = c} h.1 e in
    let later = last_take (λ d. comes_after x d ≡ true) (suc n) (y ∷ cs) {c = c} h.0 e in
    let before = after_asym x c later in rw before (ap (λ ds. x ∷ ds) rest)

take-take : (n : ℕ) (cs : List ProductCv) → take n (take (suc n) cs) ≡ take n cs
take-take zero cs = refl
take-take (suc n) [] = refl
take-take (suc n) (c ∷ cs) = ap (λ ds. c ∷ ds) (take-take n cs)

take_short : (n : ℕ) (cs : List ProductCv) → length (take (suc n) cs) ≤ n → take n cs ≡ cs
take_short zero [] h = refl
take_short zero (c ∷ cs) h = absurd (omega (arith, h))
take_short (suc n) [] h = refl
take_short (suc n) (c ∷ cs) h = ap (λ ds. c ∷ ds) (take_short n cs (omega arith))

last_some :
    (n : ℕ) (cs : List ProductCv)
    → suc zero ≤ length (take n cs)
    → (c : ProductCv) × (last (take n cs) ≡ some c)
last_some zero cs h = absurd (omega (arith, h))
last_some (suc n) [] h = absurd (omega (arith, h))
last_some (suc zero) (c ∷ cs) h = (c, refl)
last_some (suc (suc n)) (c ∷ []) h = (c, refl)
last_some (suc (suc n)) (c ∷ d ∷ cs) h = last_some (suc n) (d ∷ cs) (omega arith)

-- A page that holds all rows has no next cursor.
page_last :
    (m : ℕ) (cs : List ProductCv)
    → ltb (suc m) (length (take (suc (suc m)) cs)) ≡ false
    → page (suc m) (take (suc (suc m)) cs) ≡ (cs, none)
unfolding page
page_last m cs h =
    let short = take_short (suc m) cs (ground arith) in
    let items = take-take (suc m) cs ∙ short in rw (page, h, items) refl

-- A page that leaves rows out has the cursor of its last item.
page_more :
    (m : ℕ) (cs : List ProductCv) {c : ProductCv}
    → ltb (suc m) (length (take (suc (suc m)) cs)) ≡ true
    → last (take (suc m) cs) ≡ some c
    → page (suc m) (take (suc (suc m)) cs) ≡ (take (suc m) cs, some (cursor_of c))
unfolding page
page_more m cs h e = let items = take-take (suc m) cs in rw (page, h, items, e) refl

long_take :
    (n : ℕ) (cs : List ProductCv) → suc n ≤ length (take (suc n) cs) → n ≤ length (take n cs)
long_take zero cs h = omega arith
long_take (suc n) [] h = absurd (omega (arith, h))
long_take (suc n) (c ∷ cs) h = let rest = long_take n cs (omega arith) in omega arith

and_assoc : (a b c : Bool) → (a && b && c) ≡ ((a && b) && c)
and_assoc true b c = refl
and_assoc false b c = refl

module _ (current : ProductCurrentUser) (limit : ℕ) (db : Db) (n : ℕ) (cursor : Option Cursor)
    {items : List ProductCv} where
  walk_last :
      list_cvs current cursor limit db ≡ (items, none)
      → walk current limit db (suc n) cursor ≡ some items
  unfolding walk
  walk_last h = ap (λ p. joined p (λ c. walk current limit db n (some c))) h

  walk_next :
      {c : Cursor} {more : List ProductCv}
      → list_cvs current cursor limit db ≡ (items, some c)
      → walk current limit db n (some c) ≡ some more
      → walk current limit db (suc n) cursor ≡ some (items ++ more)
  unfolding walk
  walk_next {c} {more} h rest =
      let page = ap (λ p. joined p (λ c. walk current limit db n (some c))) h in
      page ∙ ap (λ r. joined (items, some c) (λ d. r)) rest

-- What comes after a row that comes after the cursor comes after the cursor.
further :
    (cursor : Option Cursor) (c d : ProductCv)
    → is_after cursor c ≡ true
    → comes_after c d ≡ (is_after cursor d && comes_after c d)
unfolding is_after
further none c d h = refl
further (some k) c d h = ground arith

-- The rows of a page's query.
abbrev rows_after : ProductCurrentUser → Option Cursor → Db → List ProductCv
rows_after current cursor db = sort_by newer_cv (
    select (λ c. c.user_id == current.id && not (is_deleting c.status) && is_after cursor c) db.cvs)

-- The CVs that the user sees.
abbrev pub visible : ProductCurrentUser → Db → List ProductCv
visible current db = select (λ c. c.user_id == current.id && not (is_deleting c.status)) db.cvs

module _ (current : ProductCurrentUser) (db : Db) (distinct : Distinct (ids db.cvs)) where
  abbrev listed : List ProductCv
  listed = sort_by newer_cv (visible current db)

  rows_after-select :
      (cursor : Option Cursor) → rows_after current cursor db ≡ select (is_after cursor) listed
  rows_after-select cursor =
      let base : ProductCv → Bool = λ c. c.user_id == current.id && not (is_deleting c.status) in
      ap (sort_by newer_cv) (
        select_ext (λ c. c.user_id == current.id && not (is_deleting c.status) && is_after cursor c)
          (λ c. base c && is_after cursor c) db.cvs
          (λ c.
            and_assoc (c.user_id == current.id) (not (is_deleting c.status)) (is_after cursor c))
        ∙ sym (select-select (is_after cursor) base db.cvs))
      ∙ sym (
          select-sort (is_after cursor) (visible current db) (Distinct-select base db.cvs distinct))

  -- The rows of the next page are those after the last item.
  rows_after-next :
      (m : ℕ) (cursor : Option Cursor) {c : ProductCv}
      → last (take (suc m) (rows_after current cursor db)) ≡ some c
      → rows_after current (some (cursor_of c)) db
        ≡ select (comes_after c) (rows_after current cursor db)
  rows_after-next m cursor {c} e =
      let same = rows_after-select cursor in
      let here : is_after cursor c ≡ true =
        last_take (λ d. is_after cursor d ≡ true) (suc m) (select (is_after cursor) listed) {c = c}
          (select-All (is_after cursor) listed) (rw same at e) in
      rows_after-select (some (cursor_of c))
      ∙ select_ext (comes_after c) (λ d. is_after cursor d && comes_after c d) listed
          (λ d. further cursor c d here)
      ∙ sym (select-select (comes_after c) (is_after cursor) listed)
      ∙ ap (select (comes_after c)) (sym same)

  -- The items of a page and the rows of the next one are the rows of the page.
  rows_after-page :
      (m : ℕ) (cursor : Option Cursor) {c : ProductCv}
      → last (take (suc m) (rows_after current cursor db)) ≡ some c
      → take (suc m) (rows_after current cursor db) ++ rows_after current (some (cursor_of c)) db
        ≡ rows_after current cursor db
  rows_after-page m cursor {c} e =
      let base : ProductCv → Bool =
        λ c. c.user_id == current.id && not (is_deleting c.status) && is_after cursor c in
      let sorted = IsListed-sort (select base db.cvs) (Distinct-select base db.cvs distinct) in
      ap (λ ds. take (suc m) (rows_after current cursor db) ++ ds) (rows_after-next m cursor e)
      ∙ take-select m (rows_after current cursor db) {c = c} sorted e

  -- A page that leaves rows out has a last item, and fewer rows come after it.
  shrinks :
      (m : ℕ) (cursor : Option Cursor)
      → ltb (suc m) (length (take (suc (suc m)) (rows_after current cursor db))) ≡ true
      → (c : ProductCv) × (last (take (suc m) (rows_after current cursor db)) ≡ some c)
        × (suc (length (rows_after current (some (cursor_of c)) db))
            ≤ length (rows_after current cursor db))
  shrinks m cursor more =
      let rows = rows_after current cursor db in
      let filled : suc m ≤ length (take (suc m) rows) = long_take (suc m) rows (ground arith) in
      let (c, e) = last_some (suc m) rows (omega (arith, filled)) in
      let next = rows_after current (some (cursor_of c)) db in
      let sizes : length (take (suc m) rows) + length next ≡ length rows =
        sym (length-append (take (suc m) rows) next)
        ∙ ap length (rows_after-page m cursor {c = c} e) in
      (c, e, omega (arith, filled, sizes))

  walk-rows :
      (m pages : ℕ) (cursor : Option Cursor)
      → length (rows_after current cursor db) ≤ pages
      → walk current (suc m) db (suc pages) cursor ≡ some (rows_after current cursor db)
  unfolding list_cvs
  walk-rows m zero cursor h =
      let rows = rows_after current cursor db in
      elim (Bool-cases (ltb (suc m) (length (take (suc (suc m)) rows)))) [
        | inr done ↦ walk_last current (suc m) db zero cursor (page_last m rows done)
        | inl more ↦ let (c, e, less) = shrinks m cursor more in absurd (omega (arith, h, less))
      ]
  walk-rows m (suc pages) cursor h =
      let rows = rows_after current cursor db in
      elim (Bool-cases (ltb (suc m) (length (take (suc (suc m)) rows)))) [
        | inr done ↦ walk_last current (suc m) db (suc pages) cursor (page_last m rows done)
        | inl more ↦
            let (c, e, less) = shrinks m cursor more in
            walk_next current (suc m) db (suc pages) cursor (page_more m rows {c = c} more e)
              (walk-rows m pages (some (cursor_of c)) (omega (arith, h, less)))
            ∙ ap some (rows_after-page m cursor {c = c} e)
      ]

and_true : (a b : Bool) → (a && b && true) ≡ (a && b)
and_true true true = refl
and_true true false = refl
and_true false b = refl

-- The first page starts with all CVs.
rows_after-none :
    (current : ProductCurrentUser) (db : Db)
    → rows_after current none db ≡ sort_by newer_cv (visible current db)
unfolding is_after
rows_after-none current db = ap (sort_by newer_cv) (
    select_ext (λ c. c.user_id == current.id && not (is_deleting c.status) && is_after none c)
      (λ c. c.user_id == current.id && not (is_deleting c.status)) db.cvs
      (λ c. and_true (c.user_id == current.id) (not (is_deleting c.status))))

-- A client that follows the cursors of `list_cvs`, with a limit of at least 1, comes to a last page
-- after at most one page more than the user has CVs, and the pages together are all CVs that the
-- user sees, each once, the newest first.
pub walk_ends :
    (current : ProductCurrentUser) (limit : ℕ) (db : Db)
    → Distinct (ids db.cvs)
    → suc zero ≤ limit
    → walk current limit db (suc (length (visible current db))) none
      ≡ some (sort_by newer_cv (visible current db))
walk_ends current zero db distinct low = absurd (omega (arith, low))
walk_ends current (suc m) db distinct low =
    let all = rows_after-none current db in
    let size : length (rows_after current none db) ≤ length (visible current db) =
      omega (arith, ap length all, length-sort (visible current db)) in
    walk-rows current db distinct m (length (visible current db)) none size ∙ ap some all

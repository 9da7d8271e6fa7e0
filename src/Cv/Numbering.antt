-- ===== src/Cv/Numbering.antt =====
-- The versions that `confirm` of backend/app/services/product_cv.py stores: their numbers rise
-- within a CV, and a scan has one version.
use mathlib.Core.Path.{subst}
use qatth.Base.{
  ℕ, suc, ◌+◌, ◌≤◌, ◌≡◌, refl, sym, ap, ◌∙◌, true, not, none, some, List, [], ◌∷◌, ◌⊎◌, arith,
  Option-cases, inl, inr, find, modify, find-modify_self, find_test, ◌==◌,
}
use qatth.Schema.Common.{Uuid, Text, Time, Code}
use qatth.Schema.Cv.{ProductCv, CvScan, CvDraft, ProductCvVersion}
use qatth.Db.{Db, ok, ◌>>=◌, bind_inv, ok_value, raise_if_inv, or_raise_inv, ok_tables, gets, pure}
use qatth.Billing.Trial.{ProductCurrentUser}
use qatth.Interview.Access.{may_see}
use qatth.Cv.Access.{scan_of, get_scan, get_cv, cv_of, owned_inv, is_cv_active}
use qatth.Cv.Drafts.{find_draft, is_draft_ready}
use qatth.Cv.Confirm.{
  ConfirmCvDraftRequest, title_of, new_cv, add_cv, target_cv, max_version, new_version,
  set_confirmed, store_version, version_of_scan, is_current, confirm_new, confirm_scan,
}

-- Every version of the CV has a number below the given one.
unfoldable pub AllVersionsBelow : Uuid → ℕ → List ProductCvVersion → Type 0
AllVersionsBelow k n [] = Unit
AllVersionsBelow k n (v ∷ vs) = (v.cv_id ≡ k → suc v.version ≤ n) × AllVersionsBelow k n vs

-- The versions of the CV, the latest first, have strictly falling numbers.
unfoldable pub InVersionOrder : Uuid → List ProductCvVersion → Type 0
InVersionOrder k [] = Unit
InVersionOrder k (v ∷ vs) = (v.cv_id ≡ k → AllVersionsBelow k v.version vs) × InVersionOrder k vs

max_version-grows :
    (k : Uuid) (n : ℕ) (vs : List ProductCvVersion)
    → suc (max_version k vs) ≤ n
    → AllVersionsBelow k n vs
unfolding max_version AllVersionsBelow
max_version-grows k n [] h = tt
max_version-grows k n (v ∷ vs) h = (λ own. ground arith, max_version-grows k n vs (ground arith))

-- Choosing the CV stores no version and no scan.
target_cv-same :
    (current : ProductCurrentUser) (scan : CvScan) (payload : ConfirmCvDraftRequest)
    (draft : CvDraft) (now : Time) (db : Db) {c : ProductCv} {db' : Db}
    → target_cv current scan payload draft now db ≡ ok (c, db')
    → (db'.versions ≡ db.versions) × (db'.scans ≡ db.scans)
unfolding target_cv get_cv
target_cv-same current scan payload draft now db {c} {db'} h = elim (Option-cases scan.cv_id) [
  | inl e ↦
      let made = new_cv current.id (title_of payload draft) now db in
      let same : add_cv made db ≡ db' = ok_tables (rw e at h) in
      (ap (λ d. d.versions) (sym same), ap (λ d. d.scans) (sym same))
  | inr (k, e) ↦ bind_inv (get_cv current k) _ db (rw e at h) (λ x d got left.
      owned_inv (λ x. x.user_id) current Code.cv_not_found (cv_of k db) db got
        (λ there seen here. raise_if_inv (not (is_cv_active x.status)) _ _ d left (λ live done.
          let same = ok_tables done in
          (ap (λ d. d.versions) (sym (here ∙ same)), ap (λ d. d.scans) (sym (here ∙ same))))))
]

module _ (lower : Text → Text) (current : ProductCurrentUser) (payload : ConfirmCvDraftRequest)
    (now : Time) (db : Db) where
  -- The version of a scan is stored under the next number of its CV.
  abbrev Stored : CvScan → ProductCvVersion → Db → Type 0
  Stored scan v db' =
      (v.version ≡ max_version v.cv_id db.versions + 1)
      × (v.source_scan_id ≡ some scan.id)
      × (db'.versions ≡ v ∷ db.versions)
      × (db'.scans ≡ modify (λ x. x.id == scan.id) (set_confirmed v.cv_id now) db.scans)

  -- What `confirm_new` has done where it returns.
  confirm_new-Stored :
      (scan : CvScan) {v : ProductCvVersion} {db' : Db}
      → confirm_new lower current scan payload now db ≡ ok (v, db')
      → Stored scan v db'
  unfolding confirm_new find_draft
  confirm_new-Stored scan {v} {db'} h =
      raise_if_inv (not (is_draft_ready scan.status)) _ _ db h (λ ready h₁.
        bind_inv (find_draft scan.id) _ db h₁ (λ draft d₁ found h₂.
          or_raise_inv _ _ db found (λ there same.
            raise_if_inv (not (is_current lower payload draft)) _ _ db (rw (sym same) at h₂)
              (λ fresh h₃.
                bind_inv (target_cv current scan payload draft now) _ db h₃ (λ c d chosen h₄.
                  stored c draft d (target_cv-same current scan payload draft now db chosen)
                    (ok_value h₄) (ok_tables h₄))))))
    where
      stored :
          (c : ProductCv) (draft : CvDraft) (d : Db)
          → (d.versions ≡ db.versions) × (d.scans ≡ db.scans)
          → new_version current c scan draft d ≡ v
          → store_version current scan draft (new_version current c scan draft d) now d ≡ db'
          → Stored scan v db'
      stored c draft d (vs, xs) new tables =
          let same = ap (λ w. w.cv_id) new in
          let number : max_version c.id d.versions + 1 ≡ max_version v.cv_id db.versions + 1 =
            rw (vs, same) refl in
          (
            sym (ap (λ w. w.version) new) ∙ number,
            sym (ap (λ w. w.source_scan_id) new),
            sym (ap (λ e. e.versions) tables) ∙ rw (new, vs) refl,
            sym (ap (λ e. e.scans) tables) ∙ rw (xs, same) refl,
          )

  -- `confirm` under the lock returns the scan's version, or stores one.
  confirm_scan-cases :
      (k : Uuid) {v : ProductCvVersion} {db' : Db}
      → confirm_scan lower current k payload now db ≡ ok (v, db')
      → (x : CvScan) × (scan_of k db ≡ some x)
        × ((version_of_scan x.id db ≡ some v) × (db ≡ db') ⊎ Stored x v db')
  unfolding confirm_scan get_scan
  confirm_scan-cases k {v} {db'} h = bind_inv (get_scan current k) _ db h (λ x d got rest.
      owned_inv (λ y. y.user_id) current Code.cv_scan_not_found (scan_of k db) db got
        (λ there seen same. (x, there, outcome x (rw (sym same) at rest))))
    where
      outcome :
          (x : CvScan)
          → (gets (version_of_scan x.id) >>= (λ existing. elim existing [
            | some w ↦ pure w
            | none ↦ confirm_new lower current x payload now
          ]))
              db
            ≡ ok (v, db')
          → (version_of_scan x.id db ≡ some v) × (db ≡ db') ⊎ Stored x v db'
      outcome x run = elim (Option-cases (version_of_scan x.id db)) [
        | inl e ↦ inr (confirm_new-Stored x (rw (e, ◌>>=◌) at run))
        | inr (w, e) ↦
            inl (e ∙ ap some (ok_value (rw (e, ◌>>=◌) at run)), ok_tables (rw (e, ◌>>=◌) at run))
      ]

  -- A scan that has a version is confirmed with it.
  confirm_scan-again :
      (k : Uuid) (x : CvScan) (v : ProductCvVersion)
      → scan_of k db ≡ some x
      → may_see current x.user_id ≡ true
      → version_of_scan x.id db ≡ some v
      → confirm_scan lower current k payload now db ≡ ok (v, db)
  unfolding confirm_scan get_scan
  confirm_scan-again k x v there seen has = rw (there, seen, ◌>>=◌, has) refl

module _ (lower : Text → Text) (current : ProductCurrentUser) (payload : ConfirmCvDraftRequest)
    (now : Time) (db : Db) where
  -- A scan is confirmed once: where `confirm` under the scan's lock has returned a version, every
  -- later confirmation of the scan, by anyone who may see it, with any payload and at any time,
  -- returns that version and changes nothing.
  pub confirm_once :
      (k : Uuid) (other : ProductCurrentUser) (again : ConfirmCvDraftRequest) (later : Time)
      {x : CvScan} {v : ProductCvVersion} {db' : Db}
      → scan_of k db ≡ some x
      → may_see other x.user_id ≡ true
      → confirm_scan lower current k payload now db ≡ ok (v, db')
      → confirm_scan lower other k again later db' ≡ ok (v, db')
  confirm_once k other again later {x} {v} {db'} there seen h =
      let (y, here, which) = confirm_scan-cases lower current payload now db k h in
      let row : x ≡ y = cc in
      kept y here (subst (λ z. may_see other z.user_id ≡ true) row seen) which
    where
      kept :
          (y : CvScan)
          → scan_of k db ≡ some y
          → may_see other y.user_id ≡ true
          → (version_of_scan y.id db ≡ some v) × (db ≡ db')
            ⊎ Stored lower current payload now db y v db'
          → confirm_scan lower other k again later db' ≡ ok (v, db')
      kept y here see (inl (has, same)) =
          subst (λ d. confirm_scan lower other k again later d ≡ ok (v, d)) same
            (confirm_scan-again lower other again later db k y v here see has)
      kept y here see (inr (number, source, vs, xs)) =
          let key : y.id == k ≡ true = find_test (λ (z : CvScan). z.id == k) db.scans here in
          let id : y.id ≡ k = ground arith in
          let found : scan_of k db' ≡ some (set_confirmed v.cv_id now y) =
            subst (λ ys. find (λ z. z.id == k) ys ≡ some (set_confirmed v.cv_id now y))
              (sym (rw id at xs))
              (find-modify_self (λ z. z.id == k) (set_confirmed v.cv_id now) db.scans here key) in
          let has : version_of_scan y.id db' ≡ some v = rw vs (ground arith) in
          confirm_scan-again lower other again later db' k (set_confirmed v.cv_id now y) v found see
            has

  -- `confirm` under the scan's lock keeps the versions of every CV in strictly rising order of
  -- their numbers, whether it stores a version or finds the one that the scan has.
  pub confirm_scan-InVersionOrder :
      (j k : Uuid) {v : ProductCvVersion} {db' : Db}
      → InVersionOrder j db.versions
      → confirm_scan lower current k payload now db ≡ ok (v, db')
      → InVersionOrder j db'.versions
  unfolding InVersionOrder
  confirm_scan-InVersionOrder j k {v} {db'} ordered h =
      let (y, here, which) = confirm_scan-cases lower current payload now db k h in
      elim which [
        | inl (has, same) ↦ rw (sym same) ordered
        | inr (number, source, vs, xs) ↦ rw vs (
          λ own. max_version-grows j v.version db.versions (rw (number, own) (omega arith)),
          ordered,
        )
      ]

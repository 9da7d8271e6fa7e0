-- ===== src/Cv/Register.antt =====
-- The edits of a draft by `update_draft` of backend/app/services/product_cv.py implement a register
-- that is compared and set: an edit names the revision that it has seen.
use qatth.Base.{
  ℕ, suc, ◌≤◌, ◌≡◌, refl, sym, ap, ◌∙◌, Bool, true, false, some, List, [], ◌∷◌, arith, Bool-cases,
  inl, inr, find, find-modify_self, find-modify_other, find_test, ◌==◌,
}
use qatth.Schema.Common.{Uuid, Text, Time, Code, AppError}
use qatth.Schema.Cv.{CvScan, CvContent, CvDraft}
use qatth.Db.{Db, Result, ok, err, app_error, ◌>>=◌, ◌>>◌, raise_if, Result-cases}
use qatth.Billing.Trial.{ProductCurrentUser}
use qatth.Interview.Access.{may_see}
use qatth.Cv.Access.{scan_of, draft_of_scan, get_scan, write_draft}
use qatth.Cv.Drafts.{find_draft, is_draft_ready, set_content, update_draft}

pub record Edit : Type 0 where
  pub revision : ℕ
  pub raw : Text
  pub at_time : Time

-- The abstract register: a content with its revision.
pub record Register : Type 0 where
  pub revision : ℕ
  pub content : CvContent

module _ (validate : Text → Result CvContent) where
  -- An edit of the current revision whose content is valid sets the register.
  unfoldable pub compare_and_set : Edit → Register → Bool × Register
  compare_and_set e r = elim (r.revision == e.revision) [
    | false ↦ (false, r)
    | true ↦ elim (validate e.raw) [
      | err x ↦ (false, r)
      | ok c ↦ (true, record { revision = suc r.revision; content = c })
    ]
  ]

  unfoldable pub compare_and_set_each : List Edit → Register → List Bool × Register
  compare_and_set_each [] r = ([], r)
  compare_and_set_each (e ∷ es) r =
      let (done, r') = compare_and_set e r in
      let (rest, r'') = compare_and_set_each es r' in (done ∷ rest, r'')

  module _ (checksum : CvContent → Text) (current : ProductCurrentUser) (k : Uuid) where
    -- One request: whether it returns, and the tables after it.
    unfoldable pub edit : Edit → Db → Bool × Db
    edit e db = elim (update_draft validate checksum current k e.revision e.raw e.at_time db) [
      | ok (d, db') ↦ (true, db')
      | err x ↦ (false, db)
    ]

    unfoldable pub edit_each : List Edit → Db → List Bool × Db
    edit_each [] db = ([], db)
    edit_each (e ∷ es) db =
        let (done, db') = edit e db in let (rest, db'') = edit_each es db' in (done ∷ rest, db'')

    -- The draft of the scan is open to the user's edits, and holds what the register holds.
    pub record Holds (r : Register) (db : Db) : Type 0 where
      pub scan : CvScan
      pub draft : CvDraft
      pub scan_found : scan_of k db ≡ some scan
      pub seen : may_see current scan.user_id ≡ true
      pub ready : is_draft_ready scan.status ≡ true
      pub found : draft_of_scan scan.id db ≡ some draft
      pub found_by_id : find (λ d. d.id == draft.id) db.drafts ≡ some draft
      pub same_revision : draft.revision ≡ r.revision
      pub same_content : draft.content ≡ r.content
      pub checked : draft.checksum ≡ checksum draft.content

    module _ (e : Edit) (r : Register) (db : Db) (h : Holds r db) where
      abbrev run : Result (CvDraft × Db)
      run = update_draft validate checksum current k e.revision e.raw e.at_time db

      seen_now : {b : Bool} → (r.revision == e.revision) ≡ b → (h.draft.revision == e.revision) ≡ b
      seen_now now = rw h.same_revision now

      draft_set :
          {c : CvContent}
          → (r.revision == e.revision) ≡ true
          → validate e.raw ≡ ok c
          → run
            ≡ ok (
              set_content checksum c e.at_time h.draft,
              write_draft h.draft.id (set_content checksum c e.at_time) db,
            )
      unfolding update_draft get_scan find_draft
      draft_set now valid =
          rw (h.scan_found, h.seen, ◌>>=◌, ◌>>◌, raise_if, h.ready, h.found, seen_now now, valid)
            refl

      draft_conflict :
          (r.revision == e.revision) ≡ false
          → run ≡ err (app_error 409 Code.cv_draft_revision_conflict)
      unfolding update_draft get_scan find_draft
      draft_conflict now =
          rw (h.scan_found, h.seen, ◌>>=◌, ◌>>◌, raise_if, h.ready, h.found, seen_now now) refl

      draft_invalid :
          {x : AppError} → (r.revision == e.revision) ≡ true → validate e.raw ≡ err x → run ≡ err x
      unfolding update_draft get_scan find_draft
      draft_invalid now bad =
          rw (h.scan_found, h.seen, ◌>>=◌, ◌>>◌, raise_if, h.ready, h.found, seen_now now, bad) refl

      edit_returns : {d : CvDraft} {db' : Db} → run ≡ ok (d, db') → edit e db ≡ (true, db')
      unfolding edit
      edit_returns h = rw (edit, h) refl

      edit_raises : {x : AppError} → run ≡ err x → edit e db ≡ (false, db)
      unfolding edit
      edit_raises h = rw (edit, h) refl

      -- The register after an edit that sets it.
      Holds-set :
          (c : CvContent)
          → Holds
              (record { revision = suc r.revision; content = c })
              (write_draft h.draft.id (set_content checksum c e.at_time) db)
      Holds-set c = record {
        scan = h.scan;
        draft = set_content checksum c e.at_time h.draft;
        scan_found = h.scan_found;
        seen = h.seen;
        ready = h.ready;
        found =
            find-modify_other (λ d. d.scan_id == h.scan.id) (λ d. d.id == h.draft.id)
              (set_content checksum c e.at_time) db.drafts h.found h.found_by_id
              (find_test (λ d. d.scan_id == h.scan.id) db.drafts h.found);
        found_by_id =
            find-modify_self (λ d. d.id == h.draft.id) (set_content checksum c e.at_time) db.drafts
              h.found_by_id (find_test (λ d. d.id == h.draft.id) db.drafts h.found_by_id);
        same_revision = ap suc h.same_revision;
        same_content = refl;
        checked = refl;
      }

      -- One edit of the draft is one compare-and-set of the register.
      edit-compare_and_set :
          ((edit e db).0 ≡ (compare_and_set e r).0) × Holds (compare_and_set e r).1 (edit e db).1
      unfolding compare_and_set
      edit-compare_and_set = elim (Bool-cases (r.revision == e.revision)) [
        | inr now ↦ rw (edit_raises (draft_conflict now), compare_and_set, now) (refl, h)
        | inl now ↦ elim (Result-cases (validate e.raw)) [
          | inl (x, bad) ↦
              rw (edit_raises (draft_invalid now bad), compare_and_set, now, bad) (refl, h)
          | inr (c, valid) ↦
              rw (edit_returns (draft_set now valid), compare_and_set, now, valid)
                (refl, Holds-set c)
        ]
      ]

    -- The edits of a draft, in any order and from any clients, are accepted and rejected as the
    -- register accepts and rejects them, and the draft holds after them what the register holds,
    -- with the checksum of its content.
    pub edit_each-Refines :
        (es : List Edit) (r : Register) (db : Db)
        → Holds r db
        → ((edit_each es db).0 ≡ (compare_and_set_each es r).0)
          × Holds (compare_and_set_each es r).1 (edit_each es db).1
    unfolding edit_each compare_and_set_each
    edit_each-Refines [] r db h = (refl, h)
    edit_each-Refines (e ∷ es) r db h =
        let (same, held) = edit-compare_and_set e r db h in
        let (rest, left) = edit_each-Refines es (compare_and_set e r).1 (edit e db).1 held in
        (rw (same, rest) refl, left)

  set_grows :
      (e : Edit) (r : Register)
      → (r.revision ≤ (compare_and_set e r).1.revision)
        × ((compare_and_set e r).0 ≡ true
            → (r.revision ≡ e.revision) × (suc e.revision ≤ (compare_and_set e r).1.revision))
  unfolding compare_and_set
  set_grows e r = elim (Bool-cases (r.revision == e.revision)) [
    | inr now ↦ rw (compare_and_set, now) (omega arith, λ t. ground arith)
    | inl now ↦ elim (Result-cases (validate e.raw)) [
      | inl (x, bad) ↦ rw (compare_and_set, now, bad) (omega arith, λ t. ground arith)
      | inr (c, valid) ↦ rw (compare_and_set, now, valid) (omega arith, λ t. ground arith)
    ]
  ]

  set_each_grows :
      (es : List Edit) (r : Register) → r.revision ≤ (compare_and_set_each es r).1.revision
  unfolding compare_and_set_each
  set_each_grows [] r = omega arith
  set_each_grows (e ∷ es) r =
      let (step, same) = set_grows e r in
      let rest = set_each_grows es (compare_and_set e r).1 in omega arith

  -- An edit that was accepted shuts out every other edit of the same or an earlier revision: it is
  -- rejected and changes nothing, whatever edits come in between, so that no update is lost.
  pub stale_edit :
      (checksum : CvContent → Text) (current : ProductCurrentUser) (k : Uuid) (e stale : Edit)
      (between : List Edit) (r : Register) (db : Db)
      → Holds checksum current k r db
      → (edit checksum current k e db).0 ≡ true
      → stale.revision ≤ e.revision
      → let later = (edit_each checksum current k between (edit checksum current k e db).1).1 in
        edit checksum current k stale later ≡ (false, later)
  stale_edit checksum current k e stale between r db h accepted old =
      let (same, held) = edit-compare_and_set checksum current k e r db h in
      let after = (compare_and_set e r).1 in
      let (rest, left) =
        edit_each-Refines checksum current k between after (edit checksum current k e db).1 held in
      let (step, set) = set_grows e r in
      let (seen, risen) = set (sym same ∙ accepted) in
      let more = set_each_grows between after in
      let last = (compare_and_set_each between after).1 in
      let passed : suc stale.revision ≤ last.revision = omega arith in
      let differs : (last.revision == stale.revision) ≡ false = ground arith in
      let later = (edit_each checksum current k between (edit checksum current k e db).1).1 in
      edit_raises checksum current k stale last later left
        (draft_conflict checksum current k stale last later left differs)

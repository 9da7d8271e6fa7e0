-- ===== src/Files/Verified.antt =====
-- What `complete` of backend/app/services/product_files.py lets through, and what it refuses for
-- good.
use mathlib.Core.Path.{subst}
use qatth.Base.{
  ℕ, suc, ◌≤◌, ◌≡◌, refl, sym, ap, ◌∙◌, true, false, Option, some, not, ◌&&◌, none, List, arith,
  Bool-cases, Option-cases, inl, inr, find, find_test, find-modify_self, length, leb, opt_eq,
  some_and, or_some, ◌==◌,
}
use qatth.Schema.Common.{Uuid, Text, Time, Code, AppError}
use qatth.Schema.Work.{IdempotencyRecord}
use qatth.Schema.Cv.{UploadStatus, SecurityStatus, ObjectKey, ProductFileAsset}
use qatth.Db.{Db, Result, ok, err, app_error, Result-cases, ◌>>=◌, ◌>>◌, raise_if}
use qatth.Billing.Trial.{ProductCurrentUser}
use qatth.Work.Idempotency.{Request, is_request, new_record, add_record, begin, complete}
use qatth.Interview.Access.{may_see}
use qatth.Cv.Access.{file_of, get_file, is_uploaded}
use qatth.Files.Content.{Scanner, validate_pdf, scan_malware}
use qatth.Files.Bytes.{IsSafePdf, IsScanned, validate_pdf-IsSafePdf, scan_malware-IsScanned}
use qatth.Files.Upload.{
  ObjectStat, ObjectStorage, CompleteUploadRequest, Verdict, verdict_of, is_pending_upload,
  set_uploaded, check_content, check_object, settle_upload, complete_asset, complete_upload,
}

pending_not_uploaded : (s : UploadStatus) → is_pending_upload s ≡ true → is_uploaded s ≡ false
pending_not_uploaded UploadStatus.pending h = refl
pending_not_uploaded UploadStatus.uploaded h = sym h
pending_not_uploaded UploadStatus.rejected h = refl
pending_not_uploaded UploadStatus.deleted h = refl

-- No error is a pass.
verdict_passed :
    (e : AppError) {s : ObjectStat} {bs : List ℕ} → verdict_of e ≡ Verdict.passed s bs → ⊥
verdict_passed e h = elim (Bool-cases (e.status_code == 422)) [
  | inl t ↦ ground arith
  | inr t ↦ ground arith
]

module _ (storage : ObjectStorage) (sha256 : List ℕ → Text) (lower : Text → Text)
    (scanner : Scanner) where
  -- What the storage says of the object: its size, its content type if it has one, and, outside the
  -- local storage, the checksum of its metadata, are those that were declared.
  abbrev pub IsAsDeclared : ProductFileAsset → ObjectStat → Type 0
  IsAsDeclared a s =
      (storage.stat a.object_key ≡ ok s)
      × (s.size ≡ a.declared_size_bytes)
      × ((t : Text) → s.content_type ≡ some t → lower t ≡ lower a.content_type)
      × (storage.is_local ≡ false → or_some s.amz_sha256 s.sha256 ≡ some a.declared_sha256)

  -- The bytes under the key have the declared checksum, are a safe PDF, and were scanned.
  abbrev pub IsChecked : ProductFileAsset → List ℕ → Type 0
  IsChecked a bs =
      (storage.read a.object_key ≡ ok bs)
      × (sha256 bs ≡ a.declared_sha256)
      × IsSafePdf bs
      × IsScanned scanner bs

  same_option : (o : Option Text) (t : Text) → opt_eq o (some t) ≡ true → o ≡ some t
  same_option none t h = ground arith
  same_option (some u) t h = ground arith

  declared-IsAsDeclared :
      (a : ProductFileAsset) (s : ObjectStat)
      → storage.stat a.object_key ≡ ok s
      → (s.size == a.declared_size_bytes) ≡ true
      → some_and s.content_type (λ t. not (lower t == lower a.content_type)) ≡ false
      → not storage.is_local
          && not (opt_eq (or_some s.amz_sha256 s.sha256) (some a.declared_sha256))
        ≡ false
      → IsAsDeclared a s
  declared-IsAsDeclared a s st z c m = (
    st,
    ground arith,
    λ t e. let test = rw e at c in ground arith,
    λ l. same_option (or_some s.amz_sha256 s.sha256) a.declared_sha256 (ground arith),
  )

  check_content-passed :
      (a : ProductFileAsset) (s t : ObjectStat) (bs cs : List ℕ)
      → check_content storage sha256 lower scanner a s bs ≡ Verdict.passed t cs
      → (bs ≡ cs)
        × (sha256 bs ≡ a.declared_sha256)
        × (validate_pdf bs ≡ none)
        × (scan_malware scanner bs ≡ none)
  unfolding check_content
  check_content-passed a s t bs cs h = elim (Bool-cases (sha256 bs == a.declared_sha256)) [
    | inr d ↦ ground arith
    | inl d ↦ elim (Option-cases (validate_pdf bs)) [
      | inr (e, v) ↦ absurd (verdict_passed e (rw (check_content, d, v) at h))
      | inl v ↦ elim (Option-cases (scan_malware scanner bs)) [
        | inr (e, w) ↦ absurd (verdict_passed e (rw (check_content, d, v, w) at h))
        | inl w ↦ ground arith
      ]
    ]
  ]

  check_object-passed :
      (a : ProductFileAsset) (t : ObjectStat) (bs : List ℕ)
      → check_object storage sha256 lower scanner a ≡ Verdict.passed t bs
      → ((s : ObjectStat) × IsAsDeclared a s) × IsChecked a bs
  unfolding check_object
  check_object-passed a t bs h = elim (Result-cases (storage.stat a.object_key)) [
    | inl (e, st) ↦ ground arith
    | inr (s, st) ↦ elim (Bool-cases (s.size == a.declared_size_bytes)) [
      | inr z ↦ ground arith
      | inl z ↦
          elim (Bool-cases (some_and s.content_type (λ t. not (lower t == lower a.content_type)))) [
            | inl c ↦ ground arith
            | inr c ↦
                elim (Bool-cases (
                  not storage.is_local
                  && not (opt_eq (or_some s.amz_sha256 s.sha256) (some a.declared_sha256)))) [
                    | inl m ↦ ground arith
                    | inr m ↦ elim (Result-cases (storage.read a.object_key)) [
                      | inl (e, r) ↦ ground arith
                      | inr (cs, r) ↦
                          let (same, sum, pdf, clean) =
                            check_content-passed a s t cs bs
                              (rw (check_object, st, z, c, m, r) at h) in
                          (
                            (s, declared-IsAsDeclared a s st z c m),
                            (
                              r ∙ ap ok same,
                              subst (λ b. sha256 b ≡ a.declared_sha256) same sum,
                              subst (λ b. IsSafePdf b) same ((validate_pdf-IsSafePdf cs).0 pdf),
                              subst (λ b. IsScanned scanner b) same
                                  (scan_malware-IsScanned scanner cs clean),
                            ),
                          )
                    ]
                  ]
          ]
    ]
  ]

  ok_err_pair :
      {A : Type 0} {a : A} {e : AppError} {p q : Result A × Db}
      → p.0 ≡ err e
      → q.0 ≡ ok a
      → p ≡ q
      → ⊥
  ok_err_pair x y h = cc

  ok_pair : {A : Type 0} {a b : A} {p q : Result A × Db} → p.0 ≡ ok a → q.0 ≡ ok b → p ≡ q → a ≡ b
  ok_pair x y h = cc

  -- The end of an upload that passed.
  module _ (current : ProductCurrentUser) (a : ProductFileAsset) (payload : CompleteUploadRequest)
      (r : IdempotencyRecord) (now : Time) (db before : Db) where
    abbrev verified : ObjectStat → List ℕ → ProductFileAsset → ProductFileAsset
    verified s bs =
        set_uploaded current.id (length bs) (sha256 bs) (or_some payload.provider_etag s.etag) now
          db

    -- The asset is stored as uploaded, with the checksum that was declared, after all checks.
    abbrev pub IsVerified : ProductFileAsset → Db → Type 0
    IsVerified b db' =
        (suc now ≤ a.expires_at)
        × (lower payload.sha256 ≡ a.declared_sha256)
        × ((s : ObjectStat) × IsAsDeclared a s)
        × (bs : List ℕ) × IsChecked a bs
        × (b.actual_size_bytes ≡ some (length bs))
        × (b.verified_sha256 ≡ some a.declared_sha256)
        × (b.upload_status ≡ UploadStatus.uploaded)
        × (b.security_status ≡ SecurityStatus.clean)
        × (file_of a.id db' ≡ some b)

    settle_upload-IsVerified :
        (v : Verdict) {b : ProductFileAsset} {db' : Db}
        → file_of a.id db ≡ some a
        → suc now ≤ a.expires_at
        → lower payload.sha256 ≡ a.declared_sha256
        → check_object storage sha256 lower scanner a ≡ v
        → settle_upload storage sha256 lower scanner current a payload r now db v before
          ≡ (ok b, db')
        → IsVerified b db'
    unfolding settle_upload complete
    settle_upload-IsVerified (Verdict.interrupted e) there early sent checked h =
        absurd (ok_err_pair refl refl h)
    settle_upload-IsVerified (Verdict.refused c) there early sent checked h =
        absurd (ok_err_pair refl refl h)
    settle_upload-IsVerified (Verdict.passed s bs) {b} {db'} there early sent checked h =
        elim (Option-cases (storage.put_system (ObjectKey.clean_key current.id db.next_id) bs)) [
          | inr (e, p) ↦ absurd (ok_err_pair refl refl (rw (settle_upload, p) at h))
          | inl p ↦
              let run = rw (settle_upload, p) at h in
              let (stat, (read, sum, pdf, clean)) = check_object-passed a s bs checked in
              let row : verified s bs a ≡ b = ok_pair refl refl run in
              let key : (a.id == a.id) ≡ true =
                find_test (λ (x : ProductFileAsset). x.id == a.id) db.files there in
              let stored =
                find-modify_self (λ x. x.id == a.id) (verified s bs) db.files there key in
              (
                early,
                sent,
                stat,
                bs,
                (read, sum, pdf, clean),
                sym (ap (λ x. x.actual_size_bytes) row),
                sym (ap (λ x. x.verified_sha256) row) ∙ ap some sum,
                sym (ap (λ x. x.upload_status) row),
                sym (ap (λ x. x.security_status) row),
                subst (λ d. file_of a.id d ≡ some b) (ap (λ p. p.1) run) (stored ∙ ap some row),
              )
        ]

    -- An upload that is completed is verified.
    complete_asset-IsVerified :
        {b : ProductFileAsset} {db' : Db}
        → file_of a.id db ≡ some a
        → is_pending_upload a.upload_status ≡ true
        → complete_asset storage sha256 lower scanner current a payload r now db before
          ≡ (ok b, db')
        → IsVerified b db'
    unfolding complete_asset
    complete_asset-IsVerified {b} {db'} there pending h =
        let shut = pending_not_uploaded a.upload_status pending in
        elim (Bool-cases (leb a.expires_at now)) [
          | inl e ↦ absurd (ok_err_pair refl refl (rw (complete_asset, shut, pending, e) at h))
          | inr e ↦ elim (Bool-cases (lower payload.sha256 == a.declared_sha256)) [
            | inr d ↦ absurd (ok_err_pair refl refl (rw (complete_asset, shut, pending, e, d) at h))
            | inl d ↦
                settle_upload-IsVerified (check_object storage sha256 lower scanner a) {b = b}
                  {db' = db'} there (ground arith) (ground arith) refl
                  (rw (complete_asset, shut, pending, e, d) at h)
          ]
        ]

  module _ (current : ProductCurrentUser) (k : Uuid) (payload : CompleteUploadRequest) (q : Request)
      (now : Time) (db : Db) {a : ProductFileAsset} (low : 8 ≤ q.key.size) (high : q.key.size ≤ 128)
      (fresh : find (is_request q) db.requests ≡ none) (there : file_of k db ≡ some a)
      (seen : may_see current a.user_id ≡ true) where
    abbrev begun : Db
    begun = add_record (new_record q now db) db

    begin_fresh : begin q now db ≡ ok ((new_record q now db, false), begun)
    unfolding begin
    begin_fresh = ground arith

    complete_runs :
        complete_upload storage sha256 lower scanner true current k payload q now db
        ≡ complete_asset storage sha256 lower scanner current a payload
            (new_record q now db)
            now
            begun
            db
    unfolding complete_upload get_file
    complete_runs =
        rw (complete_upload, raise_if, ◌>>◌, ◌>>=◌, begin_fresh, get_file, there, seen) refl

    -- Where a new request completes a pending upload, the intent has not expired, the request has the
    -- declared checksum, and the storage reports the declared size, content type and, outside the
    -- local storage, checksum; the bytes that it returns have the declared checksum, start as a PDF,
    -- have its end mark and no active or embedded content; the scanner answered to them without a
    -- finding, or none is configured and the environment may do without. The stored file is uploaded
    -- and clean, with the size and the checksum of these bytes.
    pub complete_upload-IsVerified :
        {b : ProductFileAsset} {db' : Db}
        → k ≡ a.id
        → is_pending_upload a.upload_status ≡ true
        → complete_upload storage sha256 lower scanner true current k payload q now db ≡ (ok b, db')
        → IsVerified current a payload (new_record q now db) now begun db b db'
    complete_upload-IsVerified own pending h =
        complete_asset-IsVerified current a payload (new_record q now db) now begun db
          (subst (λ j. file_of j db ≡ some a) own there) pending (sym complete_runs ∙ h)

    -- A file that was rejected, or has been deleted, is never completed: every new request is refused
    -- and changes nothing, whatever the storage now holds.
    refused_for_good :
        is_pending_upload a.upload_status ≡ false
        → is_uploaded a.upload_status ≡ false
        → complete_upload storage sha256 lower scanner true current k payload q now db
          ≡ (err (app_error 409 Code.upload_not_completable), db)
    unfolding complete_asset
    refused_for_good closed shut = complete_runs ∙ rw (complete_asset, shut, closed) refl

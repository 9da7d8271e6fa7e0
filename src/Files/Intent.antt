-- ===== src/Files/Intent.antt =====
-- The intents of uploads of backend/app/services/product_files.py, and the scan of their bytes.
use qatth.Base.{
  ℕ, zero, suc, ◌≤◌, ◌≡◌, refl, ap, ◌∙◌, true, false, none, List, [], ◌∷◌, ◌++◌, arith, find, take,
  length, All,
}
use qatth.Schema.Common.{Text, Time, Code}
use qatth.Db.{Db, ok, err, retryable_error, ◌>>=◌, ◌>>◌, raise_if}
use qatth.Billing.Trial.{ProductCurrentUser}
use qatth.Work.Idempotency.{
  Request, is_request, new_record, add_record, set_responded, begin, complete_with,
}
use qatth.Files.Content.{drop, chunks_on, chunks, chunk_size}
use qatth.Files.Upload.{
  CreateUploadIntentRequest, is_open_intent, new_asset, add_file, open_intent, create_intent,
  idempotent_asset,
}

module _ (lower : Text → Text) (current : ProductCurrentUser) (payload : CreateUploadIntentRequest)
    (q : Request) (now : Time) (db : Db) where
  abbrev pub begun_db : Db
  begun_db = add_record (new_record q now db) db

  abbrev pub intent_db : Db
  intent_db =
      add_file (new_asset lower current payload now begun_db)
        (complete_with (new_record q now db) none 201 none now begun_db)

  module _ (later : Time) (low : 8 ≤ q.key.size) (high : q.key.size ≤ 128)
      (fresh : find (is_request q) db.requests ≡ none)
      (no_intent : find (is_open_intent lower current.id payload.sha256 now) db.files ≡ none) where
    begin_new : begin q now db ≡ ok ((new_record q now db, false), begun_db)
    unfolding begin
    begin_new = ground arith

    begin_again :
        begin q later intent_db
        ≡ ok ((set_responded none 201 none now (new_record q now db), true), intent_db)
    unfolding begin complete_with
    begin_again = ground arith

    -- A request that has made a new upload intent cannot be repeated: the identifier of the asset is
    -- not stored with the request, so that a replay under the same key reports at any later time that
    -- the original request has not completed.
    pub intent_replay_stuck :
        (create_intent lower true current payload q now db
          ≡ ok (new_asset lower current payload now begun_db, intent_db))
        × (create_intent lower true current payload q later intent_db
            ≡ err (retryable_error 409 Code.idempotency_request_in_progress))
    unfolding create_intent open_intent idempotent_asset
    intent_replay_stuck = (
      rw (create_intent, raise_if, ◌>>◌, ◌>>=◌, begin_new, open_intent, no_intent) refl,
      rw (create_intent, raise_if, ◌>>◌, ◌>>=◌, begin_again, idempotent_asset) refl,
    )

-- Bytes that are all sent.
abbrev joined : List (List ℕ) → List ℕ
joined [] = []
joined (c ∷ cs) = c ++ joined cs

take-drop : (n : ℕ) (bs : List ℕ) → take n bs ++ drop n bs ≡ bs
take-drop zero bs = refl
take-drop (suc n) [] = refl
take-drop (suc n) (b ∷ bs) = ap (λ cs. b ∷ cs) (take-drop n bs)

drop_shorter : (n : ℕ) (bs : List ℕ) → length (drop n bs) ≤ length bs
drop_shorter zero bs = omega arith
drop_shorter (suc n) [] = omega arith
drop_shorter (suc n) (b ∷ bs) = omega (arith, drop_shorter n bs)

length-take : (n : ℕ) (bs : List ℕ) → length (take n bs) ≤ n
length-take zero bs = omega arith
length-take (suc n) [] = omega arith
length-take (suc n) (b ∷ bs) = omega (arith, length-take n bs)

chunks_on-joined : (n m : ℕ) (bs : List ℕ) → length bs ≤ n → joined (chunks_on n (suc m) bs) ≡ bs
unfolding chunks_on
chunks_on-joined zero m [] h = refl
chunks_on-joined zero m (b ∷ bs) h = absurd (omega (arith, h))
chunks_on-joined (suc n) m [] h = refl
chunks_on-joined (suc n) m (b ∷ bs) h =
    let rest = chunks_on-joined n m (drop m bs) (omega (arith, h, drop_shorter m bs)) in
    ap (λ cs. b ∷ (take m bs ++ cs)) rest ∙ ap (λ cs. b ∷ cs) (take-drop m bs)

chunks_on-sizes : (n m : ℕ) (bs : List ℕ) → All (λ c. length c ≤ suc m) (chunks_on n (suc m) bs)
unfolding chunks_on
chunks_on-sizes zero m bs = tt
chunks_on-sizes (suc n) m [] = tt
chunks_on-sizes (suc n) m (b ∷ bs) = (length-take (suc m) (b ∷ bs), chunks_on-sizes n m (drop m bs))

-- The scanner is sent every byte of the file in order and once, in chunks that fit the frames.
chunks-joined :
    (bs : List ℕ) → (joined (chunks bs) ≡ bs) × All (λ c. length c ≤ chunk_size) (chunks bs)
unfolding chunks
chunks-joined bs =
    (chunks_on-joined (length bs) 65535 bs (omega arith), chunks_on-sizes (length bs) 65535 bs)

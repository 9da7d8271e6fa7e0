-- ===== src/Interview/Token.antt =====
-- The tokens of a realtime connection, `create_realtime_token` and `consume_realtime_token` of
-- backend/app/services/product_interview.py: at most one is good, and it is good once.
use mathlib.Core.Path.{subst}
use qatth.Base.{
  sym, Bool, ℕ, ◌+◌, ◌*◌, ◌≤◌, ◌≡◌, refl, true, false, some, List, [], ◌∷◌, ◌==◌, find, modify,
  arith, find_test, find-modify_self, All,
}
use qatth.Schema.Common.{Uuid, Text, Time, Code}
use qatth.Schema.Interview.{InterviewStatus, ProductInterview, InterviewRealtimeToken}
use qatth.Db.{Db, ok, err, app_error, ◌>>=◌}
use qatth.Interview.Access.{
  interview_of, write_interview, is_connectable, reconnect_expired, duration_reached,
}
use qatth.Interview.Realtime.{
  revoke_live, issue_token, is_token, is_spent, consume_token, set_live, extend_credit,
  consume_realtime_token,
}

-- The tokens of the interview are all spent.
abbrev pub IsSpentFor : Uuid → Time → InterviewRealtimeToken → Type 0
IsSpentFor k now t = t.interview_id ≡ k → is_spent now t ≡ true

revoke_live-IsSpentFor :
    (k : Uuid) (now later : Time) (ts : List InterviewRealtimeToken)
    → now ≤ later
    → All (IsSpentFor k later) (revoke_live k now ts)
unfolding revoke_live
revoke_live-IsSpentFor k now later [] h = tt
revoke_live-IsSpentFor k now later (x ∷ xs) h =
    (λ own. ground arith, revoke_live-IsSpentFor k now later xs h)

-- Once a token is issued, every token that the interview had before is spent, then and at any
-- later time; the new one stands beside them.
issue_token-IsSpentFor :
    (k : Uuid) (now later : Time) (t : InterviewRealtimeToken) (db : Db)
    → now ≤ later
    → (old : List InterviewRealtimeToken) × ((issue_token k now t db).tokens ≡ t ∷ old)
      × All (IsSpentFor k later) old
unfolding issue_token
issue_token-IsSpentFor k now later t db h =
    (revoke_live k now db.tokens, refl, revoke_live-IsSpentFor k now later db.tokens h)

module _ (window : ℕ) (consented : Bool) (k : Uuid) (hash : Text) (now : Time) (db : Db)
    {x : ProductInterview} {t : InterviewRealtimeToken} (here : interview_of k db ≡ some x)
    (token : find (is_token k hash) db.tokens ≡ some t) where
  -- A token that has expired, was used or was revoked opens no connection.
  consume_spent :
      is_spent now t ≡ true
      → consume_realtime_token window consented k hash now db
        ≡ err (app_error 401 Code.realtime_token_invalid)
  unfolding consume_realtime_token
  consume_spent spent = rw (here, ◌>>=◌, token, spent) refl

  -- The tables after a token is used.
  abbrev consumed_db : Db
  consumed_db = extend_credit x (now + x.duration_minutes * 60 + window + 300) (
      write_interview k (set_live now)
        (record db { tokens = modify (is_token k hash) (consume_token now) db.tokens }))

  consume_lem :
      is_spent now t ≡ false
      → x.user_id ≡ t.user_id
      → is_connectable x.status ≡ true
      → consented ≡ true
      → reconnect_expired now x ≡ false
      → duration_reached now x ≡ false
      → consume_realtime_token window consented k hash now db ≡ ok (tt, consumed_db)
  unfolding consume_realtime_token
  consume_lem live own ready agreed reconnect time =
      let mine : (x.user_id == t.user_id) ≡ true = ground arith in
      rw (here, ◌>>=◌, token, live, mine, ready, agreed, reconnect, time) refl

extend_credit_others :
    (x : ProductInterview) (until : Time) (db : Db)
    → ((extend_credit x until db).tokens ≡ db.tokens)
      × ((extend_credit x until db).interviews ≡ db.interviews)
unfolding extend_credit
extend_credit_others x until db = ground arith

-- A token that is good opens the connection once: the interview is live, and whoever presents the
-- token again, at any time, is rejected.
pub consume_once :
    (window : ℕ) (k : Uuid) (hash : Text) (now : Time) (db : Db) {x : ProductInterview}
    {t : InterviewRealtimeToken}
    → interview_of k db ≡ some x
    → find (is_token k hash) db.tokens ≡ some t
    → is_spent now t ≡ false
    → x.user_id ≡ t.user_id
    → is_connectable x.status ≡ true
    → reconnect_expired now x ≡ false
    → duration_reached now x ≡ false
    → (db' : Db) × (consume_realtime_token window true k hash now db ≡ ok (tt, db'))
      × (interview_of k db' ≡ some (set_live now x))
      × ((set_live now x).status ≡ InterviewStatus.live)
      × ((agreed : Bool) (later : Time)
          → consume_realtime_token window agreed k hash later db'
            ≡ err (app_error 401 Code.realtime_token_invalid))
consume_once window k hash now db {x} {t} here token live own ready reconnect time =
    let db' = consumed_db window true k hash now db here token in
    let same = extend_credit_others x (now + x.duration_minutes * 60 + window + 300) (
      write_interview k (set_live now)
        (record db { tokens = modify (is_token k hash) (consume_token now) db.tokens })) in
    let still : interview_of k db' ≡ some (set_live now x) =
      subst (λ xs. find (λ y. y.id == k) xs ≡ some (set_live now x)) (sym same.1)
        (find-modify_self (λ y. y.id == k) (set_live now) db.interviews here
          (find_test (λ (y : ProductInterview). y.id == k) db.interviews here)) in
    let used : find (is_token k hash) db'.tokens ≡ some (consume_token now t) =
      subst (λ ts. find (is_token k hash) ts ≡ some (consume_token now t)) (sym same.0)
        (find-modify_self (is_token k hash) (consume_token now) db.tokens token
          (find_test (is_token k hash) db.tokens token)) in
    (
      db',
      consume_lem window true k hash now db here token live own ready refl reconnect time,
      still,
      refl,
      λ agreed later. consume_spent window agreed k hash later db' still used (ground arith),
    )

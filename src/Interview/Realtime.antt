-- ===== src/Interview/Realtime.antt =====
-- The realtime connection: `create_realtime_token`, `consume_realtime_token`, `mark_interrupted`,
-- `update_resumption_handle` and `mark_billable_started` of `ProductInterviewService`. The random
-- token and its hash are parameters.
use qatth.Base.{
  ℕ, suc, ◌+◌, ◌*◌, Bool, true, false, not, ◌&&◌, ◌||◌, Option, none, some, List, [], ◌∷◌, ◌==◌,
  if◌then◌else◌, is_some, or_some, find, modify, leb, ltb,
}
use qatth.Schema.Common.{Uuid, Text, Time, Code}
use qatth.Schema.Billing.{ReferenceType, ReservationStatus, CreditReservation}
use qatth.Schema.Interview.{InterviewStatus, ProductInterview, InterviewRealtimeToken}
use qatth.Db.{
  Db, ok, err, M, app_error, pure, gets, or_raise, ◌>>=◌, ◌>>◌, raise_if, update, is_reserved,
}
use qatth.Billing.Trial.{ProductCurrentUser}
use qatth.Billing.Credits.{reserve, release, capture, reservation_of, write_reservation}
use qatth.Interview.Access.{
  interview_of, write_interview, get_interview, duration_reached, reconnect_expired, is_connectable,
  require_consent,
}

abbrev pub is_live_token : Uuid → Time → InterviewRealtimeToken → Bool
is_live_token k now t =
    t.interview_id == k
    && not (is_some t.consumed_at)
    && not (is_some t.revoked_at)
    && ltb now t.expires_at

abbrev pub revoke : Time → InterviewRealtimeToken → InterviewRealtimeToken
revoke now t = record t { revoked_at = some now }

-- The loop that revokes the tokens that are still live.
unfoldable pub revoke_live : Uuid → Time → List InterviewRealtimeToken → List InterviewRealtimeToken
revoke_live k now [] = []
revoke_live k now (t ∷ ts) =
    (if is_live_token k now t then revoke now t else t) ∷ revoke_live k now ts

abbrev pub new_token :
    ProductInterview → ProductCurrentUser → Text → Time → Db → InterviewRealtimeToken
new_token x current hash expires db = record {
  id = db.next_id;
  interview_id = x.id;
  user_id = current.id;
  token_hash = hash;
  expires_at = expires;
  consumed_at = none;
  revoked_at = none;
}

-- The old tokens are revoked, and the new one is put beside them.
unfoldable pub issue_token : Uuid → Time → InterviewRealtimeToken → Db → Db
issue_token k now t db = record db {
  next_id = suc db.next_id;
  tokens = t ∷ revoke_live k now db.tokens;
}

-- The feature "interview".
abbrev pub interview_feature : Text
interview_feature = 2

abbrev pub set_credit : Option Uuid → ProductInterview → ProductInterview
set_credit r x = record x { credit_reservation_id = r }

abbrev pub is_kept : ReservationStatus → Bool
is_kept ReservationStatus.released = false
is_kept _ = true

abbrev pub id_of : Option CreditReservation → Option Uuid
id_of none = none
id_of (some r) = some r.id

-- A new reservation for the token, until five minutes after it expires.
unfoldable pub reserve_token :
    ProductCurrentUser → ProductInterview → InterviewRealtimeToken → Time → M (Unit {0})
reserve_token current x t now = do
  r ←
      reserve current interview_feature ReferenceType.interview_token t.id (some x.duration_minutes)
        (some (t.expires_at + 300)) now
  update (write_interview x.id (set_credit (id_of r)))

abbrev pub credit_of : ProductInterview → Db → Option CreditReservation
credit_of x db = elim (x.credit_reservation_id) [ none ↦ none | some r ↦ reservation_of r db ]

-- The credits of the interview: kept where they are reserved and in time, charged or refunded.
unfoldable pub renew_credit :
    ProductCurrentUser → ProductInterview → InterviewRealtimeToken → Time → M (Unit {0})
renew_credit current x t now db = elim (credit_of x db) [
  | none ↦ reserve_token current x t now db
  | some r ↦
      if not (is_kept r.status)
      then reserve_token current x t now db
      else if is_reserved r.status && leb r.expires_at now
      then reserve_token current x t now (release (some r.id) now db)
      else ok (tt, db)
]

-- `create_realtime_token`, with the configured lifetime of a token, held to 30 to 300 seconds.
unfoldable pub create_realtime_token :
    Bool → ProductCurrentUser → Uuid → Text → ℕ → Time → M InterviewRealtimeToken
create_realtime_token consented current k hash ttl now = do
  require_consent consented
  x ← get_interview current k
  raise_if (reconnect_expired now x) (app_error 409 Code.interview_reconnect_expired)
  raise_if (duration_reached now x) (app_error 409 Code.interview_duration_reached)
  raise_if (not (is_connectable x.status)) (app_error 409 Code.interview_not_connectable)
  let seconds = if ltb ttl 30 then 30 else if ltb 300 ttl then 300 else ttl
  t ← gets (new_token x current hash (now + seconds))
  update (issue_token x.id now t)
  renew_credit current x t now
  pure t

abbrev pub is_token : Uuid → Text → InterviewRealtimeToken → Bool
is_token k hash t = t.interview_id == k && t.token_hash == hash

-- A token that has expired, was used or was revoked.
abbrev pub is_spent : Time → InterviewRealtimeToken → Bool
is_spent now t = leb t.expires_at now || is_some t.consumed_at || is_some t.revoked_at

abbrev pub consume_token : Time → InterviewRealtimeToken → InterviewRealtimeToken
consume_token now t = record t { consumed_at = some now }

abbrev pub set_live : Time → ProductInterview → ProductInterview
set_live now x = record x {
  status = InterviewStatus.live;
  started_at = or_some x.started_at (some now);
  reconnect_until = none;
}

abbrev pub extend : Time → CreditReservation → CreditReservation
extend until r = if is_reserved r.status then record r { expires_at = until } else r

-- A reserved reservation lasts for the interview, the reconnect window and five minutes.
unfoldable pub extend_credit : ProductInterview → Time → Db → Db
extend_credit x until db = elim (x.credit_reservation_id) [
  | none ↦ db
  | some r ↦ write_reservation r (extend until) db
]

module _ (reconnect_window : ℕ) where
  -- `consume_realtime_token`.
  unfoldable pub consume_realtime_token : Bool → Uuid → Text → Time → M (Unit {0})
  consume_realtime_token consented k hash now = do
    found ← gets (interview_of k)
    x ← or_raise found (app_error 401 Code.realtime_token_invalid)
    token ← gets (λ db. find (is_token k hash) db.tokens)
    t ← or_raise token (app_error 401 Code.realtime_token_invalid)
    raise_if (is_spent now t) (app_error 401 Code.realtime_token_invalid)
    raise_if (not (x.user_id == t.user_id) || not (is_connectable x.status))
        (app_error 409 Code.interview_not_connectable)
    require_consent consented
    raise_if (reconnect_expired now x) (app_error 409 Code.interview_reconnect_expired)
    raise_if (duration_reached now x) (app_error 409 Code.interview_duration_reached)
    update (λ db. record db { tokens = modify (is_token k hash) (consume_token now) db.tokens })
    update (write_interview k (set_live now))
    update (extend_credit x (now + x.duration_minutes * 60 + reconnect_window + 300))

  abbrev pub interrupt : Time → ProductInterview → ProductInterview
  interrupt now x = elim (x.status) [
    | InterviewStatus.live ↦ record x {
      status = InterviewStatus.interrupted;
      reconnect_until = some (now + reconnect_window);
    }
    | _ ↦ x
  ]

  -- `mark_interrupted`.
  unfoldable pub mark_interrupted : Uuid → Time → Db → Db
  mark_interrupted k now db = write_interview k (interrupt now) db

-- `update_resumption_handle`.
unfoldable pub update_resumption_handle : Uuid → Option Text → Db → Db
update_resumption_handle k handle db =
    write_interview k (λ x. record x { gemini_resumption_handle = handle }) db

abbrev pub set_billable : Uuid → Time → ProductInterview → ProductInterview
set_billable event now x = record x {
  billable_started_at = some now;
  billable_event_id = some event;
}

-- `mark_billable_started`: the credits are charged when the interview first becomes billable.
unfoldable pub mark_billable_started : Uuid → Uuid → Time → M (Unit {0})
mark_billable_started k event now db = elim (interview_of k db) [
  | none ↦ err (app_error 404 Code.interview_not_found)
  | some x ↦
      if is_some x.billable_started_at
      then ok (tt, db)
      else capture x.credit_reservation_id now (write_interview k (set_billable event now) db)
]

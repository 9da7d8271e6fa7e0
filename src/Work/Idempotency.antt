-- ===== src/Work/Idempotency.antt =====
-- `IdempotencyService` of backend/app/core/idempotency.py. The hash of a request is a parameter,
-- and a key comes with its length.
use qatth.Base.{
  ℕ, suc, ◌+◌, Bool, true, false, not, ◌&&◌, Option, none, some, ◌∷◌, ◌==◌, if◌then◌else◌, find,
  modify, leb,
}
use qatth.Schema.Common.{Uuid, Text, Time, Code}
use qatth.Schema.Work.{RequestStatus, IdempotencyRecord}
use qatth.Db.{Db, ok, err, M, app_error}

pub record RequestKey : Type 0 where
  pub text : Text
  pub size : ℕ

pub record Request : Type 0 where
  pub scope : Text
  pub operation : Text
  pub key : RequestKey
  pub request_hash : Text

abbrev pub is_request : Request → IdempotencyRecord → Bool
is_request q r = r.scope == q.scope && r.operation == q.operation && r.idempotency_key == q.key.text

abbrev pub idempotency_ttl_seconds : ℕ
idempotency_ttl_seconds = 86400

abbrev pub new_record : Request → Time → Db → IdempotencyRecord
new_record q now db = record {
  id = db.next_id;
  scope = q.scope;
  operation = q.operation;
  idempotency_key = q.key.text;
  request_hash = q.request_hash;
  status = RequestStatus.processing;
  resource_id = none;
  response_status = none;
  response_body = none;
  completed_at = none;
  expires_at = now + idempotency_ttl_seconds;
}

abbrev pub add_record : IdempotencyRecord → Db → Db
add_record r db = record db { next_id = suc db.next_id; requests = r ∷ db.requests }

-- `begin`: the record of the request, and whether it is a replay.
unfoldable pub begin : Request → Time → M (IdempotencyRecord × Bool)
begin q now db =
    if not (leb 8 q.key.size && leb q.key.size 128)
    then err (app_error 400 Code.invalid_idempotency_key)
    else elim (find (is_request q) db.requests) [
      | some r ↦
          if not (r.request_hash == q.request_hash)
          then err (app_error 409 Code.idempotency_conflict)
          else ok ((r, true), db)
      | none ↦ ok ((new_record q now db, false), add_record (new_record q now db) db)
    ]

-- The record of a request that has a response. The resource is absent where the caller passes an
-- identifier that is not there yet.
abbrev pub set_responded :
    Option Uuid → ℕ → Option Code → Time → IdempotencyRecord → IdempotencyRecord
set_responded resource status body now r = record r {
  status = RequestStatus.completed;
  resource_id = resource;
  response_status = some status;
  response_body = body;
  completed_at = some now;
}

-- `complete`, with all its arguments.
unfoldable pub complete_with : IdempotencyRecord → Option Uuid → ℕ → Option Code → Time → Db → Db
complete_with r resource status body now db = record db {
  requests = modify (λ x. x.id == r.id) (set_responded resource status body now) db.requests;
}

abbrev pub set_request_completed : Uuid → ℕ → Time → IdempotencyRecord → IdempotencyRecord
set_request_completed resource status now r = set_responded (some resource) status none now r

-- `complete` of a request with its resource and no body.
unfoldable pub complete : IdempotencyRecord → Uuid → ℕ → Time → Db → Db
complete r resource status now db = record db {
  requests = modify (λ x. x.id == r.id) (set_request_completed resource status now) db.requests;
}

-- ===== src/Tests/Data.antt =====
-- Concrete tables for the runs. Account 1 belongs to user 10; bucket 2 of it was granted 100
-- credits, and reservation 3 holds 40 of them.
use qatth.Base.{none, some, [], ◌∷◌}
use qatth.Base.Int.{ℤ, pos, negsuc}
use qatth.Schema.Billing.{
  BucketType, Key, CreditBucket, EntryType, ReferenceType, CreditLedgerEntry, ReservationStatus,
  CreditReservation, CreditReservationAllocation,
}
use qatth.Db.{Db}

abbrev pub empty_db : Db
empty_db = record {
  next_id = 100;
  users = 10 ∷ 11 ∷ [];
  catalogs = [];
  offers = [];
  prices = [];
  policies = [];
  trial_grants = [];
  subscriptions = [];
  accounts = [];
  buckets = [];
  reversals = [];
  reviews = [];
  entries = [];
  reservations = [];
  allocations = [];
  checkouts = [];
  inbox = [];
  commands = [];
  adjustments = [];
  requests = [];
  outbox = [];
  files = [];
  cvs = [];
  scans = [];
  drafts = [];
  versions = [];
  analyses = [];
  profiles = [];
  jobs = [];
  interviews = [];
  tokens = [];
  events = [];
  reports = [];
}

abbrev pub bucket : ℤ → ℤ → CreditBucket
bucket available reserved = record {
  id = 2;
  account_id = 1;
  bucket_type = BucketType.topup;
  source_reference = some (Key.payment_key 7);
  granted = pos 100;
  available = available;
  reserved = reserved;
  expires_at = some 1000;
  created_at = 1;
}

abbrev pub entry : ℤ → EntryType → Key → CreditLedgerEntry
entry amount t k = record {
  id = 50;
  account_id = 1;
  bucket_id = some 2;
  amount = amount;
  entry_type = t;
  balance_after = pos 100;
  reference_type = ReferenceType.payment;
  reference_id = some 7;
  idempotency_key = some k;
  actor_user_id = none;
  reason = none;
  occurred_at = 1;
}

abbrev pub reservation : ReservationStatus → CreditReservation
reservation s = record {
  id = 3;
  account_id = 1;
  user_id = 10;
  feature_key = 1;
  amount = pos 40;
  status = s;
  catalog_version_id = 8;
  reference_type = ReferenceType.cv_analysis;
  reference_id = 9;
  expires_at = 7200;
  captured_at = none;
  released_at = none;
  refunded_at = none;
}

abbrev pub allocation : CreditReservationAllocation
allocation = record { id = 4; reservation_id = 3; bucket_id = 2; amount = pos 40 }

abbrev pub granted_entry : CreditLedgerEntry
granted_entry = entry (pos 100) EntryType.grant (Key.payment_key 7)

-- 40 of 100 credits are reserved.
abbrev pub reserved_db : Db
reserved_db = record empty_db {
  buckets = bucket (pos 60) (pos 40) ∷ [];
  entries = granted_entry ∷ [];
  reservations = reservation ReservationStatus.reserved ∷ [];
  allocations = allocation ∷ [];
}

-- The 40 credits have been charged.
abbrev pub captured_db : Db
captured_db = record empty_db {
  buckets = bucket (pos 60) (pos 0) ∷ [];
  entries = entry (negsuc 39) EntryType.charge (Key.capture_key 3) ∷ granted_entry ∷ [];
  reservations = reservation ReservationStatus.captured ∷ [];
  allocations = allocation ∷ [];
}

-- The reservation is there, and nothing is allocated yet.
abbrev pub fresh_db : Db
fresh_db = record reserved_db { buckets = bucket (pos 100) (pos 0) ∷ []; allocations = [] }

-- The bucket has expired with 60 credits, and 40 reserved ones were released into it afterwards.
abbrev pub released_db : Db
released_db = record empty_db {
  buckets = bucket (pos 40) (pos 0) ∷ [];
  entries = entry (negsuc 59) EntryType.expire (Key.expire_key 2) ∷ granted_entry ∷ [];
}

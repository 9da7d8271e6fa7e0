-- ===== src/Lib.antt =====
-- Verification of the core of the QATTH backend: the credit ledger and the payments of the
-- product, the uploads, CVs and their analyses, the life of an interview, the tasks of the
-- workers, and the executor around the calls of external providers.
--
-- The parts, and the code that they are about:
-- - Base: numbers, lists, options and signed integers. It models no code.
-- - Schema: the tables as records with the source's columns. Schema.Billing is
--   backend/app/models/product_billing.py, Schema.Interview
--   backend/app/models/product_interview.py with the jobs of backend/app/models/product_jobs.py,
--   Schema.Work backend/app/models/foundation.py, Schema.Cv backend/app/models/product_cv.py
--   with the candidate profiles of backend/app/models/product_jobs.py; Schema.Common has
--   AppError of backend/app/core/errors.py.
-- - Db: all tables together, and a call that reads and writes them and may raise. A raise drops
--   the writes of the call, as the rollback of the session does.
-- - Billing: ProductBillingService of backend/app/services/product_billing.py, by function name
--   without the leading underscore. Accounts has _account, _ledger, _grant_bucket and
--   _expire_buckets, which all others go through; Trial the catalogs in force and the signup
--   trial; Credits reserve, capture, release and refund; Expiry the settlement of overdue
--   reservations; Commands and Adjustments the administrator's commands and the credit
--   adjustments under dual control; Payments, Reversals and Webhooks the payment events from
--   delivery to ledger; Catalogs the publication of catalogs, prices and policies; Checkout the
--   sessions with the provider. Proofs about them stand in Ledger, Reservation, Replay,
--   DualControl, Approval, Inbox, Delivery, Proportion and Redirect.
-- - Interview: ProductInterviewService of backend/app/services/product_interview.py. Access
--   finds an interview, Creation has create, Realtime has the tokens and the connection, Events
--   the transcript, Ending the end, cancellation, retry and expiry, which settle the credits
--   through Billing.Credits and hand the evaluation to Work.Dispatch. Proofs stand in Creation,
--   Transcript, Token and Final.
-- - Work: Idempotency is backend/app/core/idempotency.py, Dispatch
--   backend/app/services/task_dispatch.py, Leases backend/app/services/task_leases.py. Proofs
--   stand in Once.
-- - Cv: ProductCvService of backend/app/services/product_cv.py, by function name. Access finds
--   rows, Scans has create_scan and retry_scan, Drafts the draft of a scan and its edits,
--   Confirm the confirmation of a draft as a version, Versions the CVs and their versions,
--   Analyses create_analysis and retry_analysis, which reserve credits through Billing.Credits
--   and hand the task to Work.Dispatch. Proofs stand in Numbering, Register, Order and Pages.
-- - Files: ProductFileService of backend/app/services/product_files.py: Content has what it
--   reads in the bytes of a file, Upload its operations by function name. Proofs stand in
--   Bytes, Verified and Intent.
-- - Tasks: the tasks of backend/app/workers/tasks.py that work on leased rows, one function for
--   each transaction and one for the whole: Extract, Analyze and Evaluate; Leased has what they
--   share, and Recover is recover_stalled of backend/app/services/task_leases.py. Proofs stand
--   in Settled, Late and Lost.
-- - Resilience: ProviderExecutor of backend/app/core/provider_resilience.py, its counters in
--   State and its loop in Execute. Proofs stand in Limits and Retries.
-- - Tests: runs at concrete inputs.
--
-- Texts, identifiers and times are numbers, since the code only copies and compares them; a text
-- that the code puts together is a constructor of Schema.Billing.Key. Times count seconds. A
-- call reads the clock once. Amounts are integers without a bound, as in Python; the columns are
-- not bounded here. A table is a list of rows; where the code does not order a query, the model
-- takes the list's order. A call is one transaction and runs alone, as the row locks of the code
-- make it; where the code commits in the middle of a call, the model returns the tables at each
-- end. An object that the code holds is read again by its identifier. Loops recurse over the
-- list of rows that the code selects, and the retry loop over the attempts that are left, so
-- that there is no fuel; the chunks that the scanner is sent have fuel for one step a byte,
-- which is enough for a chunk of at least one byte.
--
-- Parameters of the model: hashes and random tokens, the payment adapter, the broker, the
-- provider's operation, whether Redis is reached in each block, whether a user has given
-- consent, the parts of a URL, and the model that is deployed; of the CVs and the files also the
-- validation of a content, checksums, lower case, the object storage, the malware scanner's
-- answer, and what the models answer. Not modelled: HTTP routes and the scheduled wrappers of
-- the workers, views and serialisation, texts of errors, metrics, logs and usage records, the
-- expiry of keys in Redis while a call runs, signed URLs, and the other services: job search,
-- recommendations, privacy, administration, and the gateways to the models.
pub mod Base
pub mod Schema
pub mod Db
pub mod Billing
pub mod Resilience
pub mod Work
pub mod Interview
pub mod Cv
pub mod Files
pub mod Tasks
pub mod Tests

-- ===== src/Db.antt =====
-- The session of SQLAlchemy that the services share: the tables, and a call as a function of them
-- that returns a value with the new tables, or raises. A raise returns no tables: the request's
-- session is closed without a commit, which rolls its writes back. Where the code commits before
-- it can fail, or catches an error, the operation says so itself.
mod Tables
mod Monad
mod Tests
pub use Tables.*
pub use Monad.*
unfoldable pub use Tests.*

-- ===== src/Db.antt =====
-- server/db/schema.ts: the tables that the wallet and the auto top-up read and write,
-- with the columns that they use. Ids, texts and references are `String`, times are milliseconds,
-- amounts are integers in kobo or cents. A table is the list of its rows, newest first.
mod Queries
pub use Queries.*
mod Schema
pub use Schema.*

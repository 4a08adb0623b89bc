-- ===== src/Store.antt =====
-- The PostgreSQL side of the backend: the rows of internal/store/db/models.go, the statements that a
-- transaction issues, and the outcome of a statement.
mod Schema
mod Transaction
mod Events
pub use Schema.*
pub use Transaction.*
unfoldable pub use Transaction.{statement, select}
pub use Events.*

-- ===== src/Schema/Writes.antt =====
-- The statements that write: INSERT with the constraints, UPDATE ... RETURNING, and UPDATE for its
-- number of rows, for each table.
mod Parties
mod Names
mod Links
mod Keys
unfoldable pub use Parties.*
unfoldable pub use Names.*
unfoldable pub use Links.*
unfoldable pub use Keys.*

-- ===== src/Database.antt =====
-- The rows of the PostgreSQL tables that the services read and write (backend/migrations), as lists
-- in the order of insertion. Times are milliseconds; the code keeps them in `i64`, and no time that
-- it stores is negative.
mod Rows
pub mod Tables
pub mod Claimed
pub use Rows.*

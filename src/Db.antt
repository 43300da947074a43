-- ===== src/Db.antt =====
-- internal/db: the repositories. `Sql` is what they rely on of PostgreSQL and GORM, `Store` the
-- tables and the statements, and the rest follows the files of the package.
pub mod Sql
pub mod Store
pub mod Groups
pub mod Invites
pub mod ListSql
pub mod Users
pub mod Messages
pub mod Rosters
pub mod Search
pub mod Reading
pub mod Lifetime
mod Tests
pub mod AccountTests

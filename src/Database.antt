-- ===== src/Database.antt =====
-- src/db: the repositories.
pub mod Items
pub mod Users
pub mod Pool

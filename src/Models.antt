-- ===== src/Models.antt =====
-- The data model (src/support_operations_intelligence_platform/models.py): the states, the rows of
-- the tables, the database that holds them, and transactions on it.
pub mod States
pub mod Tables
pub mod Database
pub mod Engine
pub mod Inserts

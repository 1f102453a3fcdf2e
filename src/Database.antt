-- ===== src/Database.antt =====
-- The access to PostgreSQL: include/profile_service/repository/db_interface.hpp,
-- src/repository/postgres_connection.cpp and src/repository/query_executor.cpp.
pub mod Value
pub mod Row
pub mod ResultSet
pub mod Connection
pub mod Transaction
pub mod Executor
pub mod Atomic
pub mod Cursor
pub mod Ending
pub mod Confined
mod Tests

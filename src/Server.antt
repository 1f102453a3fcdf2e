-- ===== src/Server.antt =====
-- The process around the request manager: src/query_manager.cpp, src/server_impl.cpp, src/server.cpp and
-- src/main.cpp.
pub mod QueryManager
pub mod ServerImpl
pub mod Reply
pub mod System
pub mod Program
pub mod Process
pub mod Privacy
pub mod Profiles
pub mod Usernames
mod Tests

-- ===== src/Requests.antt =====
-- The way of a request: src/request_manager.cpp, src/handlers/handler_factory.cpp and
-- include/profile_service/auth_validator.hpp.
pub mod Routing
pub mod Serving
pub mod Reordered
pub mod Factory
pub mod Dispatch
pub mod Safety
pub mod Confined
pub mod Paths
pub mod RequestManager
pub mod Isolation
pub mod Reading
mod Tests

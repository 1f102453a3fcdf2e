-- ===== src/Repository.antt =====
-- The five repositories of src/repository/, each a fixed set of SQL statements. The statements are the
-- source's texts, with the adjacent literals joined.
pub mod Sql
pub mod Listing
pub mod Rows
pub mod ProfileRepository
pub mod ContactsRepository
pub mod PrivacyRepository
pub mod FavoriteRepository
pub mod NotificationRepository
pub mod Confined
pub mod Laws
mod Tests

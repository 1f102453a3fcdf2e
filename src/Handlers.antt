-- ===== src/Handlers.antt =====
-- The request handlers of src/handlers/.
pub mod Common
pub mod ProfileHandler
pub mod ContactsHandler
pub mod PrivacyHandler
pub mod FavoritesHandler
pub mod NotificationsHandler
pub mod Answers
pub mod Profiles
pub mod Usernames
pub mod Avatars
pub mod Confined
mod Tests

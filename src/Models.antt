-- ===== src/Models.antt =====
-- include/profile_service/domain/models.hpp: the records that the service stores and serves.
use profile_service_cpp.Prelude.{String, Bool, Option, none}
use profile_service_cpp.Platform.{Platform}

pub record Profile (P : Platform) : Type 0 where
  pub user_id : String
  pub first_name : Option String
  pub last_name : Option String
  pub username : Option String
  pub bio : Option String
  pub avatar_url : Option String
  pub last_seen_at : Option P.TimePoint
  pub created_at : P.TimePoint
  pub updated_at : P.TimePoint

pub record Contact (P : Platform) : Type 0 where
  pub owner_id : String
  pub contact_id : String
  pub alias : Option String
  pub created_at : P.TimePoint

pub record PrivacySettings : Type 0 where
  pub user_id : String
  pub profile_visibility : String
  pub last_seen_visibility : String
  pub avatar_visibility : String

pub record NotificationSettings (P : Platform) : Type 0 where
  pub id : String
  pub user_id : String
  pub chat_id : Option String
  pub muted : Bool
  pub muted_until : Option P.TimePoint

pub record Favorite (P : Platform) : Type 0 where
  pub user_id : String
  pub chat_id : String
  pub created_at : P.TimePoint

-- The records as their default constructors leave them.
abbrev pub new_privacy_settings : PrivacySettings
new_privacy_settings = record {
  user_id = "";
  profile_visibility = "";
  last_seen_visibility = "";
  avatar_visibility = "";
}

module _ (P : Platform) where
  abbrev pub new_profile : Profile P
  new_profile = record {
    user_id = "";
    first_name = none;
    last_name = none;
    username = none;
    bio = none;
    avatar_url = none;
    last_seen_at = none;
    created_at = P.epoch;
    updated_at = P.epoch;
  }

  abbrev pub new_contact : Contact P
  new_contact = record { owner_id = ""; contact_id = ""; alias = none; created_at = P.epoch }

  abbrev pub new_notification_settings : NotificationSettings P
  new_notification_settings = record {
    id = "";
    user_id = "";
    chat_id = none;
    muted = P.uninitialised;
    muted_until = none;
  }

  abbrev pub new_favorite : Favorite P
  new_favorite = record { user_id = ""; chat_id = ""; created_at = P.epoch }

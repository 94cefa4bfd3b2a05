-- ===== src/World/People.antt =====
-- The rows of prisma/schema.prisma about users, their sessions and messages, and about venues.
use tickethub_backend.Common.{ℕ, String, Bool, Option, ◌||◌, ◌==◌, string_eq}

pub data Role : Type 0 where
  user organizer admin : Role

pub record UserRow : Type 0 where
  pub id : String
  pub email : String
  pub password_hash : String
  pub name : String
  pub role : Role
  pub created_at : ℕ
  pub deleted_at : Option ℕ

-- `@id`, and `@unique` on the address.
abbrev pub user_clash : UserRow → UserRow → Bool
user_clash a b = a.email == b.email || a.id == b.id

pub record RefreshTokenRow : Type 0 where
  pub id : String
  pub user_id : String
  pub token_hash : String
  pub expires_at : ℕ
  pub revoked_at : Option ℕ
  pub created_at : ℕ

-- `@id`; the hash has an index that is not unique.
abbrev pub same_token : RefreshTokenRow → RefreshTokenRow → Bool
same_token a b = a.id == b.id

-- The seat layout is kept as its JSON text.
pub record VenueRow : Type 0 where
  pub id : String
  pub name : String
  pub address : String
  pub city : String
  pub capacity : ℕ
  pub seat_layout : String
  pub created_at : ℕ
  pub deleted_at : Option ℕ

abbrev pub same_venue : VenueRow → VenueRow → Bool
same_venue a b = a.id == b.id

pub data NotificationChannel : Type 0 where
  email sms push : NotificationChannel

pub data NotificationStatus : Type 0 where
  pending sent failed : NotificationStatus

pub record NotificationRow : Type 0 where
  pub id : String
  pub recipient_id : String
  pub channel : NotificationChannel
  pub type : String
  pub subject : Option String
  pub body : String
  pub status : NotificationStatus
  pub attempts : ℕ
  pub sent_at : Option ℕ

abbrev pub same_notification : NotificationRow → NotificationRow → Bool
same_notification a b = a.id == b.id

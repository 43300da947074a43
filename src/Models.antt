-- ===== src/Models.antt =====
-- internal/models: the rows of the seven tables. A UUID is the 128-bit number that its bytes are,
-- a time is a number of milliseconds since 1970, and a nullable column is an `Option`.
use vibe_net_backend.Base.{ℕ, String, Bool, Option}

pub record User : Type 0 where
  pub user_id : ℕ
  pub username : String
  pub display_name : String
  pub email : Option String
  pub phone_number : Option String
  pub google_id : Option String
  pub password_hash : Option String
  pub public_key : Option String
  pub created_at : ℕ
  pub avatar_url : Option String
  pub last_seen : Option ℕ
  pub chat_pin_enabled : Bool
  pub chat_pin_type : String
  pub custom_pin : Option String
  pub status : String

abbrev pub chat_pin_rotating : String
chat_pin_rotating = "rotating"

abbrev pub chat_pin_static : String
chat_pin_static = "static"

abbrev pub user_status_active : String
user_status_active = "active"

abbrev pub user_status_deactivated : String
user_status_deactivated = "deactivated"

abbrev pub user_status_deleted : String
user_status_deleted = "deleted"

pub record Contact : Type 0 where
  pub user_id : ℕ
  pub contact_id : ℕ

pub record Group : Type 0 where
  pub group_id : ℕ
  pub name : String
  pub created_by : ℕ
  pub created_at : ℕ
  pub avatar_url : Option String

abbrev pub group_role_owner : String
group_role_owner = "owner"

abbrev pub group_role_admin : String
group_role_admin = "admin"

abbrev pub group_role_member : String
group_role_member = "member"

pub record GroupMember : Type 0 where
  pub group_id : ℕ
  pub user_id : ℕ
  pub role : String
  pub wrapped_key : String
  pub key_nonce : String
  pub wrapped_by : ℕ
  pub joined_at : ℕ

abbrev pub invite_status_pending : String
invite_status_pending = "pending"

abbrev pub invite_status_accepted : String
invite_status_accepted = "accepted"

abbrev pub invite_status_declined : String
invite_status_declined = "declined"

pub record GroupInvite : Type 0 where
  pub invite_id : ℕ
  pub group_id : ℕ
  pub from_user : ℕ
  pub to_user : ℕ
  pub status : String
  pub wrapped_key : String
  pub key_nonce : String
  pub created_at : ℕ

pub record DmParticipant : Type 0 where
  pub chat_room_id : String
  pub user_id : ℕ
  pub peer_id : ℕ
  pub created_at : ℕ

pub record Message : Type 0 where
  pub chat_room_id : String
  pub timestamp : ℕ
  pub message_id : String
  pub sender_id : String
  pub ciphertext : String
  pub nonce : String

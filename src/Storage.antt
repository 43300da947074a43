-- ===== src/Storage.antt =====
-- internal/storage, and pkg/utils: the settings of the object store, and the addresses of avatars.

use Prim.Native.String.{◌++◌}
use vibe_net_backend.Base.{
  String, Bool, not, ◌&&◌, Option, none, some, if◌then◌else◌, ◌==◌, ℕ_eq, String_eq,
}

-- `environ` is `os.Getenv`.
unfoldable pub get_env : (String → String) → String → String → String
get_env environ key fallback = if not (environ key == "") then environ key else fallback

-- `none` is an error.
unfoldable pub require_env : (String → String) → String → Option String
require_env environ key = if environ key == "" then none else some (environ key)

pub record AvatarStoreConfig : Type 0 where
  pub endpoint : String
  pub region : String
  pub access_key_id : String
  pub secret_access_key : String
  pub bucket : String

unfoldable pub load_avatar_store_config : (String → String) → AvatarStoreConfig
unfolding get_env
load_avatar_store_config environ = record {
  endpoint = get_env environ "SUPABASE_S3_ENDPOINT" "";
  region = get_env environ "SUPABASE_S3_REGION" "";
  access_key_id = get_env environ "SUPABASE_S3_ACCESS_KEY_ID" "";
  secret_access_key = get_env environ "SUPABASE_S3_SECRET_ACCESS_KEY" "";
  bucket = get_env environ "SUPABASE_S3_BUCKET" "avatars";
}

unfoldable pub is_configured : AvatarStoreConfig → Bool
is_configured c =
    not (c.endpoint == "")
    && not (c.region == "")
    && not (c.access_key_id == "")
    && not (c.secret_access_key == "")
    && not (c.bucket == "")

-- The attachments: the same settings with another bucket.
unfoldable pub load_s3_config : (String → String) → AvatarStoreConfig
unfolding get_env
load_s3_config environ = record {
  endpoint = get_env environ "SUPABASE_S3_ENDPOINT" "";
  region = get_env environ "SUPABASE_S3_REGION" "";
  access_key_id = get_env environ "SUPABASE_S3_ACCESS_KEY_ID" "";
  secret_access_key = get_env environ "SUPABASE_S3_SECRET_ACCESS_KEY" "";
  bucket = get_env environ "SUPABASE_S3_ATTACHMENTS_BUCKET" "chat-attachments";
}

pub record AvatarStore : Type 0 where
  pub bucket : String
  pub public_url : String

-- `strings.TrimSuffix`
unfoldable pub trim_suffix : String → String → String
trim_suffix suffix String.[] = ""
trim_suffix suffix (String.◌∷◌ c s) =
    let rest = trim_suffix suffix s in if String.◌∷◌ c s == suffix then "" else String.◌∷◌ c rest

-- `sdk_fails` says that the SDK refuses its configuration.
unfoldable pub new_avatar_store : Bool → AvatarStoreConfig → Option AvatarStore
unfolding is_configured trim_suffix
new_avatar_store sdk_fails cfg =
    if not (is_configured cfg)
    then none
    else if sdk_fails
    then none
    else some (record {
      bucket = cfg.bucket;
      public_url = trim_suffix "/storage/v1/s3" cfg.endpoint ++ "/storage/v1/object/public";
    })

-- `fmt.Sprintf("%s/%s/%s", …)`
unfoldable pub object_url : AvatarStore → String → String
object_url store key = store.public_url ++ "/" ++ store.bucket ++ "/" ++ key

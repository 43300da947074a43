-- ===== src/Api/Uploads.antt =====
-- internal/api/upload.go, and the uploads of photos in handler.go and groups.go.
use Prim.Native.Char.{Char, code}
use Prim.Native.String.{◌++◌}
use vibe_net_backend.Base.{
  ℕ, String, Bool, true, false, not, ◌&&◌, ◌||◌, Option, none, some, List, [], ◌∷◌, if◌then◌else◌,
  leb, ◌==◌, ℕ_eq, String_eq, trim_space, byte_len,
}
use vibe_net_backend.Storage.{AvatarStore, object_url}
use vibe_net_backend.Db.Store.{Error, Result, ok, err}
use vibe_net_backend.Db.Users.{update_avatar_url}
use vibe_net_backend.Db.Groups.{update_group_avatar}
use vibe_net_backend.Access.{strip_prefix}
use vibe_net_backend.Auth.{map_runes}
use vibe_net_backend.Api.{
  Env, upload, delete, Serve, ◌>>=◌, ◌>>◌, pure, refuse, refuse_if, or_refuse, authenticated,
  attempt, missing, emit, new_string,
}
use vibe_net_backend.Api.Validation.{all_runes, is_digit}
use vibe_net_backend.Api.Accounts.{UserSummary, to_user_summary, broadcast_user_update}
use vibe_net_backend.Api.Groups.{GroupDto, require_group_member, show_group}

abbrev pub is_some {ℓ} : {A : Type ℓ} → Option A → Bool
is_some none = false
is_some (some a) = true

-- A multipart form: one that is too large or malformed, one without a file under "avatar", or the
-- bytes of that file.
pub data AvatarForm : Type 0 where
  malformed no_file : AvatarForm
  file : List ℕ → AvatarForm

-- The bytes begin with a signature, in which `none` is any byte.
unfoldable pub has_signature : List (Option ℕ) → List ℕ → Bool
has_signature [] bytes = true
has_signature (b ∷ sig) [] = false
has_signature (none ∷ sig) (x ∷ bytes) = has_signature sig bytes
has_signature (some b ∷ sig) (x ∷ bytes) = b == x && has_signature sig bytes

abbrev exactly : List ℕ → List (Option ℕ)
exactly [] = []
exactly (b ∷ bs) = some b ∷ exactly bs

-- `http.DetectContentType` and `allowedAvatarTypes`: the extension of an allowed image. No other
-- signature of that function fits bytes that begin so.
unfoldable pub image_extension : List ℕ → Option String
unfolding has_signature
image_extension head =
    if has_signature (exactly (0xff ∷ 0xd8 ∷ 0xff ∷ [])) head
    then some ".jpg"
    else if has_signature (exactly (0x89 ∷ 0x50 ∷ 0x4e ∷ 0x47 ∷ 0x0d ∷ 0x0a ∷ 0x1a ∷ 0x0a ∷ []))
        head
    then some ".png"
    else if has_signature
        (some 0x52
          ∷ some 0x49
          ∷ some 0x46
          ∷ some 0x46
          ∷ none
          ∷ none
          ∷ none
          ∷ none
          ∷ exactly (0x57 ∷ 0x45 ∷ 0x42 ∷ 0x50 ∷ 0x56 ∷ 0x50 ∷ []))
        head
    then some ".webp"
    else if has_signature (exactly (0x47 ∷ 0x49 ∷ 0x46 ∷ 0x38 ∷ 0x37 ∷ 0x61 ∷ [])) head
        || has_signature (exactly (0x47 ∷ 0x49 ∷ 0x46 ∷ 0x38 ∷ 0x39 ∷ 0x61 ∷ [])) head
    then some ".gif"
    else none

abbrev pub attachment_key_prefix : String
attachment_key_prefix = "chat-attachments/"

abbrev pub presign_seconds : ℕ
presign_seconds = 600

unfoldable pub is_alphanumeric : Char → Bool
unfolding is_digit
is_alphanumeric ch =
    let c = code ch in (leb b'A' c && leb c b'Z') || (leb b'a' c && leb c b'z') || is_digit ch

-- `path.Ext`: what follows the last dot, with it, unless a slash does.
unfoldable pub extension : String → String
extension String.[] = ""
extension (String.◌∷◌ c s) =
    let rest = extension s in
    if not (rest == "")
    then rest
    else if code c == b'.' && all_runes (λ d. not (code d == b'/')) s
    then String.◌∷◌ c s
    else ""

-- `safeExtPattern`
unfoldable pub safe_ext_pattern : String → Bool
unfolding all_runes is_alphanumeric
safe_ext_pattern String.[] = false
safe_ext_pattern (String.◌∷◌ c s) =
    code c == b'.' && leb 1 (byte_len s) && leb (byte_len s) 8 && all_runes is_alphanumeric s

-- `strings.Contains(key, "..")`
unfoldable pub has_dots : String → Bool
has_dots String.[] = false
has_dots (String.◌∷◌ c s) = is_some (strip_prefix ".." (String.◌∷◌ c s)) || has_dots s

module _ (env : Env) where
  unfoldable pub safe_ext : String → String
  unfolding extension safe_ext_pattern
  safe_ext filename =
      if safe_ext_pattern (extension filename)
      then map_runes env.lower_rune (extension filename)
      else ""

  -- The signed URL, the key and the seconds that it is good for.
  unfoldable pub get_upload_url : String → Serve (String × String × ℕ)
  unfolding safe_ext
  get_upload_url filename = do
    refuse_if (not env.has_s3) 503 "file uploads are not configured"
    name ← new_string env
    let key = attachment_key_prefix ++ name ++ safe_ext (trim_space filename)
    url ← or_refuse (env.presign_put key) 500 "failed to create upload url"
    pure (url, key, presign_seconds)

  unfoldable pub get_download_url : String → Serve String
  unfolding has_dots
  get_download_url key = do
    refuse_if (not env.has_s3) 503 "file uploads are not configured"
    refuse_if
        (not (is_some (strip_prefix attachment_key_prefix (trim_space key)))
          || has_dots (trim_space key))
        400 "invalid file key"
    or_refuse (env.presign_get (trim_space key)) 500 "failed to create download url"

  unfoldable pub uploaded_file : AvatarForm → Serve (List ℕ)
  uploaded_file malformed = refuse 400 "image is too large (max 5 MB) or the upload was malformed"
  uploaded_file no_file = refuse 400 "no image file provided under the \"avatar\" field"
  uploaded_file (file bytes) = pure bytes

  -- `Upload`, which a failed call leaves without an object.
  unfoldable pub put : AvatarStore → String → Serve String
  unfolding emit object_url
  put store key =
      if env.put_object key
      then (do emit (upload key); pure (object_url store key))
      else refuse 500 "failed to store image"

  -- The URL of the stored photo, and its key.
  unfoldable pub store_uploaded_avatar : String → AvatarForm → Serve (String × String)
  unfolding uploaded_file image_extension put
  store_uploaded_avatar key_prefix form = do
    store ← or_refuse env.avatar_store 503 "avatar uploads are not configured"
    bytes ← uploaded_file form
    ext ←
        or_refuse (image_extension bytes) 400 "unsupported image type; use JPEG, PNG, WebP, or GIF"
    refuse_if (not env.rewinds) 500 "failed to read image"
    name ← new_string env
    let key = key_prefix ++ name ++ ext
    url ← put store key
    pure (url, key)

  -- What is done with the outcome of the update: a photo that no row points to is deleted.
  unfoldable pub or_discard {ℓ} : {A : Type ℓ} → String → (Error → ℕ × String) → Result A → Serve A
  unfolding emit
  or_discard key answer (ok a) = pure a
  or_discard key answer (err e) = do emit (delete key); refuse (answer e).0 (answer e).1

  unfoldable pub upload_avatar : Option ℕ → AvatarForm → Serve UserSummary
  unfolding store_uploaded_avatar or_discard to_user_summary broadcast_user_update
  upload_avatar caller form = do
    me ← authenticated caller
    stored ← store_uploaded_avatar "users/" form
    outcome ← attempt (update_avatar_url env.sql me stored.0)
    user ←
        or_discard stored.1 (missing 404 "user not found" "failed to update profile picture")
          outcome
    broadcast_user_update env (to_user_summary user)
    pure (to_user_summary user)

  unfoldable pub upload_group_avatar : Option ℕ → String → AvatarForm → Serve GroupDto
  unfolding require_group_member store_uploaded_avatar or_discard show_group
  upload_group_avatar caller id form = do
    me ← authenticated caller
    g ← require_group_member env id me
    stored ← store_uploaded_avatar "groups/" form
    outcome ← attempt (update_group_avatar env.sql g stored.0)
    or_discard stored.1 (missing 404 "group not found" "failed to update group photo") outcome
    show_group env g me

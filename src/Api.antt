-- ===== src/Api.antt =====
-- internal/api: the HTTP handlers, as functions on the state of the server. A handler replies, and
-- leaves a database and a list of the calls that it made on the hub and on the object store.
pub mod Keeping
pub mod Validation
pub mod Accounts
pub mod Pins
pub mod Uploads
pub mod Google
pub mod Groups
pub mod Members
pub mod Guards
pub mod Sound
pub mod Founding
pub mod Sparing
pub mod Routes
pub mod Serving
pub mod Authority
pub mod Removal
pub mod Patterns
pub mod Registering
pub mod Provisioned
mod Tests
mod AccountTests
use Prim.Native.Char.{Char}
use vibe_net_backend.Base.{
  ℕ, suc, String, Bool, true, false, Option, none, some, List, [], ◌∷◌, ◌++◌, if◌then◌else◌,
}
use vibe_net_backend.Storage.{AvatarStore}
use vibe_net_backend.Auth.Google.{GoogleOauthConfig, UserInfoResponse}
use vibe_net_backend.Db.Sql.{Sql}
use vibe_net_backend.Db.Store.{Db, M, Error, record_not_found, Result, ok, err}

-- What the handlers use of other code. `none` is an error.
pub record Env : Type 1 where
  pub sql : Sql
  -- The time of the n-th statement, for the columns that GORM fills.
  pub clock : ℕ → ℕ
  -- `uuid.Parse`
  pub parse_uuid : String → Option ℕ
  -- LOWER and ILIKE of the database, and its order of texts.
  pub lower : String → String
  pub ilike : String → String → Bool
  pub collation : String → ℕ
  -- `bcrypt.GenerateFromPassword` and the making of a token.
  pub hash_password : String → Option String
  pub generate_token : ℕ → String → Option String
  -- HMAC-SHA256, and the secret of the PINs.
  pub hmac : String → List ℕ → List ℕ
  pub pin_secret : String
  -- `unicode.ToLower`
  pub lower_rune : Char → Char
  -- The n-th `uuid.NewString`.
  pub new_name : ℕ → String
  -- `h.avatarStore`, and whether PutObject succeeds.
  pub avatar_store : Option AvatarStore
  pub put_object : String → Bool
  -- Whether a photo can be read again from its start.
  pub rewinds : Bool
  -- `h.s3 != nil`, and the URLs that it signs.
  pub has_s3 : Bool
  pub presign_put : String → Option String
  pub presign_get : String → Option String
  -- `h.googleOAuth`, 32 random bytes in base64, the exchange of a code for an access token, and the
  -- request for a profile.
  pub google : GoogleOauthConfig
  pub random_state : Option String
  pub auth_code_url : String → String
  pub exchange : String → Option String
  pub user_info : String → Option UserInfoResponse
  -- `url.QueryEscape`
  pub query_escape : String → String
  -- `h.broadcaster != nil`
  pub has_broadcaster : Bool

-- The frames that handlers push, and the JSON fields that they fill. A name is left out by "".
pub data ApiFrame : Type 0 where
  group_update : ℕ → String → ApiFrame
  removed_from_group : ℕ → String → ApiFrame
  invite_received : ℕ → ℕ → String → String → ApiFrame
  user_update : ℕ → String → String → Option String → ApiFrame

-- The calls of the `Broadcaster`, those of the avatar store that change it, and the cookies that
-- are set: the state of a sign-in, which "" clears.
pub data Effect : Type 0 where
  deliver_to_user : ℕ → ApiFrame → Effect
  invalidate_group : ℕ → Effect
  broadcast : ApiFrame → Effect
  upload delete : String → Effect
  set_state_cookie : String → Effect

pub record Server : Type 0 where
  pub db : Db
  pub effects : List Effect
  -- How many names were made up.
  pub names : ℕ

-- The answer to a request: a body, or an error with its status code.
pub data Reply {ℓ} (A : Type ℓ) : Type ℓ where
  done : A → Reply A
  refused : ℕ → String → Reply A

abbrev pub Serve {ℓ} : Type ℓ → Type ℓ
Serve A = Server → Reply A × Server

unfoldable pub continue {ℓ κ} :
    {A : Type ℓ} {B : Type κ} → Reply A × Server → (A → Serve B) → Reply B × Server
continue (done a, s) f = f a s
continue (refused code message, s) f = (refused code message, s)

infixl 5 ◌>>=◌ ◌>>◌
abbrev pub ◌>>=◌ {ℓ κ} : {A : Type ℓ} {B : Type κ} → Serve A → (A → Serve B) → Serve B
◌>>=◌ m f s = continue (m s) f

abbrev pub ◌>>◌ {ℓ} : {B : Type ℓ} → Serve (Unit {0}) → Serve B → Serve B
m >> k = m >>= λ _. k

abbrev pub pure {ℓ} : {A : Type ℓ} → A → Serve A
pure a s = (done a, s)

-- `writeError`, and the return that follows it.
abbrev pub refuse {ℓ} : {A : Type ℓ} → ℕ → String → Serve A
refuse code message s = (refused code message, s)

unfoldable pub refuse_if : Bool → ℕ → String → Serve (Unit {0})
refuse_if true code message = refuse code message
refuse_if false code message = pure tt

-- `if err != nil { writeError(w, http.StatusBadRequest, err.Error()) }`
unfoldable pub refuse_invalid : Option String → Serve (Unit {0})
refuse_invalid none = pure tt
refuse_invalid (some message) = refuse 400 message

unfoldable pub when : Bool → Serve (Unit {0}) → Serve (Unit {0})
when true m = m
when false m = pure tt

unfoldable pub or_refuse {ℓ} : {A : Type ℓ} → Option A → ℕ → String → Serve A
or_refuse none code message = refuse code message
or_refuse (some a) code message = pure a

-- `UserIDFromContext`
abbrev pub authenticated : Option ℕ → Serve ℕ
authenticated caller = or_refuse caller 401 "unauthorized"

-- `json.NewDecoder(r.Body).Decode`, where `none` is a body that does not decode.
abbrev pub decoded : {A : Type 0} → Option A → Serve A
decoded body = or_refuse body 400 "invalid request body"

unfoldable pub asked {ℓ} :
    {A : Type ℓ} → (Error → ℕ × String) → Server → Result A × Db → Reply A × Server
asked answer s (ok a, db) = (done a, record s { db = db })
asked answer s (err e, db) =
    let (code, message) = answer e in (refused code message, record s { db = db })

-- A call of a repository, with the answer to each of its errors.
unfoldable pub ask {ℓ} : {A : Type ℓ} → M A → (Error → ℕ × String) → Serve A
unfolding asked
ask m answer s = asked answer s (m s.db)

-- The answers: the same to every error, or another one to a missing record.
abbrev pub failed : String → Error → ℕ × String
failed message e = (500, message)

abbrev pub missing : ℕ → String → String → Error → ℕ × String
missing code text message record_not_found = (code, text)
missing code text message e = (500, message)

unfoldable pub tried {ℓ} : {A : Type ℓ} → Server → Result A × Db → Reply (Result A) × Server
tried s (r, db) = (done r, record s { db = db })

-- A call whose error the handler looks at itself.
unfoldable pub attempt {ℓ} : {A : Type ℓ} → M A → Serve (Result A)
unfolding tried
attempt m s = tried s (m s.db)

unfoldable pub emit : Effect → Serve (Unit {0})
emit e s = (done tt, record s { effects = s.effects ++ e ∷ [] })

module _ (env : Env) where
  abbrev pub if_broadcaster : Serve (Unit {0}) → Serve (Unit {0})
  if_broadcaster m = if env.has_broadcaster then m else pure tt

  -- `deliverFrame`
  unfoldable pub deliver_frame : ℕ → ApiFrame → Serve (Unit {0})
  unfolding emit
  deliver_frame u frame = if_broadcaster (emit (deliver_to_user u frame))

  unfoldable pub invalidate : ℕ → Serve (Unit {0})
  unfolding emit
  invalidate g = if_broadcaster (emit (invalidate_group g))

  -- `uuid.NewString`
  abbrev pub new_string : Serve String
  new_string s = (done (env.new_name s.names), record s { names = suc s.names })

  -- `time.Now()`
  abbrev pub time_now : Serve ℕ
  time_now s = (done (env.clock s.db.sent), s)

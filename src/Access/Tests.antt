-- ===== src/Access/Tests.antt =====
-- A handshake and a sign-in at a small database.
use vibe_net_backend.Base.{
  ℕ, String, Option, none, some, [], ◌∷◌, ◌≡◌, refl, false, Bool, ◌&&◌, arith, if◌then◌else◌,
  trim_space, ◌==◌, String_eq,
}
use vibe_net_backend.Db.Store.{Db, bind, first, find, first_of_rows, statement, settle}
use vibe_net_backend.Db.ListSql.{list_sql}
use vibe_net_backend.Db.Users.{new_user, get_user_by_id, get_user_by_username}
use vibe_net_backend.Access.{
  Claims, Request, admitted, serve_http, handshake_token, user_status, checked_status,
  extract_bearer_token,
}
use vibe_net_backend.Models.{User, user_status_deleted}
use vibe_net_backend.Access.Login.{
  logged_in, login, looked_up, login_user, issued, login_blocked_reason,
}
use vibe_net_backend.Access.Login.Earned.{IsEarned, login-IsEarned, login_user-Blind}
use vibe_net_backend.Access.Sessions.{IsActive, serve_http-IsActive}

abbrev check : String → Option Claims
check token = if token == "good" then some (record { user_id = "10"; username = "ada" }) else none

abbrev parse : String → Option ℕ
parse s = some 10

abbrev request : Request
request = record { authorization = "Bearer good"; query_token = "" }

trims : extract_bearer_token (record { authorization = "Bearer  good "; query_token = "" }) ≡ "good"
unfolding extract_bearer_token trim_space
trims = refl

abbrev ada : User
ada = new_user "ada" "hash" "key" none none 5 10

abbrev accounts : Db
accounts = record {
  tables = record {
    users = ada ∷ [];
    groups = [];
    group_members = [];
    group_invites = [];
    dm_participants = [];
    messages = [];
  };
  sent = 0;
  in_transaction = false;
  failed = false;
}

opened :
    serve_http check parse (list_sql 999) request accounts
    ≡ (admitted 10 "ada", record accounts { sent = 1 })
unfolding serve_http handshake_token user_status checked_status get_user_by_id first find
    first_of_rows bind statement settle
opened = refl

serve_http-IsActive_example : IsActive check parse (list_sql 999) request accounts 10 "ada"
serve_http-IsActive_example = serve_http-IsActive check parse (list_sql 999) request accounts opened

abbrev bcrypt : String → String → Bool
bcrypt hash password = hash == "hash" && password == "secret"

abbrev sign : ℕ → String → Option String
sign u name = some "token"

signed_in :
    login bcrypt sign (list_sql 999) " ada " "secret" accounts
    ≡ (logged_in "token" ada, record accounts { sent = 1 })
unfolding login looked_up login_user issued login_blocked_reason trim_space get_user_by_username
    first find first_of_rows bind statement settle
signed_in = refl

login-IsEarned_example : IsEarned bcrypt sign " ada " "secret" accounts "token" ada
login-IsEarned_example =
    login-IsEarned bcrypt sign (list_sql 999) " ada " "secret" accounts signed_in

wrong_password : (hash : String) → ada.password_hash ≡ some hash → bcrypt hash "guess" ≡ false
wrong_password hash e = ground arith

login_user-Blind_example :
    login_user bcrypt sign "guess" (record ada { status = user_status_deleted })
    ≡ login_user bcrypt sign "guess" ada
login_user-Blind_example =
    login_user-Blind bcrypt sign "guess" user_status_deleted ada wrong_password

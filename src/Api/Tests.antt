-- ===== src/Api/Tests.antt =====
-- Requests to a server with a small database.
use vibe_net_backend.Base.{
  ℕ, String, true, false, Option, none, some, List, [], ◌∷◌, ◌≡◌, ◌⊎◌, refl, if◌then◌else◌, ◌==◌,
  ℕ_eq, String_eq,
}
use vibe_net_backend.Db.ListSql.{list_sql}
use vibe_net_backend.Db.Groups.Sound.{IsSound}
use vibe_net_backend.Models.{GroupMember}
use vibe_net_backend.Db.Groups.{
  leave_group, settle_group, get_group_member_role, get_group_member_ids,
}
use vibe_net_backend.Db.Rosters.{get_group_with_members, list_group_members}
use vibe_net_backend.Db.Store.{
  bind, relabel, statement, settle, commit, closed, transaction, find, find_ordered, first_of_rows,
  first, delete, update,
}
use vibe_net_backend.Auth.Google.{GoogleUserInfo}
use vibe_net_backend.Access.{Claims, Request}
use vibe_net_backend.Api.{
  Server, Reply, done, continue, or_refuse, refuse_if, when, asked, ask, tried, attempt, emit,
  deliver_frame, invalidate, Env,
}
use vibe_net_backend.Api.Routes.{Endpoint, creates_group, removes_member, route, serve_all}
use vibe_net_backend.Api.Groups.{
  GroupDto, require_group_admin, notify_members, notify_group_updated, deliver_each,
}
use vibe_net_backend.Api.Members.{remove_group_member, check_removal}
use vibe_net_backend.Api.Removal.{Removed, remove_group_member-Removed}
use vibe_net_backend.Api.Authority.{Alike}
use vibe_net_backend.Api.Authority.Ruling.{MayAs, route-MayAs}
use vibe_net_backend.Api.Serving.{fresh_server, serve_all-IsSound}

-- Identifiers are written "10", "11", or otherwise 1000, the first that the database gives out.
abbrev parse : String → Option ℕ
parse s = if s == "10" then some 10 else if s == "11" then some 11 else some 1000

abbrev pub google_profile : GoogleUserInfo
google_profile = record {
  id = "12345678";
  email = "ada@example.org";
  verified_email = true;
  name = "Ada";
  picture = "";
}

abbrev pub env : Env
env = record {
  sql = list_sql 999;
  clock = λ n. n;
  parse_uuid = parse;
  lower = λ s. s;
  ilike = λ text pattern. true;
  collation = λ s. 0;
  hash_password = λ p. some "hash";
  generate_token = λ u name. some "token";
  hmac = λ key message. [];
  pin_secret = "k";
  lower_rune = λ c. c;
  new_name = λ n. "name";
  avatar_store = none;
  put_object = λ key. true;
  rewinds = true;
  has_s3 = false;
  presign_put = λ key. none;
  presign_get = λ key. none;
  google = record {
    client_id = "id";
    client_secret = "secret";
    redirect_url = "url";
    frontend_url = "";
  };
  random_state = some "state";
  auth_code_url = λ state. state;
  exchange = λ code. some code;
  user_info = λ token. some (record { status_code = 200; body = some google_profile });
  query_escape = λ s. s;
  has_broadcaster = true;
}

abbrev pub check : String → Option Claims
check token = some (record { user_id = token; username = "" })

abbrev pub as_user : String → Request
as_user id = record { authorization = ""; query_token = id }

abbrev requests : List (Request × Endpoint)
requests =
    (
      as_user "10",
      creates_group (
          some (record {
            name = " Tea ";
            self_key = record { wrapped_key = "k"; key_nonce = "n" };
            members =
                record { user_id = "11"; key = record { wrapped_key = "l"; key_nonce = "m" } } ∷ [];
          })),
    )
    ∷ (as_user "11", removes_member "1000" "10")
    ∷ (as_user "10", removes_member "1000" "11")
    ∷ []

serve_all-IsSound_example : IsSound 1000 (serve_all env check requests fresh_server).db.tables
serve_all-IsSound_example = serve_all-IsSound env 1000 check requests

abbrev pub two_members : List GroupMember
two_members =
    record {
      group_id = 1000;
      user_id = 10;
      role = "owner";
      wrapped_key = "k";
      key_nonce = "n";
      wrapped_by = 10;
      joined_at = 1;
    }
    ∷ record {
      group_id = 1000;
      user_id = 11;
      role = "admin";
      wrapped_key = "l";
      key_nonce = "m";
      wrapped_by = 10;
      joined_at = 2;
    }
    ∷ []

-- A group with an owner and an admin.
abbrev pub small_server : Server
small_server = record {
  db = record {
    tables = record {
      users = [];
      groups =
          record {
            group_id = 1000;
            name = "Tea";
            created_by = 10;
            created_at = 1;
            avatar_url = none;
          }
          ∷ [];
      group_members = two_members;
      group_invites = [];
      dm_participants = [];
      messages = [];
    };
    sent = 0;
    in_transaction = false;
    failed = false;
  };
  effects = [];
  names = 0;
}

route-MayAs_example :
    Alike small_server.db.tables
      (route env check (as_user "11", removes_member "1000" "10") small_server).1.db.tables
    ⊎ MayAs env check (as_user "11") (removes_member "1000" "10") small_server.db.tables
route-MayAs_example = route-MayAs env check (as_user "11") (removes_member "1000" "10") small_server

abbrev removal : Reply GroupDto × Server
removal = remove_group_member env (some 10) "1000" "11" small_server

abbrev shown : GroupDto
shown = record {
  group_id = 1000;
  name = "Tea";
  created_by = 10;
  created_at = 1;
  avatar_url = none;
  members = [];
  wrapped_key = "k";
  key_nonce = "n";
  wrapped_by = 10;
}

removal_run : removal ≡ (done shown, removal.1)
unfolding remove_group_member or_refuse continue require_group_admin ask asked refuse_if
    get_group_member_role first find statement settle first_of_rows bind check_removal when
    leave_group settle_group transaction commit closed relabel delete update find_ordered invalidate
    deliver_frame emit get_group_with_members list_group_members notify_group_updated notify_members
    attempt tried get_group_member_ids deliver_each
removal_run = refl

remove_group_member-Removed_example :
    Removed env (some 10) "1000" "11" small_server.db.tables removal.1.db.tables
remove_group_member-Removed_example =
    remove_group_member-Removed env (some 10) "1000" "11" small_server removal_run

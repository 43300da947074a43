-- ===== src/Access/Reading/Tests.antt =====
-- Histories of rooms at a small database.
use vibe_net_backend.Base.{
  ℕ, String, Option, some, [], ◌∷◌, ◌≡◌, refl, false, if◌then◌else◌, ◌==◌, ℕ_eq, trim_space,
}
use vibe_net_backend.Models.{Message, group_role_member}
use vibe_net_backend.Db.Store.{Db, bind, count, find, find_ordered, statement, settle}
use vibe_net_backend.Db.ListSql.{list_sql}
use vibe_net_backend.Db.Groups.{is_group_member}
use vibe_net_backend.Db.Messages.{get_messages}
use vibe_net_backend.Access.Reading.{get_chat_history, page_limit, history, no_history}
use vibe_net_backend.Access.Reading.Participants.{MayRead, IsPage, get_chat_history-MayRead}

abbrev name_of : ℕ → String
name_of u = if u == 10 then "ada" else "bob"

abbrev parse : String → Option ℕ
parse s = some 3

abbrev hello : Message
hello = record {
  chat_room_id = "group:g3";
  timestamp = 50;
  message_id = "m1";
  sender_id = "bob";
  ciphertext = "c";
  nonce = "n";
}

abbrev rooms : Db
rooms = record {
  tables = record {
    users = [];
    groups = [];
    group_members =
        record {
          group_id = 3;
          user_id = 10;
          role = group_role_member;
          wrapped_key = "k";
          key_nonce = "n";
          wrapped_by = 11;
          joined_at = 0;
        }
        ∷ [];
    group_invites = [];
    dm_participants = [];
    messages = hello ∷ [];
  };
  sent = 0;
  in_transaction = false;
  failed = false;
}

plus : page_limit " +7 " ≡ 7
unfolding page_limit trim_space
plus = refl

too_many : page_limit "201" ≡ 50
unfolding page_limit trim_space
too_many = refl

stranger :
    get_chat_history parse name_of (list_sql 999) "eve:bob" 10 "" rooms
    ≡ (no_history 403 "not a participant of this chat room", rooms)
unfolding get_chat_history
stranger = refl

member :
    get_chat_history parse name_of (list_sql 999) "group:g3" 10 "7" rooms
    ≡ (history (hello ∷ []), record rooms { sent = 2 })
unfolding get_chat_history is_group_member get_messages count find find_ordered bind statement
    settle trim_space
member = refl

get_chat_history-MayRead_example :
    MayRead parse name_of (list_sql 999) "group:g3" 10 rooms
    × IsPage parse name_of (list_sql 999) "group:g3" rooms (hello ∷ [])
get_chat_history-MayRead_example =
    get_chat_history-MayRead parse name_of (list_sql 999) "group:g3" 10 "7" rooms member

-- ===== src/Db/AccountTests.antt =====
-- The statements about accounts, messages and listings at a small database.
use vibe_net_backend.Base.{
  ◌<◌, Bool, false, not, ◌&&◌, none, some, [], ◌∷◌, ◌≡◌, refl, arith, ℕ_eq, String_eq, count_p,
}
use vibe_net_backend.Models.{User, Group, GroupMember, Message, group_role_owner}
use vibe_net_backend.Db.Store.{
  Db, ok, bind, find, find_ordered, first, first_of_rows, count, statement, settle, create,
  create_or_update, update, update_unique, relabel,
}
use vibe_net_backend.Db.ListSql.{list_sql}
use vibe_net_backend.Db.Messages.{get_messages, save_message, limit_of}
use vibe_net_backend.Db.Messages.History.{save_message-saved, is_at, is_saved}
use vibe_net_backend.Db.Users.{
  create_user, check_free, new_user, update_profile, get_user_by_id, delete_user, update_user,
  is_user,
}
use vibe_net_backend.Db.Users.Unique.{IsUnique, has_name, create_user-IsUnique}
use vibe_net_backend.Db.Users.Renaming.{IsRenamed, update_profile-IsRenamed}
use vibe_net_backend.Db.Users.Erasure.{is_blank, delete_user-erases}
use vibe_net_backend.Db.Rosters.{GroupWithMembers, member_info}

abbrev ada : User
ada = record (new_user "ada" "hash" "key" (some "ada@example.org") none 5 10) { user_id = 10 }

abbrev hello : Message
hello = record {
  chat_room_id = "room";
  timestamp = 7;
  message_id = "m";
  sender_id = "ada";
  ciphertext = "text";
  nonce = "nonce";
}

abbrev membership_row : GroupMember
membership_row = record {
  group_id = 1;
  user_id = 10;
  role = group_role_owner;
  wrapped_key = "key";
  key_nonce = "nonce";
  wrapped_by = 10;
  joined_at = 6;
}

abbrev group_row : Group
group_row = record {
  group_id = 1;
  name = "demo";
  created_by = 10;
  created_at = 6;
  avatar_url = none;
}

abbrev pub small : Db
small = record {
  tables = record {
    users = ada ∷ [];
    groups = group_row ∷ [];
    group_members = membership_row ∷ [];
    group_invites = [];
    dm_participants = [];
    messages = hello ∷ record hello { timestamp = 3 } ∷ [];
  };
  sent = 0;
  in_transaction = false;
  failed = false;
}

pub small-IsUnique : IsUnique small.tables
small-IsUnique name = ground arith

read_back :
    get_messages (list_sql 999) "room" 1 small ≡ (ok (hello ∷ []), record small { sent = 1 })
unfolding get_messages limit_of bind find_ordered statement settle
read_back = refl

abbrev saved : Db
saved = (save_message (list_sql 999) "m2" "room" "ada" "again" "nonce" 7 small).1

saved_ok : save_message (list_sql 999) "m2" "room" "ada" "again" "nonce" 7 small ≡ (ok tt, saved)
unfolding save_message create_or_update statement settle
saved_ok = refl

save_message-saved_example :
    (count_p (is_at (list_sql 999) "room" 7) saved.messages ≡ 1)
    × (count_p (is_saved (list_sql 999) "m2" "room" "ada" "again" "nonce" 7) saved.messages ≡ 1)
save_message-saved_example =
    save_message-saved (list_sql 999) "m2" "room" "ada" "again" "nonce" 7 small (omega arith)
      saved_ok

abbrev registered : Db
registered = (create_user (list_sql 999) "bob" "hash" "key" none none 9 small).1

registered_ok :
    create_user (list_sql 999) "bob" "hash" "key" none none 9 small
    ≡ (ok (new_user "bob" "hash" "key" none none 9 1000), registered)
unfolding create_user check_free bind create statement settle relabel
registered_ok = refl

create_user-IsUnique_example :
    IsUnique registered.tables
    × (count_p (has_name "bob") small.users ≡ 0)
    × (count_p (has_name "bob") registered.users ≡ 1)
create_user-IsUnique_example =
    create_user-IsUnique (list_sql 999) "bob" "hash" "key" none none 9 small small-IsUnique
      registered_ok

abbrev renamed : Db
renamed = (update_profile (list_sql 999) (λ s. s) 10 "eve" "Eve" small).1

renamed_ok :
    update_profile (list_sql 999) (λ s. s) 10 "eve" "Eve" small
    ≡ (ok (record ada { username = "eve"; display_name = "Eve" }), renamed)
unfolding update_profile get_user_by_id count find first first_of_rows bind update_unique statement
    settle relabel
renamed_ok = refl

update_profile-IsRenamed_example :
    IsRenamed
      (λ s. s)
      10
      "eve"
      "Eve"
      small.tables
      renamed.tables
      (record ada { username = "eve"; display_name = "Eve" })
update_profile-IsRenamed_example =
    update_profile-IsRenamed (λ s. s) 10 "eve" "Eve" (list_sql 999) small renamed_ok

abbrev gone : Db
gone = (delete_user (list_sql 999) 10 small).1

gone_ok : delete_user (list_sql 999) 10 small ≡ (ok tt, gone)
unfolding delete_user update_user bind update statement settle
gone_ok = refl

delete_user-erases_example :
    (0 < count_p (is_user 10) small.users)
    × (count_p (λ r. is_user 10 r && not (is_blank r)) gone.users ≡ 0)
    × ((q : User → Bool)
        → count_p (λ r. not (is_user 10 r) && q r) gone.users
          ≡ count_p (λ r. not (is_user 10 r) && q r) small.users)
delete_user-erases_example = delete_user-erases (list_sql 999) 10 small gone_ok

abbrev shown : GroupWithMembers
shown = record {
  group = group_row;
  members = member_info membership_row ada ∷ [];
  membership = membership_row;
}

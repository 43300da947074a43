-- ===== src/Db/Users/Sparing.antt =====
-- internal/db/postgres.go: the methods on accounts keep what does not depend on the users' rows.
use vibe_net_backend.Base.{
  ℕ, Bool, Option, none, some, String, List, ◌≡◌, refl, sym, subst, String_eq, ℕ_eq,
}
use vibe_net_backend.Models.{User}
use vibe_net_backend.Db.Sql.{Sql}
use vibe_net_backend.Db.Store.{
  Tables, Db, M, Result, ok, err, record_not_found, same_text, Error, first, user_table,
}
use vibe_net_backend.Db.Store.Reads.{
  Saves, Saves-bind, Reads-Saves, Saves-pure, saves_rules, Reads-count, Reads-first,
}
use vibe_net_backend.Db.Store.Writes.{update-Saves, update_unique-Saves, create-Saves}
use vibe_net_backend.Db.Reading.{reading}
use vibe_net_backend.Db.Users.{
  attempt, logged, refresh_avatar, backfill_display_name, found_google_user, new_google_user,
  create_or_get_user_by_google, check_free, create_user, update_profile, update_user,
  update_avatar_url, update_public_key, deactivate_user, delete_user, update_pin_settings,
}

pub logged_tables : {A : Type 0} (r : Result A × Db) → (logged r).1.tables ≡ r.1.tables
logged_tables (ok a, db) = refl
logged_tables (err e, db) = refl

ruleset user_rules =
    (saves_rules, update-Saves, update_unique-Saves, create-Saves, Reads-count, Reads-first)

module _ {κ} (sql : Sql) (P : Tables → Type κ)
    (put : (t : Tables) (rs : List User) → P t → P (user_table.put rs t)) where
  check_free-Saves :
      (o : Option String) (p : String → User → Bool) (e : Error) → Saves P (check_free sql o p e)
  unfolding check_free
  check_free-Saves none p e = Saves-pure tt
  check_free-Saves (some v) p e = search user_rules depth 20

  pub create_user-Saves :
      (username hash key : String) (email phone : Option String) (now : ℕ)
      → Saves P (create_user sql username hash key email phone now)
  unfolding create_user
  create_user-Saves username hash key email phone now =
      search (user_rules, check_free-Saves) depth 20

  pub update_profile-Saves :
      (lower : String → String) (u : ℕ) (username display_name : String)
      → Saves P (update_profile sql lower u username display_name)
  unfolding update_profile
  update_profile-Saves lower u username display_name = search (user_rules, reading) depth 20

  update_user-Saves : (u : ℕ) (f : User → User) → Saves P (update_user sql u f)
  unfolding update_user
  update_user-Saves u f = search user_rules depth 20

  pub update_avatar_url-Saves : (u : ℕ) (url : String) → Saves P (update_avatar_url sql u url)
  unfolding update_avatar_url
  update_avatar_url-Saves u url = search (user_rules, update_user-Saves, reading) depth 20

  pub update_public_key-Saves : (u : ℕ) (key : String) → Saves P (update_public_key sql u key)
  unfolding update_public_key
  update_public_key-Saves u key = update_user-Saves u _

  pub deactivate_user-Saves : (u : ℕ) → Saves P (deactivate_user sql u)
  unfolding deactivate_user
  deactivate_user-Saves u = update_user-Saves u _

  pub delete_user-Saves : (u : ℕ) → Saves P (delete_user sql u)
  unfolding delete_user
  delete_user-Saves u = update_user-Saves u _

  pub update_pin_settings-Saves :
      (u : ℕ) (enabled : Bool) (pin_type : String) (pin : Option String)
      → Saves P (update_pin_settings sql u enabled pin_type pin)
  unfolding update_pin_settings
  update_pin_settings-Saves u enabled pin_type pin = search (user_rules, reading) depth 20

  attempt-Saves : {A : Type 0} (m : M A) → Saves P m → Saves P (attempt m)
  attempt-Saves m h = record { at = λ db p. subst P (sym (logged_tables (m db))) (h.at db p) }

  refresh_avatar-Saves : (url : String) (r : User) → Saves P (refresh_avatar sql url r)
  unfolding refresh_avatar
  refresh_avatar-Saves url r = search (user_rules, attempt-Saves) depth 20

  backfill_display_name-Saves :
      (name : String) (r : User) → Saves P (backfill_display_name sql name r)
  unfolding backfill_display_name
  backfill_display_name-Saves name r = search (user_rules, attempt-Saves) depth 20

  found_google_user-Saves :
      (google_id email username display_name url : String) (now : ℕ) (r : Result User × Db)
      → P r.1.tables
      → P (found_google_user sql google_id email username display_name url now r).1.tables
  unfolding found_google_user
  found_google_user-Saves google_id email username display_name url now (ok existing, db) p =
      (Saves-bind _ _ (refresh_avatar-Saves url existing)
          (λ r. backfill_display_name-Saves display_name r)).at
        db p
  found_google_user-Saves google_id email username display_name url now (err record_not_found, db)
        p =
      (create-Saves sql P user_table put
          (new_google_user google_id email username display_name url now)).at
        db p
  found_google_user-Saves google_id email username display_name url now (err e, db) p = p

  pub create_or_get_user_by_google-Saves :
      (google_id email username display_name url : String) (now : ℕ)
      → Saves P (create_or_get_user_by_google sql google_id email username display_name url now)
  unfolding create_or_get_user_by_google
  create_or_get_user_by_google-Saves google_id email username display_name url now = record {
    at = λ db p.
        found_google_user-Saves google_id email username display_name url now (looked_for db) (
          (Reads-Saves {P = P} (first sql user_table (λ r. same_text r.google_id (some google_id)))
              (Reads-first sql user_table _)).at
            db p);
  }
    where
      looked_for : Db → Result User × Db
      looked_for db = first sql user_table (λ r. same_text r.google_id (some google_id)) db

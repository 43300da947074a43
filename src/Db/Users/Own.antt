-- ===== src/Db/Users/Own.antt =====
-- internal/db/postgres.go: the methods on one account change its row alone.
use vibe_net_backend.Base.{
  ℕ, Bool, not, ◌&&◌, Option, none, some, String, ◌≡◌, refl, subst, ap, ◌∙◌, if◌then◌else◌, ◌==◌,
  ℕ_eq, String_eq, count_p, arith,
}
use vibe_net_backend.Models.{User}
use vibe_net_backend.Db.Sql.{Sql}
use vibe_net_backend.Db.Sql.Counts.{count_p-update_same}
use vibe_net_backend.Db.Store.{Tables, update, update_unique, user_table}
use vibe_net_backend.Db.Store.Reads.{
  Saves, Saves-bind, Saves-if, Saves-fail, Saves-when, Saves-on_error, Reads-Saves, Saves-statement,
  saves_rules, Reads-count,
}
use vibe_net_backend.Db.Store.Writes.{stored_lem}
use vibe_net_backend.Db.Reading.{reading}
use vibe_net_backend.Db.Users.{
  is_user, erased, pin_settings, update_profile, update_user, update_avatar_url, update_public_key,
  deactivate_user, delete_user, update_pin_settings,
}

-- The rows of everybody but `u` are as they were, in any order.
abbrev pub OthersKept : ℕ → Tables → Tables → Type 0
OthersKept u t t' =
    (q : User → Bool)
    → count_p (λ r. q r && not (is_user u r)) t'.users
      ≡ count_p (λ r. q r && not (is_user u r)) t.users

others_lem : (p p' a b : Bool) → p' ≡ p → (if p then a && not p' else b && not p) ≡ (b && not p)
others_lem p p' a b e = ground (arith, e)

module _ (sql : Sql) (u : ℕ) (t0 : Tables) where
  own_lem :
      (f : User → User)
      → ((r : User) → (f r).user_id ≡ r.user_id)
      → (t : Tables) → OthersKept u t0 t
      → OthersKept u t0 (user_table.put (sql.update User (is_user u) f t.users) t)
  own_lem f same t kept q =
      count_p-update_same sql (is_user u) (λ r. q r && not (is_user u r)) t.users f
        (λ r.
          others_lem (is_user u r) (is_user u (f r)) (q (f r)) (q r) (ap (λ n. n == u) (same r)))
      ∙ kept q

  update_own-Saves :
      (f : User → User)
      → ((r : User) → (f r).user_id ≡ r.user_id)
      → Saves (OthersKept u t0) (update sql user_table (is_user u) f)
  unfolding update
  update_own-Saves f same = Saves-statement sql _ (λ n t a t' e q.
      let stored : user_table.put (sql.update User (is_user u) f t.users) t ≡ t' = cc e in
      subst (OthersKept u t0) stored (own_lem f same t q))

  update_unique_own-Saves :
      (f : User → User)
      → ((r : User) → (f r).user_id ≡ r.user_id)
      → Saves (OthersKept u t0) (update_unique sql user_table (is_user u) f)
  unfolding update_unique
  update_unique_own-Saves f same = Saves-statement sql _ (λ n t a t' e q.
      stored_lem sql (OthersKept u t0) user_table _ _ _ t t' (own_lem f same t q) e)

  update_user_own-Saves :
      (f : User → User)
      → ((r : User) → (f r).user_id ≡ r.user_id)
      → Saves (OthersKept u t0) (update_user sql u f)
  unfolding update_user
  update_user_own-Saves f same = Saves-bind _ _ (update_own-Saves f same) (λ n. search saves_rules)

  pub update_public_key-Own : (key : String) → Saves (OthersKept u t0) (update_public_key sql u key)
  unfolding update_public_key
  update_public_key-Own key = update_user_own-Saves _ (λ r. refl)

  pub deactivate_user-Own : Saves (OthersKept u t0) (deactivate_user sql u)
  unfolding deactivate_user
  deactivate_user-Own = update_user_own-Saves _ (λ r. refl)

  pub delete_user-Own : Saves (OthersKept u t0) (delete_user sql u)
  unfolding delete_user
  delete_user-Own = update_user_own-Saves erased (λ r. refl)

  pub update_avatar_url-Own : (url : String) → Saves (OthersKept u t0) (update_avatar_url sql u url)
  unfolding update_avatar_url
  update_avatar_url-Own url =
      Saves-bind _ _ (update_user_own-Saves _ (λ r. refl)) (λ _. search (saves_rules, reading))

  pin_settings-same :
      (enabled : Bool) (pin_type : String) (pin : Option String) (r : User)
      → (pin_settings sql enabled pin_type pin r).user_id ≡ r.user_id
  pin_settings-same enabled pin_type none r = refl
  pin_settings-same enabled pin_type (some p) r = refl

  pub update_pin_settings-Own :
      (enabled : Bool) (pin_type : String) (pin : Option String)
      → Saves (OthersKept u t0) (update_pin_settings sql u enabled pin_type pin)
  unfolding update_pin_settings
  update_pin_settings-Own enabled pin_type pin = Saves-if _ _ _ (Saves-fail _) (
      Saves-bind _ _ (update_own-Saves _ (pin_settings-same enabled pin_type pin))
        (λ n. search (saves_rules, reading)))

  pub update_profile-Own :
      (lower : String → String) (username display_name : String)
      → Saves (OthersKept u t0) (update_profile sql lower u username display_name)
  unfolding update_profile
  update_profile-Own lower username display_name =
      Saves-bind _ _ (Reads-Saves _ (Reads-count sql user_table _)) (λ n.
        Saves-bind _ _ (Saves-when _ _ (Saves-fail _)) (λ _.
          Saves-bind _ _ (Saves-on_error _ _ (update_unique_own-Saves _ (λ r. refl)))
            (λ m. search (saves_rules, reading))))

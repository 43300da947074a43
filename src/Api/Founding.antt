-- ===== src/Api/Founding.antt =====
-- internal/api/groups.go: `CreateGroup` makes a group with one owner, so it keeps every group sound.
use vibe_net_backend.Base.{
  ℕ, String, Option, List, [], ◌∷◌, ◌≡◌, sym, ap, ◌∙◌, ◌==◌, ℕ_eq, String_eq, count_p, arith,
  Bool-cases, inl, inr,
}
use vibe_net_backend.Models.{GroupMember, group_role_owner, group_role_member}
use vibe_net_backend.Db.Store.Reads.{Saves}
use vibe_net_backend.Db.Reading.{reading}
use vibe_net_backend.Db.Groups.{create_group_with_members}
use vibe_net_backend.Db.Groups.Sound.{IsSound}
use vibe_net_backend.Db.Groups.Founding.{create_group_with_members-IsSound}
use vibe_net_backend.Db.Rosters.{any_of}
use vibe_net_backend.Api.{Env, Server, done}
use vibe_net_backend.Api.Keeping.{
  Keeps, Keeps-bind, Keeps-or_refuse, Keeps-refuse_if, Keeps-refuse_invalid, Keeps-bind_known,
  Keeps-if, Keeps-pure, keeps_rules, bind_done, pure-done,
}
use vibe_net_backend.Api.Groups.{
  WrappedKey, CreateGroupRequest, NewMember, listed_members, create_group, founding_member,
}
use vibe_net_backend.Api.Sound.{deliver_each-Keeps}

abbrev owners : List GroupMember → ℕ
owners rows = count_p (λ m. m.role == group_role_owner) rows

owners-member :
    (u : ℕ) (key : WrappedKey) (me : ℕ) (rest : List GroupMember)
    → owners (founding_member u group_role_member key me ∷ rest) ≡ owners rest
owners-member u key me rest = omega arith

module _ (env : Env) (any : ℕ) where
  create-Saves :
      (name : String) (me now : ℕ) (key : WrappedKey) (others : List GroupMember)
      → owners others ≡ 0
      → Saves (IsSound any) (
          create_group_with_members env.sql name me
            (founding_member me group_role_owner key me ∷ others)
            now)
  create-Saves name me now key others plain = record {
    at = λ db v.
        create_group_with_members-IsSound env.sql name me
          (founding_member me group_role_owner key me ∷ others) now db any (omega (arith, plain)) v;
  }

  listed_members-Keeps :
      (me : ℕ) (seen : List ℕ) (ms : List NewMember)
      → Keeps (IsSound any) (listed_members env me seen ms)
  unfolding listed_members
  listed_members-Keeps me seen [] = search keeps_rules
  listed_members-Keeps me seen (m ∷ ms) = Keeps-bind _ _ (Keeps-or_refuse _ _ _) (λ u.
      Keeps-if _ _ _ (listed_members-Keeps me seen ms) (
        Keeps-bind _ _ (Keeps-refuse_if _ _ _)
          (λ w. Keeps-bind _ _ (listed_members-Keeps me (u ∷ seen) ms) (λ rest. Keeps-pure _))))

  -- No listed member becomes an owner.
  listed_members-plain :
      (me : ℕ) (seen : List ℕ) (ms : List NewMember) (s : Server) {rows : List GroupMember}
      {s' : Server}
      → listed_members env me seen ms s ≡ (done rows, s')
      → owners rows ≡ 0
  unfolding listed_members
  listed_members-plain me seen [] s h =
      ap (count_p (λ (m : GroupMember). m.role == group_role_owner)) (sym (pure-done h).0)
  listed_members-plain me seen (m ∷ ms) s {rows} {s'} h =
      let (u, s1, e1, h1) = bind_done _ _ h in
      elim (Bool-cases (any_of seen u)) [
        | inl y ↦ listed_members-plain me seen ms s1 (rw y at h1)
        | inr n ↦
            let h2 = rw n at h1 in
            let (w, s2, e2, h3) = bind_done _ _ h2 in
            let (rest, s3, e3, h4) = bind_done _ _ h3 in
            ap owners (sym (pure-done h4).0)
            ∙ owners-member u m.key me rest
            ∙ listed_members-plain me (u ∷ seen) ms s2 e3
      ]

  pub create_group-IsSound :
      (caller : Option ℕ) (body : Option CreateGroupRequest)
      → Keeps (IsSound any) (create_group env caller body)
  unfolding create_group
  create_group-IsSound caller body = Keeps-bind _ _ (Keeps-or_refuse _ _ _) (λ me.
      Keeps-bind _ _ (Keeps-or_refuse _ _ _) (λ req. Keeps-bind _ _ (Keeps-refuse_invalid _) (λ u.
        Keeps-bind _ _ (Keeps-refuse_if _ _ _) (λ u'.
          Keeps-bind_known _ _
            (λ rows. count_p (λ (m : GroupMember). m.role == group_role_owner) rows ≡ 0)
            (λ s rows s1 e. listed_members-plain me (me ∷ []) req.members s e)
            (listed_members-Keeps me (me ∷ []) req.members)
            (λ rows plain.
              search
                (
                  keeps_rules,
                  reading,
                  deliver_each-Keeps {0} env,
                  create-Saves _ me _ req.self_key rows plain,
                )
                depth 40)))))

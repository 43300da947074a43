-- ===== src/Api/Authority.antt =====
-- internal/api: who may change the groups. A table is read as the bag of its rows.
pub mod Guarded
pub mod Ruling
pub mod Apart
pub mod Own
use vibe_net_backend.Base.{
  ℕ, ◌<◌, String, Bool, Option, some, ◌≡◌, ◌⊎◌, refl, subst, sym, ap, ◌∙◌, count_p, trim_space, inl,
  inr,
}
use vibe_net_backend.Models.{Group, GroupMember, GroupInvite}
use vibe_net_backend.Db.Store.{Tables}
use vibe_net_backend.Db.Groups.{is_member_row}
use vibe_net_backend.Db.Invites.{is_pending_invite}
use vibe_net_backend.Api.{Env}
use vibe_net_backend.Api.Guards.{HasRole, IsAdmin}
use vibe_net_backend.Api.Routes.{
  Endpoint, creates_group, renames_group, uploads_group_avatar, adds_member, changes_role,
  removes_member, leaves_group, accepts_invite, declines_invite,
}

-- The same groups, members and invitations, in any order.
pub record Alike (t t' : Tables) : Type 0 where
  pub groups : (q : Group → Bool) → count_p q t'.groups ≡ count_p q t.groups
  pub members : (q : GroupMember → Bool) → count_p q t'.group_members ≡ count_p q t.group_members
  pub invites : (q : GroupInvite → Bool) → count_p q t'.group_invites ≡ count_p q t.group_invites

abbrev pub IsMember : ℕ → ℕ → Tables → Type 0
IsMember g u t = 0 < count_p (is_member_row g u) t.group_members

-- A pending invitation of the user.
abbrev pub IsInvited : ℕ → ℕ → Tables → Type 0
IsInvited i u t = 0 < count_p (is_pending_invite i u) t.group_invites

module _ (env : Env) where
  -- The identifier names something for which `P` holds.
  abbrev pub Names : String → (ℕ → Type 0) → Type 0
  Names id P = (g : ℕ) × (env.parse_uuid id ≡ some g) × P g

  -- Whom a route lets change the groups: every account may make a group, members rename one, show
  -- it another photo or leave, owners and admins see to its members, and whoever is invited answers.
  unfoldable pub May : Endpoint → ℕ → Tables → Type 0
  May (creates_group body) me t = Unit
  May (renames_group id body) me t = Names id (λ g. IsMember g me t)
  May (uploads_group_avatar id form) me t = Names id (λ g. IsMember g me t)
  May (adds_member id body) me t = Names id (λ g. IsAdmin g me t)
  May (changes_role id user_id body) me t = Names id (λ g. IsAdmin g me t)
  May (removes_member id user_id) me t = Names id (λ g. IsAdmin g me t)
  May (leaves_group id) me t = Names id (λ g. IsMember g me t)
  May (accepts_invite body) me t =
      (id : String) × (body ≡ some id) × Names (trim_space id) (λ i. IsInvited i me t)
  May (declines_invite body) me t =
      (id : String) × (body ≡ some id) × Names (trim_space id) (λ i. IsInvited i me t)
  May _ me t = ⊥

-- The groups are as they were in `t0`, unless `Q` holds.
abbrev pub Ruled : Tables → Type 0 → Tables → Type 0
Ruled t0 Q t = Alike t0 t ⊎ Q

pub Alike-refl : (t : Tables) → Alike t t
Alike-refl t = record { groups = λ q. refl; members = λ q. refl; invites = λ q. refl }

pub Alike-trans : {t t1 t2 : Tables} → Alike t t1 → Alike t1 t2 → Alike t t2
Alike-trans a b = record {
  groups = λ q. b.groups q ∙ a.groups q;
  members = λ q. b.members q ∙ a.members q;
  invites = λ q. b.invites q ∙ a.invites q;
}

module _ {t t' : Tables} (a : Alike t t') where
  pub IsMember-before : (g u : ℕ) → IsMember g u t' → IsMember g u t
  IsMember-before g u h = subst (λ n. 0 < n) (a.members (is_member_row g u)) h

  pub IsInvited-before : (i u : ℕ) → IsInvited i u t' → IsInvited i u t
  IsInvited-before i u h = subst (λ n. 0 < n) (a.invites (is_pending_invite i u)) h

  HasRole-before : (g u : ℕ) (role : String) → HasRole g u role t' → HasRole g u role t
  HasRole-before g u role h = subst (λ n. 0 < n) (a.members _) h

  pub IsAdmin-before : (g u : ℕ) → IsAdmin g u t' → IsAdmin g u t
  IsAdmin-before g u (inl h) = inl (HasRole-before g u _ h)
  IsAdmin-before g u (inr h) = inr (HasRole-before g u _ h)

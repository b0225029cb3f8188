-- ===== src/Spaces/Members/Owner.antt =====
-- src/spaces/index.ts: the owner of a space stays an admin member of it.
use stohr.Common.{
  ℕ, ◌≡◌, refl, inl, inr, Bool, true, false, not, ◌&&◌, none, some, List, ◌∷◌, arith, ◌==◌, find,
  find_holds, find-All, find-update_where, find-delete_where, All, All-zip, All-map, Bool-cases,
  Option-cases,
}
use stohr.Db.{Db, SpaceRow, SpaceMemberRow, SpaceRole, admin, editor, viewer}
use stohr.Permissions.{member_of}
use stohr.Spaces.Routes.{space_by_id, is_admin}
use stohr.Spaces.Members.{put_member, set_role, drop_member, owned_by}

-- The owner's membership, as it is looked up, is an admin's.
abbrev pub HasOwner : List SpaceMemberRow → SpaceRow → Type 0
HasOwner members s =
    (m : SpaceMemberRow) × (find (member_of s.owner_id s.id) members ≡ some m) × (m.role ≡ admin)

abbrev pub OwnersAreAdmins : Db → Type 0
OwnersAreAdmins db = All (HasOwner db.space_members) db.spaces

-- The primary keys of the two tables.
abbrev pub MembersAreKeyed : Db → Type 0
MembersAreKeyed db =
    All (λ m. find (λ (r : SpaceMemberRow). r.id == m.id) db.space_members ≡ some m)
      db.space_members

abbrev pub SpacesAreKeyed : Db → Type 0
SpacesAreKeyed db = All (λ s. space_by_id db s.id ≡ some s) db.spaces

role-admin : (role : SpaceRole) → not (is_admin role) ≡ false → role ≡ admin
role-admin admin h = refl
role-admin editor h = absurd cc
role-admin viewer h = absurd cc

module _ (db : Db) (members : MembersAreKeyed db) (spaces : SpacesAreKeyed db)
    (owners : OwnersAreAdmins db) where
  -- The owner's row of a space, if it has the id of a row of the space `id`, is that row.
  owner_row :
      (s : SpaceRow) (m t : SpaceMemberRow) (p : SpaceMemberRow → Bool)
      → space_by_id db s.id ≡ some s
      → find (member_of s.owner_id s.id) db.space_members ≡ some m
      → find p db.space_members ≡ some t
      → (m.id == t.id) ≡ true
      → owned_by (space_by_id db t.space_id) t.user_id ≡ true
  owner_row s m t p keyed hm ht same =
      let key_m = find-All _ _ db.space_members m members hm in
      let key_t = find-All _ p db.space_members t members ht in
      let ids : m.id ≡ t.id = ground arith in
      let key_t' : find (λ (r : SpaceMemberRow). r.id == m.id) db.space_members ≡ some t =
        rw ids key_t in
      let row : m ≡ t = cc in
      let held = find_holds (member_of s.owner_id s.id) db.space_members m hm in
      let space : m.space_id ≡ s.id = ground arith in
      let user : m.user_id ≡ s.owner_id = ground arith in
      rw (← row, space, user, keyed) (ground arith)

  pub set_role-OwnersAreAdmins :
      (t : SpaceMemberRow) (p : SpaceMemberRow → Bool) (role : SpaceRole)
      → find p db.space_members ≡ some t
      → owned_by (space_by_id db t.space_id) t.user_id && not (is_admin role) ≡ false
      → OwnersAreAdmins (set_role t.id role db)
  set_role-OwnersAreAdmins t p role ht guard = All-zip _ _ _ kept db.spaces spaces owners
    where
      kept :
          (s : SpaceRow)
          → space_by_id db s.id ≡ some s
          → HasOwner db.space_members s
          → HasOwner (set_role t.id role db).space_members s
      kept s keyed (m, hm, is_a) =
          let found =
            find-update_where (member_of s.owner_id s.id) (λ (r : SpaceMemberRow). r.id == t.id)
              (λ (r : SpaceMemberRow). record r { role = role }) db.space_members m (λ x. refl)
              hm in
          elim (Bool-cases (m.id == t.id)) [
            | inr f ↦ (m, rw f at found, is_a)
            | inl same ↦
                let owned = owner_row s m t p keyed hm ht same in
                let now_admin : role ≡ admin = role-admin role (rw owned at guard) in
                (record m { role = role }, rw same at found, now_admin)
          ]

  pub drop_member-OwnersAreAdmins :
      (t : SpaceMemberRow) (p : SpaceMemberRow → Bool)
      → find p db.space_members ≡ some t
      → owned_by (space_by_id db t.space_id) t.user_id ≡ false
      → OwnersAreAdmins (drop_member t.id db)
  drop_member-OwnersAreAdmins t p ht guard = All-zip _ _ _ kept db.spaces spaces owners
    where
      kept :
          (s : SpaceRow)
          → space_by_id db s.id ≡ some s
          → HasOwner db.space_members s
          → HasOwner (drop_member t.id db).space_members s
      kept s keyed (m, hm, is_a) = elim (Bool-cases (m.id == t.id)) [
        | inr f ↦ (
          m,
          find-delete_where (member_of s.owner_id s.id) (λ r. r.id == t.id) db.space_members m hm f,
          is_a,
        )
        | inl same ↦ let owned = owner_row s m t p keyed hm ht same in absurd cc
      ]

  pub put_member-OwnersAreAdmins :
      (new_id id user_id : ℕ) (role : SpaceRole)
      → owned_by (space_by_id db id) user_id && not (is_admin role) ≡ false
      → OwnersAreAdmins (put_member db new_id id user_id role).1
  put_member-OwnersAreAdmins new_id id user_id role guard =
      elim (Option-cases (find (member_of user_id id) db.space_members)) [
        | inr (t, e) ↦
            let held = find_holds (member_of user_id id) db.space_members t e in
            let space : t.space_id ≡ id = ground arith in
            let user : t.user_id ≡ user_id = ground arith in
            rw (put_member, e)
              (set_role-OwnersAreAdmins t (member_of user_id id) role e (rw (space, user) guard))
        | inl e ↦ rw (put_member, e) (All-map _ _ (λ s h. inserted s e h) db.spaces owners)
      ]
    where
      inserted :
          (s : SpaceRow)
          → find (member_of user_id id) db.space_members ≡ none
          → HasOwner db.space_members s
          → HasOwner
              (record { id = new_id; space_id = id; user_id = user_id; role = role }
                ∷ db.space_members)
              s
      inserted s e (m, hm, is_a) = elim (Bool-cases (id == s.id && user_id == s.owner_id)) [
        | inr f ↦ (m, rw f hm, is_a)
        | inl t ↦
            let same_space : s.id ≡ id = ground arith in
            let same_user : s.owner_id ≡ user_id = ground arith in
            let missing : find (member_of s.owner_id s.id) db.space_members ≡ none =
              rw (same_space, same_user) e in
            absurd cc
      ]

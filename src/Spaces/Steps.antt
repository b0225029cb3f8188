-- ===== src/Spaces/Steps.antt =====
-- src/spaces/index.ts: every handler that changes spaces or members keeps their owners admins.
use stohr.Common.{
  ℕ, ◌≡◌, refl, inl, inr, Bool, true, false, not, ◌&&◌, Option, none, some, List, String, arith,
  ◌==◌, str_eq, or_else, if◌then◌else◌, find_holds, All, All-zip, All-update_where, Bool-cases,
  Option-cases, is_none,
}
use stohr.Db.{Db, SpaceRow, SpaceRole, admin, editor}
use stohr.Auth.Credentials.{trim}
use stohr.Spaces.Names.{unique_slug, is_valid_space_slug}
use stohr.Spaces.Routes.{
  SpaceReply, NewSpace, SpacePatch, create_space, insert_space, patch_space, commit_space,
  patch_row, delete_space, trash_space, end_space, space_membership, space_by_id, live_space,
  is_admin, blank_name, has_slug, wanted_slug, space_name, insert_unique, failed,
}
use stohr.Spaces.Members.{
  NewMember, add_member, change_member, remove_member, create_space_folder, member_row, owned_by,
  find_target, sought_of, is_viewer,
}
use stohr.Spaces.Members.Owner.{
  OwnersAreAdmins, MembersAreKeyed, SpacesAreKeyed, set_role-OwnersAreAdmins,
  drop_member-OwnersAreAdmins, put_member-OwnersAreAdmins,
}

either :
    (b : Bool) (r r' : SpaceReply × Db)
    → OwnersAreAdmins r.1
    → OwnersAreAdmins r'.1
    → OwnersAreAdmins (if b then r else r').1
either true r r' h h' = h
either false r r' h h' = h'

-- One call of a handler, whatever it replies; the id of a new space is that of no other.
pub data SpaceStep (db : Db) : Db → Type 0 where
  created :
      (new_id new_member_id user_id : ℕ) (draws : List String) (body : NewSpace)
      → All (λ (s : SpaceRow). (new_id == s.id) ≡ false) db.spaces
      → SpaceStep db (create_space db new_id new_member_id draws user_id body).1
  changed : (user_id id : ℕ) (body : SpacePatch) → SpaceStep db (patch_space db user_id id body).1
  deleted : (now user_id id : ℕ) → SpaceStep db (delete_space db now user_id id).1
  added :
      (new_id team_id user_id id : ℕ) (body : NewMember)
      → SpaceStep db (add_member db new_id team_id user_id id body).1
  member_changed :
      (user_id id member_id : ℕ) (new_role : Option SpaceRole)
      → SpaceStep db (change_member db user_id id member_id new_role).1
  member_removed :
      (user_id id member_id : ℕ) → SpaceStep db (remove_member db user_id id member_id).1
  folder_created :
      (new_id user_id id : ℕ) (name : Option String)
      → SpaceStep db (create_space_folder db new_id user_id id name).1

module _ (db : Db) (members : MembersAreKeyed db) (spaces : SpacesAreKeyed db)
    (owners : OwnersAreAdmins db) where
  add_member-OwnersAreAdmins :
      (new_id team_id user_id id : ℕ) (body : NewMember)
      → OwnersAreAdmins (add_member db new_id team_id user_id id body).1
  unfolding add_member
  add_member-OwnersAreAdmins new_id team_id user_id id body =
      elim (Option-cases (space_membership db user_id id)) [
        | inl e ↦ rw (add_member, e) owners
        | inr (role, e) ↦ elim (Bool-cases (is_admin role)) [
          | inr f ↦ rw (add_member, e, f) owners
          | inl t ↦ elim (Option-cases (or_else body.role (some editor))) [
            | inl r ↦ rw (add_member, e, t, r) owners
            | inr (member_role, r) ↦ elim (Option-cases (find_target db team_id (sought_of body))) [
              | inl g ↦ rw (add_member, e, t, r, g) owners
              | inr (target, g) ↦
                  elim (Bool-cases
                    (owned_by (space_by_id db id) target.id && not (is_admin member_role))) [
                      | inl bad ↦ rw (add_member, e, t, r, g, bad) owners
                      | inr ok ↦
                          rw (add_member, e, t, r, g, ok)
                            (put_member-OwnersAreAdmins db members spaces owners new_id id target.id
                              member_role ok)
                    ]
            ]
          ]
        ]
      ]

  change_member-OwnersAreAdmins :
      (user_id id member_id : ℕ) (new_role : Option SpaceRole)
      → OwnersAreAdmins (change_member db user_id id member_id new_role).1
  unfolding change_member
  change_member-OwnersAreAdmins user_id id member_id new_role =
      elim (Option-cases (space_membership db user_id id)) [
        | inl e ↦ rw (change_member, e) owners
        | inr (role, e) ↦ elim (Bool-cases (is_admin role)) [
          | inr f ↦ rw (change_member, e, f) owners
          | inl a ↦ elim (Option-cases new_role) [
            | inl r ↦ rw (change_member, e, a, r) owners
            | inr (member_role, r) ↦ elim (Option-cases (member_row db id member_id)) [
              | inl g ↦ rw (change_member, e, a, r, g) owners
              | inr (t, g) ↦
                  elim (Bool-cases
                    (owned_by (space_by_id db id) t.user_id && not (is_admin member_role))) [
                      | inl bad ↦ rw (change_member, e, a, r, g, bad) owners
                      | inr ok ↦
                          let held = find_holds _ db.space_members t g in
                          let this : t.id ≡ member_id = ground arith in
                          let space : t.space_id ≡ id = ground arith in
                          rw (change_member, e, a, r, g, ok, ← this)
                            (set_role-OwnersAreAdmins db members spaces owners t _ member_role g
                              (rw space ok))
                    ]
            ]
          ]
        ]
      ]

  remove_member-OwnersAreAdmins :
      (user_id id member_id : ℕ) → OwnersAreAdmins (remove_member db user_id id member_id).1
  unfolding remove_member
  remove_member-OwnersAreAdmins user_id id member_id =
      elim (Option-cases (space_membership db user_id id)) [
        | inl e ↦ rw (remove_member, e) owners
        | inr (role, e) ↦ elim (Option-cases (member_row db id member_id)) [
          | inl g ↦ rw (remove_member, e, g) owners
          | inr (t, g) ↦ elim (Bool-cases (not (t.user_id == user_id) && not (is_admin role))) [
            | inl bad ↦ rw (remove_member, e, g, bad) owners
            | inr ok ↦ elim (Bool-cases (owned_by (space_by_id db id) t.user_id)) [
              | inl bad ↦ rw (remove_member, e, g, ok, bad) owners
              | inr free ↦
                  let held = find_holds _ db.space_members t g in
                  let this : t.id ≡ member_id = ground arith in
                  let space : t.space_id ≡ id = ground arith in
                  rw (remove_member, e, g, ok, free, ← this)
                    (drop_member-OwnersAreAdmins db members spaces owners t _ g (rw space free))
            ]
          ]
        ]
      ]

  commit_space-OwnersAreAdmins :
      (id : ℕ) (body : SpacePatch) → OwnersAreAdmins (commit_space db id body).1
  commit_space-OwnersAreAdmins id body =
      All-update_where _ (λ (s : SpaceRow). s.id == id) (patch_row body) (λ s h. h) db.spaces owners

  trash_space-OwnersAreAdmins : (now id : ℕ) → OwnersAreAdmins (trash_space db now id)
  trash_space-OwnersAreAdmins now id =
      All-update_where _ (λ (s : SpaceRow). s.id == id) (end_space now) (λ s h. h) db.spaces owners

  insert_space-OwnersAreAdmins :
      (new_id new_member_id user_id : ℕ) (body : NewSpace) (slug : String)
      → All (λ (s : SpaceRow). (new_id == s.id) ≡ false) db.spaces
      → OwnersAreAdmins (insert_space db new_id new_member_id user_id body slug).1
  insert_space-OwnersAreAdmins new_id new_member_id user_id body slug fresh = (
    (
      record { id = new_member_id; space_id = new_id; user_id = user_id; role = admin },
      ground arith,
      refl,
    ),
    All-zip _ _ _ (λ s f h. let (m, hm, is_a) = h in (m, rw f hm, is_a)) db.spaces fresh owners,
  )

  patch_space-OwnersAreAdmins :
      (user_id id : ℕ) (body : SpacePatch) → OwnersAreAdmins (patch_space db user_id id body).1
  unfolding patch_space
  patch_space-OwnersAreAdmins user_id id body =
      elim (Option-cases (space_membership db user_id id)) [
        | inl e ↦ rw (patch_space, e) owners
        | inr (role, e) ↦
            rw (patch_space, e)
              (either (not (is_admin role)) _ _ owners (
                either (blank_name body.name) _ _ owners (
                  either (is_none body.name && is_none body.description) _ _ owners
                    (commit_space-OwnersAreAdmins id body))))
      ]

  delete_space-OwnersAreAdmins :
      (now user_id id : ℕ) → OwnersAreAdmins (delete_space db now user_id id).1
  unfolding delete_space
  delete_space-OwnersAreAdmins now user_id id =
      elim (Option-cases (space_membership db user_id id)) [
        | inl e ↦ rw (delete_space, e) owners
        | inr (role, e) ↦ elim (Option-cases (live_space db id)) [
          | inl g ↦ rw (delete_space, e, g) owners
          | inr (space, g) ↦
              rw (delete_space, e, g)
                (either (not (space.owner_id == user_id)) _ _ owners
                  (trash_space-OwnersAreAdmins now id))
        ]
      ]

  insert_unique-OwnersAreAdmins :
      (new_id new_member_id user_id : ℕ) (body : NewSpace) (slug : Option String)
      → All (λ (s : SpaceRow). (new_id == s.id) ≡ false) db.spaces
      → OwnersAreAdmins (insert_unique db new_id new_member_id user_id body slug).1
  insert_unique-OwnersAreAdmins new_id new_member_id user_id body none fresh = owners
  insert_unique-OwnersAreAdmins new_id new_member_id user_id body (some slug) fresh =
      insert_space-OwnersAreAdmins new_id new_member_id user_id body slug fresh

  create_space-OwnersAreAdmins :
      (new_id new_member_id user_id : ℕ) (draws : List String) (body : NewSpace)
      → All (λ (s : SpaceRow). (new_id == s.id) ≡ false) db.spaces
      → OwnersAreAdmins (create_space db new_id new_member_id draws user_id body).1
  unfolding create_space
  create_space-OwnersAreAdmins new_id new_member_id user_id draws body fresh =
      let made =
        insert_unique-OwnersAreAdmins new_id new_member_id user_id body
          (unique_slug db.spaces (wanted_slug body) draws) fresh in
      either (str_eq (space_name body) "") (failed 422, db) _ owners
        (either (has_slug body && not (is_valid_space_slug (wanted_slug body))) (failed 422, db) _
          owners made)

  create_space_folder-OwnersAreAdmins :
      (new_id user_id id : ℕ) (name : Option String)
      → OwnersAreAdmins (create_space_folder db new_id user_id id name).1
  unfolding create_space_folder
  create_space_folder-OwnersAreAdmins new_id user_id id name =
      elim (Option-cases (space_membership db user_id id)) [
        | inl e ↦ rw (create_space_folder, e) owners
        | inr (role, e) ↦
            rw (create_space_folder, e)
              (either (is_viewer role) (failed 403, db) _ owners
                (either (str_eq (trim (or_else name "")) "") (failed 422, db) _ owners owners))
      ]

  -- Every space's owner, as its membership is looked up, stays an admin through each handler that
  -- changes spaces, members or root folders, whoever calls it and whatever it replies, if the ids of
  -- spaces and of memberships are unique.
  pub SpaceStep-OwnersAreAdmins : (db' : Db) → SpaceStep db db' → OwnersAreAdmins db'
  SpaceStep-OwnersAreAdmins db' (created new_id new_member_id user_id draws body fresh) =
      create_space-OwnersAreAdmins new_id new_member_id user_id draws body fresh
  SpaceStep-OwnersAreAdmins db' (changed user_id id body) =
      patch_space-OwnersAreAdmins user_id id body
  SpaceStep-OwnersAreAdmins db' (deleted now user_id id) =
      delete_space-OwnersAreAdmins now user_id id
  SpaceStep-OwnersAreAdmins db' (added new_id team_id user_id id body) =
      add_member-OwnersAreAdmins new_id team_id user_id id body
  SpaceStep-OwnersAreAdmins db' (member_changed user_id id member_id new_role) =
      change_member-OwnersAreAdmins user_id id member_id new_role
  SpaceStep-OwnersAreAdmins db' (member_removed user_id id member_id) =
      remove_member-OwnersAreAdmins user_id id member_id
  SpaceStep-OwnersAreAdmins db' (folder_created new_id user_id id name) =
      create_space_folder-OwnersAreAdmins new_id user_id id name

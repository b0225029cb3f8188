-- ===== src/Folders/Purge/Removed.antt =====
-- src/folders/index.ts, the purge of a folder: which rows and objects it removes, told by the parents of
-- the folders and not by the queries.
use mathlib.Core.List.{Memᴰ}
use stohr.Common.{
  ℕ, ◌≤◌, ◌≡◌, ◌≢◌, ◌∙◌, ◌↔◌, refl, ap, ◌⊎◌, inl, inr, true, ◌||◌, none, some, List, String, arith,
  str_eq, map, Bool-cases, Option-cases, Option, Sieve, Reflects, delete_where-Sieve, or-Reflects,
  length, any-append, any-Selected, Selected-any, ◌==◌,
}
use stohr.Db.{
  ShareRow, Role, owner, editor, viewer, file, folder, ResourceType, FolderRow, FileRow,
  FileVersionRow, CollaborationRow,
}
use stohr.Permissions.{is_owner, trashed_folder_access}
use stohr.Uploads.Store.{whole, fetch_object}
use stohr.Folders.Tree.{id_in, collect_subtree_all}
use stohr.Folders.Routes.{in_folders}
use stohr.Folders.Purge.{
  Library, PurgeReply, purged, failed, thumb_keys, keys_of, file_ids, on_any, versions_of,
  files_below, purge_folder, purge_tree, cascaded,
}
use stohr.Folders.Purge.Keys.{has_key, fetch-drop_all, str_eq_iff, thumb_keys-row, row-thumb_keys}
use stohr.Folders.Purge.Subtree.{
  Under, InSubtree, collect_subtree_all-InSubtree, sub_levels-InSubtree_iff,
}

module _ (st : Library) (id : ℕ) where
  -- The file lies in a folder of the subtree.
  abbrev pub LiesBelow : FileRow → Type 0
  LiesBelow f = (p : ℕ) × (f.folder_id ≡ some p) × InSubtree st.db.folders id p

  abbrev pub IsFileBelow : ℕ → Type 0
  IsFileBelow i = (f : FileRow) × Memᴰ f st.db.files × LiesBelow f × (f.id ≡ i)

  -- The collaboration is on a file or a folder of the subtree.
  abbrev pub IsGrantBelow : CollaborationRow → Type 0
  IsGrantBelow c =
      ((c.resource_type ≡ file) × IsFileBelow c.resource_id)
      ⊎ ((c.resource_type ≡ folder) × InSubtree st.db.folders id c.resource_id)

  -- The key is that of a file in the subtree, of its thumbnail or of one of its old versions.
  abbrev pub IsKeyBelow : String → Type 0
  IsKeyBelow key =
      ((f : FileRow) × Memᴰ f st.db.files
        × LiesBelow f
        × ((f.storage_key ≡ key) ⊎ (f.thumb_key ≡ some key)))
      ⊎ ((v : FileVersionRow) × Memᴰ v st.db.file_versions
          × IsFileBelow v.file_id
          × (v.storage_key ≡ key))

  -- The subtree's rows are gone, those that refer to them, and the objects of its files; all others stay.
  pub record IsRemoved (after : Library) : Type 0 where
    pub folders_left :
        Sieve (λ (f : FolderRow). InSubtree st.db.folders id f.id) st.db.folders after.db.folders
    pub files_left : Sieve LiesBelow st.db.files after.db.files
    pub versions_left :
        Sieve
          (λ (v : FileVersionRow). IsFileBelow v.file_id)
          st.db.file_versions
          after.db.file_versions
    pub grants_left : Sieve IsGrantBelow st.db.collaborations after.db.collaborations
    pub shares_left : Sieve (λ (s : ShareRow). IsFileBelow s.file_id) st.shares after.shares
    pub objects_left :
        (key : String)
        → (IsKeyBelow key × (fetch_object (whole key) after.objects ≡ none))
          ⊎ ((¬ IsKeyBelow key)
              × (fetch_object (whole key) after.objects ≡ fetch_object (whole key) st.objects))

  module _ (ids : List ℕ)
      (listed : (i : ℕ) → (id_in ids i ≡ true) ↔ InSubtree st.db.folders id i) where
    below-LiesBelow : Reflects (λ (f : FileRow). in_folders ids f.folder_id) LiesBelow
    below-LiesBelow f = elim (Option-cases f.folder_id) [
      | inl e ↦ (λ h. let bad = rw e at h in absurd cc, λ (p, q, u). absurd cc)
      | inr (p, e) ↦ (
        λ h. (p, e, (listed p).0 (rw e at h)),
        λ (p', q, u). let same : p' ≡ p = cc in rw e ((listed p).1 (rw same at u)),
      )
    ]

    file_ids-IsFileBelow : Reflects (λ i. id_in (file_ids (files_below st.db ids)) i) IsFileBelow
    file_ids-IsFileBelow i = (
      λ h.
          let (f, m, a, b) =
            any-Selected (λ j. j == i) (λ (f : FileRow). f.id) (λ f. in_folders ids f.folder_id)
              st.db.files h in
          (f, m, (below-LiesBelow f).0 a, ground arith),
      λ (f, m, a, b).
          Selected-any (λ j. j == i) (λ (f : FileRow). f.id) (λ f. in_folders ids f.folder_id)
            st.db.files f m ((below-LiesBelow f).1 a) (ground arith),
    )

    on_any-IsGrantBelow : Reflects (on_any (file_ids (files_below st.db ids)) ids) IsGrantBelow
    on_any-IsGrantBelow c = on_resource c.resource_type refl
      where
        on_resource :
            (kind : ResourceType)
            → c.resource_type ≡ kind
            → (on_any (file_ids (files_below st.db ids)) ids c ≡ true) ↔ IsGrantBelow c
        on_resource file e = (
          λ h. inl (e, (file_ids-IsFileBelow c.resource_id).0 (rw e at h)),
          λ g. elim g [
            | inl (_, i) ↦ rw e ((file_ids-IsFileBelow c.resource_id).1 i)
            | inr (other, _) ↦ absurd cc
          ],
        )
        on_resource folder e = (
          λ h. inr (e, (listed c.resource_id).0 (rw e at h)),
          λ g. elim g [
            | inl (other, _) ↦ absurd cc
            | inr (_, i) ↦ rw e ((listed c.resource_id).1 i)
          ],
        )

    abbrev keys : List String
    keys = keys_of (files_below st.db ids) (versions_of st.db (file_ids (files_below st.db ids)))

    keys-IsKeyBelow : (key : String) → has_key keys key ≡ true → IsKeyBelow key
    keys-IsKeyBelow key h =
        elim ((any-append (λ k. str_eq k key)
            (map (λ (f : FileRow). f.storage_key) (files_below st.db ids)) _).0
          h) [
            | inl own ↦
                let (f, m, a, b) =
                  any-Selected (λ k. str_eq k key) (λ (f : FileRow). f.storage_key)
                    (λ f. in_folders ids f.folder_id) st.db.files own in
                inl (f, m, (below-LiesBelow f).0 a, inl ((str_eq_iff _ _).0 b))
            | inr others ↦
                elim ((any-append (λ k. str_eq k key) (thumb_keys (files_below st.db ids)) _).0
                  others) [
                    | inl thumb ↦
                        let (f, m, a, k, b, c) =
                          thumb_keys-row (λ k. str_eq k key) (λ f. in_folders ids f.folder_id)
                            st.db.files thumb in
                        inl
                          (f, m, (below-LiesBelow f).0 a, inr (b ∙ ap some ((str_eq_iff _ _).0 c)))
                    | inr old ↦
                        let (v, m, a, b) =
                          any-Selected (λ k. str_eq k key) (λ (v : FileVersionRow). v.storage_key)
                            (λ v. id_in (file_ids (files_below st.db ids)) v.file_id)
                            st.db.file_versions old in
                        inr (v, m, (file_ids-IsFileBelow v.file_id).0 a, (str_eq_iff _ _).0 b)
                  ]
          ]

    IsKeyBelow-keys : (key : String) → IsKeyBelow key → has_key keys key ≡ true
    IsKeyBelow-keys key (inl (f, m, a, inl e)) =
        (any-append (λ k. str_eq k key)
            (map (λ (f : FileRow). f.storage_key) (files_below st.db ids)) _).1
          (inl (
            Selected-any (λ k. str_eq k key) (λ (f : FileRow). f.storage_key)
              (λ f. in_folders ids f.folder_id) st.db.files f m ((below-LiesBelow f).1 a)
              ((str_eq_iff _ _).1 e)))
    IsKeyBelow-keys key (inl (f, m, a, inr e)) =
        (any-append (λ k. str_eq k key)
            (map (λ (f : FileRow). f.storage_key) (files_below st.db ids)) _).1
          (inr (
            (any-append (λ k. str_eq k key) (thumb_keys (files_below st.db ids)) _).1 (
              inl (
                row-thumb_keys (λ k. str_eq k key) (λ f. in_folders ids f.folder_id) st.db.files f
                  key m ((below-LiesBelow f).1 a) e ((str_eq_iff key key).1 refl)))))
    IsKeyBelow-keys key (inr (v, m, a, e)) =
        (any-append (λ k. str_eq k key)
            (map (λ (f : FileRow). f.storage_key) (files_below st.db ids)) _).1
          (inr (
            (any-append (λ k. str_eq k key) (thumb_keys (files_below st.db ids)) _).1 (
              inr (
                Selected-any (λ k. str_eq k key) (λ (v : FileVersionRow). v.storage_key)
                  (λ v. id_in (file_ids (files_below st.db ids)) v.file_id) st.db.file_versions v m
                  ((file_ids-IsFileBelow v.file_id).1 a) ((str_eq_iff _ _).1 e)))))

  -- What the removal of the listed folders with all that is in them leaves.
  purge_tree-IsRemoved :
      ((i n : ℕ) → Under st.db.folders id i n → n ≤ 64) → IsRemoved (purge_tree st id)
  purge_tree-IsRemoved shallow =
      let ids = collect_subtree_all st.db.folders id in
      let listed = collect_subtree_all-InSubtree st.db.folders id shallow in
      let all = cascaded st.db.folders ids in
      let cascade = sub_levels-InSubtree_iff st.db.folders id (length st.db.folders) ids listed in
      let file_test =
        or-Reflects IsFileBelow (λ i. id_in (file_ids (files_below st.db ids)) i)
          (λ i. id_in (file_ids (files_below st.db all)) i) (file_ids-IsFileBelow ids listed)
          (file_ids-IsFileBelow all cascade) in
      record {
        folders_left =
            delete_where-Sieve _ (λ (f : FolderRow). id_in all f.id) (λ f. cascade f.id)
              st.db.folders;
        files_left =
            delete_where-Sieve LiesBelow _
              (or-Reflects LiesBelow (λ (f : FileRow). in_folders ids f.folder_id)
                (λ (f : FileRow). in_folders all f.folder_id) (below-LiesBelow ids listed)
                (below-LiesBelow all cascade))
              st.db.files;
        versions_left =
            delete_where-Sieve _
              (λ (v : FileVersionRow).
                id_in (file_ids (files_below st.db ids)) v.file_id
                || id_in (file_ids (files_below st.db all)) v.file_id)
              (λ v. file_test v.file_id) st.db.file_versions;
        grants_left =
            delete_where-Sieve IsGrantBelow _ (on_any-IsGrantBelow ids listed) st.db.collaborations;
        shares_left =
            delete_where-Sieve _
              (λ (s : ShareRow).
                id_in (file_ids (files_below st.db ids)) s.file_id
                || id_in (file_ids (files_below st.db all)) s.file_id)
              (λ s. file_test s.file_id) st.shares;
        objects_left = λ key.
            let fetched = fetch-drop_all (keys ids listed) key st.objects in
            elim (Bool-cases (has_key (keys ids listed) key)) [
              | inl t ↦ inl (keys-IsKeyBelow ids listed key t, fetched ∙ rw t refl)
              | inr f ↦
                  inr (
                    λ i. let t = IsKeyBelow-keys ids listed key i in absurd cc,
                    fetched ∙ rw f refl,
                  )
            ];
      }

-- The reply and the state behind it: of an owner's purge, or of a refusal.
abbrev pub PurgeOutcome : Library → ℕ → ℕ → PurgeReply × Library → Type 0
PurgeOutcome st user_id id result =
    ((f : FolderRow) × (trashed_folder_access st.db user_id id ≡ some (owner, f))
      × (result.0 ≡ purged id)
      × IsRemoved st id result.1)
    ⊎ (((f : FolderRow) → trashed_folder_access st.db user_id id ≢ some (owner, f))
        × (code : ℕ) × (result ≡ (failed code, st)))

same-role :
    (o : Option (Role × FolderRow)) (a b : Role × FolderRow) → o ≡ some a → o ≡ some b → a.0 ≡ b.0
same-role o a b e q = let same : a ≡ b = cc in ap (λ (r : Role × FolderRow). r.0) same

-- Where no folder lies more than 64 levels below the one to purge, a purge by its owner, or by an admin of its
-- space, removes exactly the folder and those below it by their parents at any depth, the files in these,
-- the old versions, shares and collaborations of them all, and the objects with the keys of these files, of
-- their thumbnails or of their old versions. A purge by anybody else fails and changes nothing.
pub purge_folder-IsRemoved :
    (st : Library) (user_id id : ℕ)
    → ((i n : ℕ) → Under st.db.folders id i n → n ≤ 64)
    → PurgeOutcome st user_id id (purge_folder st user_id id)
unfolding purge_folder is_owner
purge_folder-IsRemoved st user_id id shallow =
    elim (Option-cases (trashed_folder_access st.db user_id id)) [
      | inl e ↦ inr (λ f q. cc, 404, rw (purge_folder, e) refl)
      | inr ((owner, f), e) ↦
          rw (purge_folder, e) (inl (f, refl, refl, purge_tree-IsRemoved st id shallow))
      | inr ((editor, f), e) ↦ inr (
        λ g q. let roles = same-role _ (editor, f) (owner, g) e q in cc,
        403,
        rw (purge_folder, e) refl,
      )
      | inr ((viewer, f), e) ↦ inr (
        λ g q. let roles = same-role _ (viewer, f) (owner, g) e q in cc,
        403,
        rw (purge_folder, e) refl,
      )
    ]

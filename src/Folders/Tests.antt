-- ===== src/Folders/Tests.antt =====
-- Runs of the folders' code at fixed inputs, and the theorems at concrete ones.
use mathlib.Core.WellFounded.{Acc}
use stohr.Common.{ℕ, ◌≤◌, ◌≡◌, ◌⊎◌, inl, inr, refl, false, Option, none, some, List, [], ◌∷◌, arith}
use stohr.Db.{
  ShareRow, Db, UserRow, FolderRow, FileRow, FileVersionRow, owner, file, standard, skipped,
  folder_by_id, user_by_id,
}
use stohr.Permissions.{
  folder_access, trashed_folder_access, can_write, is_owner, same_team, personal_file, parent_space,
}
use stohr.Uploads.Store.{whole, drop_object, key_eq}
use stohr.Folders.Tree.{collect_subtree_all, sub_levels, build_trail, live_ancestors}
use stohr.Folders.Routes.{PatchBody, failed, patch_folder, delete_folder, restore_folder, restored}
use stohr.Folders.Moves.{IsAcyclic, IsParent, Below, stop, down}
use stohr.Folders.Moves.Acyclic.{patch_folder-IsAcyclic}
use stohr.Folders.Purge.{Library, purge_folder, empty_trash, drop_all, list_trash}
use stohr.Folders.Purge.Subtree.{Under, root, lower}
use mathlib.Core.List.{Memᴰ}
use mathlib.Core.List.Memᴰ.{head, tail}
use stohr.Folders.Purge.Removed.{PurgeOutcome, purge_folder-IsRemoved}

abbrev user_row : UserRow
user_row = record {
  id = 1;
  is_owner = false;
  team_id = 1;
  team_admin = false;
  oauth_epoch = 0;
  storage_quota_bytes = 0;
  username = "ann";
  email = "ann@example.org";
  deleted_at = none;
  suspended_at = none;
}

abbrev folder_row : ℕ → Option ℕ → FolderRow
folder_row id parent_id = record {
  id = id;
  user_id = 1;
  parent_id = parent_id;
  name = "docs";
  kind = standard;
  is_public = false;
  space_id = none;
  deleted_at = none;
}

-- Folder 11 lies in folder 10, and folder 12 beside it.
abbrev rows : List FolderRow
rows = folder_row 10 none ∷ folder_row 11 (some 10) ∷ folder_row 12 none ∷ []

abbrev file_row : FileRow
file_row = record {
  id = 100;
  user_id = 1;
  folder_id = some 11;
  name = "a.txt";
  mime = "text/plain";
  size = 5;
  storage_key = "k";
  thumb_key = some "t";
  version = 2;
  scan_status = skipped;
  scan_signature = none;
  scanned_at = none;
  deleted_at = none;
}

abbrev version_row : FileVersionRow
version_row = record {
  file_id = 100;
  version = 1;
  mime = "text/plain";
  size = 4;
  storage_key = "old";
  scan_status = skipped;
  scan_signature = none;
  scanned_at = none;
  uploaded_by = 1;
}

abbrev db : Db
db = record {
  users = user_row ∷ [];
  teams = [];
  folders = rows;
  files = file_row ∷ [];
  file_versions = version_row ∷ [];
  collaborations =
      record { resource_type = file; resource_id = 100; user_id = some 2; role = owner } ∷ [];
  spaces = [];
  space_members = [];
}

abbrev share_row : ℕ → ℕ → ShareRow
share_row id file_id = record {
  id = id;
  file_id = file_id;
  user_id = 1;
  token = "abc";
  expires_at = none;
  password_hash = none;
  burn_on_view = false;
}

abbrev library : Library
library = record {
  db = db;
  shares = share_row 1 100 ∷ share_row 2 101 ∷ [];
  objects =
      (whole "k", 1 ∷ []) ∷ (whole "t", []) ∷ (whole "old", 2 ∷ []) ∷ (whole "other", 3 ∷ []) ∷ [];
}

subtree : collect_subtree_all rows 10 ≡ 10 ∷ 11 ∷ []
unfolding collect_subtree_all sub_levels
subtree = refl

abbrev move_to : Option ℕ → PatchBody
move_to parent_id = record {
  name = none;
  kind = none;
  is_public = none;
  parent_id = some parent_id;
}

move_below_itself : (patch_folder db 1 10 (move_to (some 11))).0 ≡ failed 422
unfolding patch_folder folder_access can_write is_owner collect_subtree_all sub_levels folder_by_id
    same_team user_by_id
move_below_itself = refl

move_beside :
    (patch_folder db 1 10 (move_to (some 12))).1.folders
    ≡ folder_row 10 (some 12) ∷ folder_row 11 (some 10) ∷ folder_row 12 none ∷ []
unfolding patch_folder folder_access can_write is_owner collect_subtree_all sub_levels folder_by_id
    same_team user_by_id
move_beside = refl

restore_below_trash : (restore_folder (delete_folder db 9 1 10).1 1 11).0 ≡ restored 11 none
unfolding restore_folder delete_folder folder_access trashed_folder_access can_write
    collect_subtree_all sub_levels same_team user_by_id
restore_below_trash = refl

trail : build_trail db 1 (folder_row 11 (some 10)) ≡ (10, "docs") ∷ (11, "docs") ∷ []
unfolding build_trail live_ancestors folder_by_id
trail = refl

only_lower : (f : FolderRow) (p : ℕ) → Memᴰ f rows → f.parent_id ≡ some p → (p ≡ 10) × (f.id ≡ 11)
only_lower f p (head e) a = let bad = rw e at a in absurd cc
only_lower f p (tail (head e)) a = let same : some 10 ≡ some p = rw e at a in rw e (cc, refl)
only_lower f p (tail (tail (head e))) a = let bad = rw e at a in absurd cc
only_lower f p (tail (tail (tail m))) a = elim m [ ]

row_depth : (i n : ℕ) → Under rows 10 i n → ((n ≡ 0) × (i ≡ 10)) ⊎ ((n ≡ 1) × (i ≡ 11))
row_depth i n (root f m a b) = inl (refl, ground arith)
row_depth i n (lower {p = p} {n = k} f u m a b) =
    let (above, this) = only_lower f p m a in
    elim (row_depth p k u) [
      | inl (top, _) ↦ inr (omega (arith, top), omega (arith, this, b))
      | inr (_, beside) ↦ absurd (omega (arith, above, beside))
    ]

subtree-shallow : (i n : ℕ) → Under rows 10 i n → n ≤ 64
subtree-shallow i n u = elim (row_depth i n u) [
  | inl (e, _) ↦ omega arith
  | inr (e, _) ↦ omega arith
]

purge_folder-IsRemoved_example : PurgeOutcome library 1 10 (purge_folder library 1 10)
purge_folder-IsRemoved_example = purge_folder-IsRemoved library 1 10 subtree-shallow

purge_run : (purge_folder library 1 10).1.objects ≡ (whole "other", 3 ∷ []) ∷ []
unfolding purge_folder trashed_folder_access is_owner collect_subtree_all sub_levels drop_all
    drop_object key_eq same_team user_by_id
purge_run = refl

-- Only what the caller put in the trash goes.
empty_trash_run :
    (empty_trash (record library { db = (delete_folder db 9 1 10).1 }) 1).1.db.folders
    ≡ folder_row 12 none ∷ []
unfolding empty_trash list_trash personal_file parent_space folder_by_id drop_all drop_object key_eq
    delete_folder folder_access can_write collect_subtree_all sub_levels same_team user_by_id
empty_trash_run = refl

only_parent : (id p : ℕ) → IsParent rows p id → (id ≡ 11) × (p ≡ 10)
only_parent id p h = ground arith

abbrev rows-IsAcyclic : IsAcyclic rows
rows-IsAcyclic id = Acc.intro id (λ p e.
    Acc.intro p
      (λ q e'. let up = only_parent id p e in let top = only_parent p q e' in absurd (omega arith)))

abbrev rows-shallow : (below n : ℕ) → Below rows 10 below n → n ≤ 64
rows-shallow below n stop = omega arith
rows-shallow below n (down h stop) = omega arith
rows-shallow below n (down {child = child} h (down {child = next} h' b)) =
    let first = only_parent child 10 h in
    let second = only_parent next child h' in absurd (omega arith)

patch_folder-IsAcyclic_example : IsAcyclic (patch_folder db 1 10 (move_to (some 12))).1.folders
patch_folder-IsAcyclic_example =
    patch_folder-IsAcyclic db 1 10 (move_to (some 12)) rows-IsAcyclic rows-shallow

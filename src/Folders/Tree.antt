-- ===== src/Folders/Tree.antt =====
-- src/folders/index.ts: the recursive queries over the tree of folders, down and up, with their
-- bound of 64 steps.
use stohr.Common.{
  ℕ, zero, suc, Bool, not, ◌&&◌, Option, none, some, List, [], ◌∷◌, ◌++◌, String, ◌==◌, opt_eq,
  if◌then◌else◌, any, find, is_none, is_some,
}
use stohr.Db.{FolderRow, Db, folder_by_id}
use stohr.Permissions.{grants_folder}

-- `id IN (…)`
abbrev pub id_in : List ℕ → ℕ → Bool
id_in ids i = any (λ j. j == i) ids

abbrev pub self_rows : List FolderRow → ℕ → List ℕ
self_rows [] id = []
self_rows (f ∷ folders) id =
    if f.id == id then f.id ∷ self_rows folders id else self_rows folders id

abbrev pub children_at : List FolderRow → ℕ → List ℕ
children_at [] id = []
children_at (f ∷ folders) id =
    if opt_eq f.parent_id id then f.id ∷ children_at folders id else children_at folders id

-- The join of the folders with the rows of the level above.
abbrev pub children_of : List FolderRow → List ℕ → List ℕ
children_of folders [] = []
children_of folders (i ∷ ids) = children_at folders i ++ children_of folders ids

unfoldable pub sub_levels : ℕ → List FolderRow → List ℕ → List ℕ
sub_levels zero folders ids = ids
sub_levels (suc n) folders ids = ids ++ sub_levels n folders (children_of folders ids)

unfoldable pub collect_subtree_all : List FolderRow → ℕ → List ℕ
unfolding sub_levels
collect_subtree_all folders root_id = sub_levels 64 folders (self_rows folders root_id)

-- The rows of the chain, nearest first: the first in any state, those above it not deleted.
abbrev pub live_by_id : List FolderRow → ℕ → Option FolderRow
live_by_id folders id = find (λ f. f.id == id && is_none f.deleted_at) folders

unfoldable pub live_ancestors : ℕ → List FolderRow → Option ℕ → List FolderRow
live_ancestors zero folders parent_id = []
live_ancestors (suc fuel) folders none = []
live_ancestors (suc fuel) folders (some parent_id) = elim (live_by_id folders parent_id) [
  | none ↦ []
  | some f ↦ f ∷ live_ancestors fuel folders f.parent_id
]

-- `trail.unshift` of each row, up to the first that was granted to a user who is not the owner
abbrev pub build_names : (FolderRow → Bool) → List FolderRow → List (ℕ × String) → List (ℕ × String)
build_names stop [] trail = trail
build_names stop (f ∷ chain) trail =
    let longer = (f.id, f.name) ∷ trail in
    let rest = build_names stop chain longer in if stop f then longer else rest

abbrev pub chain_of : List FolderRow → Option FolderRow → List FolderRow
chain_of folders none = []
chain_of folders (some f) = f ∷ live_ancestors 64 folders f.parent_id

unfoldable pub build_trail : Db → ℕ → FolderRow → List (ℕ × String)
unfolding live_ancestors
build_trail db user_id folder =
    build_names
      (λ f.
        not (folder.user_id == user_id)
        && is_some (find (grants_folder user_id f.id) db.collaborations))
      (chain_of db.folders (folder_by_id db.folders folder.id)) []

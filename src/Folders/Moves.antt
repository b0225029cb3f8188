-- ===== src/Folders/Moves.antt =====
-- src/folders/index.ts: a change of a folder leaves no folder above itself.
pub mod Acyclic
use mathlib.Core.WellFounded.{Acc}
use stohr.Common.{
  ℕ, zero, suc, ◌≤◌, ◌≡◌, ◌≢◌, refl, ap, inl, inr, Bool, true, false, not, ◌&&◌, ◌||◌, Option, none,
  some, List, [], ◌∷◌, ◌++◌, arith, ◌==◌, ==_iff, opt_eq, if◌then◌else◌, any, find, find_holds,
  update_where, Bool-cases, Option-cases, or_else,
}
use stohr.Db.{Db, FolderRow, Role, folder_by_id}
use stohr.Permissions.{folder_access, can_write}
use stohr.Folders.Tree.{id_in, self_rows, children_at, children_of, sub_levels, collect_subtree_all}
use stohr.Folders.Routes.{
  FolderPatch, PatchBody, FolderReply, patch_folder, patch_error, parent_error, target_error,
  commit_patch, apply_patch, patch_data, with_folders,
}

abbrev pub parent_of_row : Option FolderRow → Option ℕ
parent_of_row none = none
parent_of_row (some f) = f.parent_id

abbrev pub parent_of : List FolderRow → ℕ → Option ℕ
parent_of folders id = parent_of_row (find (λ f. f.id == id) folders)

abbrev pub IsParent : List FolderRow → ℕ → ℕ → Type 0
IsParent folders parent id = parent_of folders id ≡ some parent

-- From every folder the walk to its parent, its parent's parent and so on ends.
abbrev pub IsAcyclic : List FolderRow → Type 0
IsAcyclic folders = (id : ℕ) → Acc (IsParent folders) id

module _ (folders : List FolderRow) where
  -- `Below top id n`: the folder `id` lies `n` levels below `top`.
  pub data Below : ℕ → ℕ → ℕ → Type 0 where
    stop : {id : ℕ} → Below id id zero
    down :
        {top child id n : ℕ} → IsParent folders top child → Below child id n → Below top id (suc n)

  Below-child :
      {top parent id n : ℕ} → Below top parent n → IsParent folders parent id → Below top id (suc n)
  Below-child stop h = down h stop
  Below-child (down g b) h = down g (Below-child b h)

id_in-append_left : (xs ys : List ℕ) (i : ℕ) → id_in xs i ≡ true → id_in (xs ++ ys) i ≡ true
id_in-append_left [] ys i h = absurd cc
id_in-append_left (x ∷ xs) ys i h = ground (arith, id_in-append_left xs ys i)

id_in-append_right : (xs ys : List ℕ) (i : ℕ) → id_in ys i ≡ true → id_in (xs ++ ys) i ≡ true
id_in-append_right [] ys i h = h
id_in-append_right (x ∷ xs) ys i h = ground (arith, id_in-append_right xs ys i)

children_at-id_in :
    (folders : List FolderRow) (parent id : ℕ)
    → IsParent folders parent id
    → id_in (children_at folders parent) id ≡ true
children_at-id_in [] parent id h = absurd cc
children_at-id_in (f ∷ folders) parent id h = elim (Bool-cases (f.id == id)) [
  | inl t ↦ let above : f.parent_id ≡ some parent = rw t at h in rw above (ground arith)
  | inr e ↦ let rest = children_at-id_in folders parent id (rw e at h) in ground arith
]

children_of-id_in :
    (folders : List FolderRow) (ids : List ℕ) (parent id : ℕ)
    → id_in ids parent ≡ true
    → IsParent folders parent id
    → id_in (children_of folders ids) id ≡ true
children_of-id_in folders [] parent id m h = absurd cc
children_of-id_in folders (i ∷ ids) parent id m h = elim (Bool-cases (i == parent)) [
  | inl t ↦
      let same : i ≡ parent = ground arith in
      id_in-append_left (children_at folders i) _ id
        (rw same (children_at-id_in folders parent id h))
  | inr e ↦
      id_in-append_right (children_at folders i) _ id
        (children_of-id_in folders ids parent id (rw e at m) h)
]

sub_levels-id_in :
    (folders : List FolderRow) (ids : List ℕ) (levels top id n : ℕ)
    → id_in ids top ≡ true
    → Below folders top id n
    → n ≤ levels
    → id_in (sub_levels levels folders ids) id ≡ true
unfolding sub_levels
sub_levels-id_in folders ids zero top id n m stop le = m
sub_levels-id_in folders ids zero top id n m (down h b) le = absurd (omega arith)
sub_levels-id_in folders ids (suc levels) top id n m stop le = id_in-append_left ids _ id m
sub_levels-id_in folders ids (suc levels) top id n m (down {child = child} {n = k} h b) le =
    id_in-append_right ids _ id (
      sub_levels-id_in folders (children_of folders ids) levels child id k
        (children_of-id_in folders ids top child m h) b (omega arith))

self_rows-id_in :
    (folders : List FolderRow) (id : ℕ) (f : FolderRow)
    → find (λ r. r.id == id) folders ≡ some f
    → id_in (self_rows folders id) id ≡ true
self_rows-id_in [] id f h = absurd cc
self_rows-id_in (r ∷ folders) id f h = ground (arith, self_rows-id_in folders id f)

-- The subtree holds every folder at most 64 levels below its root.
pub collect_subtree_all-id_in :
    (folders : List FolderRow) (top id n : ℕ) (f : FolderRow)
    → find (λ r. r.id == top) folders ≡ some f
    → Below folders top id n
    → n ≤ 64
    → id_in (collect_subtree_all folders top) id ≡ true
unfolding collect_subtree_all
collect_subtree_all-id_in folders top id n f h b le =
    sub_levels-id_in folders (self_rows folders top) 64 top id n (self_rows-id_in folders top f h) b
      le

-- What an update of one row by its id does to the parents.
parent_of-update :
    (folders : List FolderRow) (moved id : ℕ) (p : FolderPatch)
    → (id == moved) ≡ false
    → parent_of (update_where (λ r. r.id == moved) (apply_patch p) folders) id
      ≡ parent_of folders id
parent_of-update [] moved id p h = refl
parent_of-update (f ∷ folders) moved id p h = ground (arith, parent_of-update folders moved id p h)

parent_of-update_self :
    (folders : List FolderRow) (moved : ℕ) (p : FolderPatch) (f : FolderRow)
    → find (λ r. r.id == moved) folders ≡ some f
    → parent_of (update_where (λ r. r.id == moved) (apply_patch p) folders) moved
      ≡ or_else p.parent_id f.parent_id
parent_of-update_self [] moved p f h = absurd cc
parent_of-update_self (r ∷ folders) moved p f h =
    ground (arith, parent_of-update_self folders moved p f)

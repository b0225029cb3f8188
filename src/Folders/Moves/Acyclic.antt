-- ===== src/Folders/Moves/Acyclic.antt =====
-- src/folders/index.ts, the change of a folder: the walk to the top still ends behind a move.
use mathlib.Core.WellFounded.{Acc}
use mathlib.Core.Option
use stohr.Common.{
  ℕ, zero, suc, ◌≤◌, ◌≡◌, refl, ◌∙◌, sym, ap, inl, inr, Bool, true, false, Option, none, some, List,
  [], ◌∷◌, arith, ◌==◌, if◌then◌else◌, find, find_holds, update_where, Bool-cases, Option-cases,
  or_else,
}
use stohr.Db.{Db, FolderRow, Role}
use stohr.Permissions.{folder_access, live_folder}
use stohr.Folders.Tree.{id_in, collect_subtree_all}
use stohr.Folders.Routes.{
  FolderPatch, PatchBody, patch_folder, patch_error, nothing_to_update, parent_error, target_error,
  apply_patch, patch_data, first_error, name_error, kind_error,
}
use stohr.Folders.Moves.{
  parent_of, IsParent, IsAcyclic, Below, stop, Below-child, collect_subtree_all-id_in,
  parent_of-update, parent_of-update_self,
}

module _ (folders folders' : List FolderRow) (moved : ℕ)
    (others : (id : ℕ) → (id == moved) ≡ false → parent_of folders' id ≡ parent_of folders id) where
  -- A folder outside the subtree of the moved one keeps its walk.
  outside-Acc :
      (id : ℕ)
      → Acc (IsParent folders) id
      → ((n : ℕ) → ¬ Below folders moved id n)
      → Acc (IsParent folders') id
  outside-Acc id (Acc.intro _ above) free = elim (Bool-cases (id == moved)) [
    | inl t ↦ let same : moved ≡ id = ground arith in absurd (free zero (rw same stop))
    | inr f ↦ Acc.intro id (λ p e.
        let old : IsParent folders p id = sym (others id f) ∙ e in
        outside-Acc p (above p old) (λ n b. free (suc n) (Below-child folders b old)))
  ]

  from_moved :
      Acc (IsParent folders') moved
      → (id : ℕ) → Acc (IsParent folders) id
      → Acc (IsParent folders') id
  from_moved top id (Acc.intro _ above) = elim (Bool-cases (id == moved)) [
    | inl t ↦ let same : id ≡ moved = ground arith in rw same top
    | inr f ↦ Acc.intro id (λ p e. from_moved top p (above p (sym (others id f) ∙ e)))
  ]

  -- The moved folder's new parent lies outside its subtree, or there is none.
  moved-IsAcyclic :
      (target : Option ℕ)
      → IsAcyclic folders
      → parent_of folders' moved ≡ target
      → ((p : ℕ) → target ≡ some p → (n : ℕ) → ¬ Below folders moved p n)
      → IsAcyclic folders'
  moved-IsAcyclic target ends now_at free id =
      from_moved
        (Acc.intro moved (λ p e.
          let placed : target ≡ some p = sym now_at ∙ e in outside-Acc p (ends p) (free p placed)))
        id (ends id)

same-IsAcyclic :
    (folders folders' : List FolderRow)
    → ((id : ℕ) → parent_of folders' id ≡ parent_of folders id)
    → IsAcyclic folders
    → IsAcyclic folders'
same-IsAcyclic folders folders' same ends id = kept id (ends id)
  where
    kept : (i : ℕ) → Acc (IsParent folders) i → Acc (IsParent folders') i
    kept i (Acc.intro _ above) = Acc.intro i (λ p e. kept p (above p (sym (same i) ∙ e)))

find_other :
    {A : Type 0} (p q : A → Bool) (xs : List A) (a : A)
    → find p xs ≡ some a
    → q a ≡ true
    → (b : A) × (find q xs ≡ some b)
find_other p q [] a h k = absurd cc
find_other p q (x ∷ xs) a h k = elim (Bool-cases (q x)) [
  | inl t ↦ (x, rw t refl)
  | inr f ↦ let missed : find p xs ≡ some a = ground arith in rw f (find_other p q xs a missed k)
]

paired-row :
    (o : Option Role) (f : FolderRow) (access : Role × FolderRow)
    → Option.map (λ (r : Role). (r, f)) o ≡ some access
    → access.1 ≡ f
paired-row none f access h = absurd cc
paired-row (some r) f access h = let e : (r, f) ≡ access = cc in sym (ap (λ a. a.1) e)

-- The folder that a caller has access to has the id and is a row of the table.
accessed_row :
    (db : Db) (user_id id : ℕ) (access : Role × FolderRow)
    → folder_access db user_id id ≡ some access
    → (access.1.id ≡ id)
      × (row : FolderRow) × (find (λ r. r.id == access.1.id) db.folders ≡ some row)
unfolding folder_access
accessed_row db user_id id access h =
    elim (Option-cases (find (live_folder db user_id id) db.folders)) [
      | inl e ↦ absurd (let bad = rw (folder_access, e) at h in cc)
      | inr (f, e) ↦
          let same = paired-row _ f access (rw (folder_access, e) at h) in
          let held = find_holds (live_folder db user_id id) db.folders f e in
          let this : f.id ≡ id = ground arith in
          let (row, found) =
            find_other (live_folder db user_id id) (λ r. r.id == access.1.id) db.folders f e
              (rw same (ground arith)) in
          (rw same this, row, found)
    ]

target_error-outside :
    (db : Db) (f : FolderRow) (parent_id : ℕ) (target : Option (Role × FolderRow))
    → target_error db f parent_id target ≡ none
    → id_in (collect_subtree_all db.folders f.id) parent_id ≡ false
target_error-outside db f parent_id none h = absurd cc
target_error-outside db f parent_id (some target) h = ground arith

unless-none :
    (b : Bool) (code : ℕ) (rest : Option ℕ) → (if b then some code else rest) ≡ none → rest ≡ none
unless-none true code rest h = absurd cc
unless-none false code rest h = h

first_error-none : (a b : Option ℕ) → first_error a b ≡ none → b ≡ none
first_error-none none b h = h
first_error-none (some code) b h = absurd cc

parent_error-outside :
    (db : Db) (user_id : ℕ) (access : Role × FolderRow) (parent_id : ℕ)
    → parent_error db user_id access (some (some parent_id)) ≡ none
    → id_in (collect_subtree_all db.folders access.1.id) parent_id ≡ false
parent_error-outside db user_id access parent_id h =
    target_error-outside db access.1 parent_id (folder_access db user_id parent_id)
      (unless-none (parent_id == access.1.id) 422 _ h)

patch_error-outside :
    (db : Db) (user_id : ℕ) (body : PatchBody) (access : Role × FolderRow) (parent_id : ℕ)
    → patch_error db user_id body access ≡ none
    → body.parent_id ≡ some (some parent_id)
    → id_in (collect_subtree_all db.folders access.1.id) parent_id ≡ false
patch_error-outside db user_id body access parent_id h e =
    let checks = unless-none _ 403 _ (unless-none _ 403 _ h) in
    let checked : parent_error db user_id access body.parent_id ≡ none =
      first_error-none (kind_error body.kind) _
        (first_error-none (name_error body.name) _ checks) in
    parent_error-outside db user_id access parent_id (rw e at checked)

module _ (folders : List FolderRow) (moved : ℕ) (p : FolderPatch) (row : FolderRow)
    (found : find (λ r. r.id == moved) folders ≡ some row) where
  abbrev changed : List FolderRow
  changed = update_where (λ (r : FolderRow). r.id == moved) (apply_patch p) folders

  stays : p.parent_id ≡ none → (id : ℕ) → parent_of changed id ≡ parent_of folders id
  stays e id = elim (Bool-cases (id == moved)) [
    | inr ne ↦ parent_of-update folders moved id p ne
    | inl t ↦
        let same : id ≡ moved = ground arith in
        let kept : or_else p.parent_id row.parent_id ≡ row.parent_id = rw e refl in
        let before : parent_of folders moved ≡ row.parent_id = rw found refl in
        rw same (parent_of-update_self folders moved p row found ∙ kept ∙ sym before)
  ]

  apply_patch-IsAcyclic :
      ((parent : ℕ) → p.parent_id ≡ some (some parent) → (n : ℕ) → ¬ Below folders moved parent n)
      → IsAcyclic folders
      → IsAcyclic changed
  apply_patch-IsAcyclic free ends = elim (Option-cases p.parent_id) [
    | inl e ↦ same-IsAcyclic folders changed (stays e) ends
    | inr (target, e) ↦
        let placed : or_else p.parent_id row.parent_id ≡ target = rw e refl in
        moved-IsAcyclic folders changed moved (λ id ne. parent_of-update folders moved id p ne)
          target ends (parent_of-update_self folders moved p row found ∙ placed)
          (λ parent q. free parent (e ∙ ap some q))
  ]

-- Where the walk from every folder to its parent, its parent's parent and so on ends, it still does
-- behind a change of a folder, whatever the reply, if no folder lies more than 64 levels below the
-- changed one.
pub patch_folder-IsAcyclic :
    (db : Db) (user_id id : ℕ) (body : PatchBody)
    → IsAcyclic db.folders
    → ((below n : ℕ) → Below db.folders id below n → n ≤ 64)
    → IsAcyclic (patch_folder db user_id id body).1.folders
unfolding patch_folder folder_access
patch_folder-IsAcyclic db user_id id body ends shallow =
    elim (Bool-cases (nothing_to_update body)) [
      | inl t ↦ rw t ends
      | inr some_change ↦ elim (Option-cases (folder_access db user_id id)) [
        | inl e ↦ rw (some_change, e) ends
        | inr (access, e) ↦ elim (Option-cases (patch_error db user_id body access)) [
          | inr (code, bad) ↦ rw (some_change, e, bad) ends
          | inl good ↦
              let (same, row, found) = accessed_row db user_id id access e in
              rw (some_change, e, good)
                (apply_patch-IsAcyclic db.folders access.1.id (patch_data body) row found
                  (λ parent q n b.
                    let listed =
                      collect_subtree_all-id_in db.folders access.1.id parent n row found b
                        (shallow parent n (rw (← same) b)) in
                    let missing = patch_error-outside db user_id body access parent good q in
                    absurd cc)
                  ends)
        ]
      ]
    ]

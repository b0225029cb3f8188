-- ===== src/Folders/Purge/Subtree.antt =====
-- src/folders/index.ts: the folders below one, told by the rows' parents, against `collectSubtreeAll`.
use mathlib.Core.List.{Memᴰ}
use stohr.Common.{
  ℕ, zero, suc, ◌+◌, ◌≤◌, ◌≡◌, ◌↔◌, refl, ap, ◌∙◌, inl, inr, true, Option, none, some, List, [],
  ◌∷◌, map, arith, ◌==◌, opt_eq, filter, Bool-cases, any-append, any-Selected, Selected-any,
}
use stohr.Db.{FolderRow}
use stohr.Folders.Tree.{id_in, self_rows, children_at, children_of, sub_levels, collect_subtree_all}

module _ (folders : List FolderRow) (top : ℕ) where
  -- `Under i n`: a row with the id `i` lies `n` levels below one with the id `top`.
  pub data Under : ℕ → ℕ → Type 0 where
    root : {i : ℕ} (f : FolderRow) → Memᴰ f folders → f.id ≡ top → f.id ≡ i → Under i zero
    lower :
        {i p n : ℕ} (f : FolderRow)
        → Under p n
        → Memᴰ f folders
        → f.parent_id ≡ some p
        → f.id ≡ i
        → Under i (suc n)

  -- The folder is the top one or lies below it, at any depth.
  abbrev pub InSubtree : ℕ → Type 0
  InSubtree i = (n : ℕ) × Under i n

  self_rows-map :
      (rows : List FolderRow)
      → self_rows rows top ≡ map (λ f. f.id) (filter (λ f. f.id == top) rows)
  self_rows-map [] = refl
  self_rows-map (f ∷ rows) = elim (Bool-cases (f.id == top)) [
    | inl t ↦ rw t (ap (◌∷◌ f.id) (self_rows-map rows))
    | inr e ↦ rw e (self_rows-map rows)
  ]

  children_at-map :
      (rows : List FolderRow) (p : ℕ)
      → children_at rows p ≡ map (λ f. f.id) (filter (λ f. opt_eq f.parent_id p) rows)
  children_at-map [] p = refl
  children_at-map (f ∷ rows) p = elim (Bool-cases (opt_eq f.parent_id p)) [
    | inl t ↦ rw t (ap (◌∷◌ f.id) (children_at-map rows p))
    | inr e ↦ rw e (children_at-map rows p)
  ]

  opt_eq-some : (o : Option ℕ) (n : ℕ) → opt_eq o n ≡ true → o ≡ some n
  opt_eq-some none n h = absurd cc
  opt_eq-some (some m) n h = ap some (ground arith)

  some-opt_eq : (o : Option ℕ) (n : ℕ) → o ≡ some n → opt_eq o n ≡ true
  some-opt_eq o n h = rw h (ground arith)

  -- The ids of one level, and those of the level below.
  abbrev IsLevel : ℕ → List ℕ → Type 0
  IsLevel d ids = (i : ℕ) → (id_in ids i ≡ true) ↔ Under i d

  root-IsLevel : IsLevel 0 (self_rows folders top)
  root-IsLevel i = (
    λ h.
        let (f, m, a, b) =
          any-Selected (λ j. j == i) (λ (f : FolderRow). f.id) (λ f. f.id == top) folders
            (rw (self_rows-map folders) at h) in
        root f m (ground arith) (ground arith),
    λ u. at_root u,
  )
    where
      at_root : Under i 0 → id_in (self_rows folders top) i ≡ true
      at_root (root f m a b) = rw (self_rows-map folders) (
          Selected-any (λ j. j == i) (λ (f : FolderRow). f.id) (λ f. f.id == top) folders f m
            (ground arith) (ground arith))

  children_of-parent :
      (ids : List ℕ) (i : ℕ)
      → id_in (children_of folders ids) i ≡ true
      → (p : ℕ) × (id_in ids p ≡ true)
        × (f : FolderRow) × Memᴰ f folders
        × (f.parent_id ≡ some p)
        × (f.id ≡ i)
  children_of-parent [] i h = absurd cc
  children_of-parent (p ∷ ids) i h =
      elim ((any-append (λ j. j == i) (children_at folders p) (children_of folders ids)).0 h) [
        | inl here ↦
            let (f, m, a, b) =
              any-Selected (λ j. j == i) (λ (f : FolderRow). f.id) (λ f. opt_eq f.parent_id p)
                folders (rw (children_at-map folders p) at here) in
            (p, ground arith, f, m, opt_eq-some f.parent_id p a, ground arith)
        | inr there ↦
            let (q, k, f, m, a, b) = children_of-parent ids i there in (q, ground arith, f, m, a, b)
      ]

  parent-children_of :
      (ids : List ℕ) (i p : ℕ) (f : FolderRow)
      → id_in ids p ≡ true
      → Memᴰ f folders
      → f.parent_id ≡ some p
      → f.id ≡ i
      → id_in (children_of folders ids) i ≡ true
  parent-children_of [] i p f h m a b = absurd cc
  parent-children_of (q ∷ ids) i p f h m a b =
      (any-append (λ j. j == i) (children_at folders q) (children_of folders ids)).1
        (elim (Bool-cases (q == p)) [
          | inl t ↦
              let same : p ≡ q = ground arith in
              inl (
                rw (children_at-map folders q) (
                  Selected-any (λ j. j == i) (λ (f : FolderRow). f.id) (λ f. opt_eq f.parent_id q)
                    folders f m (some-opt_eq f.parent_id q (a ∙ ap some same)) (ground arith)))
          | inr e ↦ inr (parent-children_of ids i p f (rw e at h) m a b)
        ])

  next-IsLevel : (d : ℕ) (ids : List ℕ) → IsLevel d ids → IsLevel (suc d) (children_of folders ids)
  next-IsLevel d ids level i = (
    λ h.
        let (p, listed, f, m, a, b) = children_of-parent ids i h in
        lower f ((level p).0 listed) m a b,
    λ u. below u,
  )
    where
      below : Under i (suc d) → id_in (children_of folders ids) i ≡ true
      below (lower f u m a b) = parent-children_of ids i _ f ((level _).1 u) m a b

  sub_levels-InSubtree :
      (k d : ℕ) (ids : List ℕ)
      → IsLevel d ids
      → (i : ℕ) → id_in (sub_levels k folders ids) i ≡ true
      → InSubtree i
  unfolding sub_levels
  sub_levels-InSubtree zero d ids level i h = (d, (level i).0 h)
  sub_levels-InSubtree (suc k) d ids level i h =
      elim ((any-append (λ j. j == i) ids (sub_levels k folders (children_of folders ids))).0 h) [
        | inl here ↦ (d, (level i).0 here)
        | inr below ↦
            sub_levels-InSubtree k (suc d) (children_of folders ids) (next-IsLevel d ids level) i
              below
      ]

  sub_levels-id_in :
      (k d n : ℕ) (ids : List ℕ)
      → IsLevel d ids
      → (i : ℕ) → Under i n
      → d ≤ n
      → n ≤ d + k
      → id_in (sub_levels k folders ids) i ≡ true
  unfolding sub_levels
  sub_levels-id_in zero d n ids level i u from to =
      let same : n ≡ d = omega arith in (level i).1 (rw same at u)
  sub_levels-id_in (suc k) d n ids level i u from to =
      (any-append (λ j. j == i) ids (sub_levels k folders (children_of folders ids))).1
        (elim (Bool-cases (n == d)) [
          | inl t ↦ let same : n ≡ d = ground arith in inl ((level i).1 (rw same at u))
          | inr e ↦ inr (
              sub_levels-id_in k (suc d) n (children_of folders ids) (next-IsLevel d ids level) i u
                (ground arith) (ground arith))
        ])

  -- Of a subtree that is at most 64 levels deep the query returns exactly the ids.
  pub collect_subtree_all-InSubtree :
      ((i n : ℕ) → Under i n → n ≤ 64)
      → (i : ℕ) → (id_in (collect_subtree_all folders top) i ≡ true) ↔ InSubtree i
  unfolding collect_subtree_all
  collect_subtree_all-InSubtree shallow i = (
    λ h. sub_levels-InSubtree 64 0 (self_rows folders top) root-IsLevel i h,
    λ (n, u).
        sub_levels-id_in 64 0 n (self_rows folders top) root-IsLevel i u (omega arith)
          (let le = shallow i n u in omega arith),
  )

  sub_levels-closed :
      (k : ℕ) (ids : List ℕ)
      → ((i : ℕ) → id_in ids i ≡ true → InSubtree i)
      → (i : ℕ) → id_in (sub_levels k folders ids) i ≡ true
      → InSubtree i
  unfolding sub_levels
  sub_levels-closed zero ids inside i h = inside i h
  sub_levels-closed (suc k) ids inside i h =
      elim ((any-append (λ j. j == i) ids (sub_levels k folders (children_of folders ids))).0 h) [
        | inl here ↦ inside i here
        | inr below ↦
            sub_levels-closed k (children_of folders ids)
              (λ j listed.
                let (p, above, f, m, a, b) = children_of-parent ids j listed in
                let (n, u) = inside p above in (suc n, lower f u m a b))
              i below
      ]

  sub_levels-start :
      (k : ℕ) (ids : List ℕ) (i : ℕ)
      → id_in ids i ≡ true
      → id_in (sub_levels k folders ids) i ≡ true
  unfolding sub_levels
  sub_levels-start zero ids i h = h
  sub_levels-start (suc k) ids i h =
      (any-append (λ j. j == i) ids (sub_levels k folders (children_of folders ids))).1 (inl h)

  -- What a deletion of the whole subtree cascades to is the subtree.
  pub sub_levels-InSubtree_iff :
      (k : ℕ) (ids : List ℕ)
      → ((i : ℕ) → (id_in ids i ≡ true) ↔ InSubtree i)
      → (i : ℕ) → (id_in (sub_levels k folders ids) i ≡ true) ↔ InSubtree i
  sub_levels-InSubtree_iff k ids listed i = (
    λ h. sub_levels-closed k ids (λ j. (listed j).0) i h,
    λ u. sub_levels-start k ids i ((listed i).1 u),
  )

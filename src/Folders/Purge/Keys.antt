-- ===== src/Folders/Purge/Keys.antt =====
-- src/folders/index.ts, the keys that a purge collects, and the store behind their removal.
use mathlib.Core.List.{Memᴰ}
use mathlib.Core.List.Memᴰ.{head, tail}
use stohr.Common.{
  ◌≡◌, ◌↔◌, refl, inl, inr, Bool, true, none, some, List, [], ◌∷◌, String, arith, str_eq, eq_iff,
  if◌then◌else◌, any, filter, Bool-cases, Option-cases,
}
use stohr.Db.{FileRow}
use stohr.Uploads.Store.{whole, Objects, drop_object, fetch_object, fetch-drop, key_eq}
use stohr.Folders.Purge.{thumb_keys, drop_all}

abbrev pub has_key : List String → String → Bool
has_key keys key = any (λ k. str_eq k key) keys

-- A removed key is gone and any other key still holds what it held.
pub fetch-drop_all :
    (keys : List String) (key : String) (objects : Objects)
    → fetch_object (whole key) (drop_all keys objects)
      ≡ (if has_key keys key then none else fetch_object (whole key) objects)
unfolding drop_all key_eq
fetch-drop_all [] key objects = refl
fetch-drop_all (k ∷ keys) key objects =
    let rest = fetch-drop_all keys key (drop_object (whole k) objects) in
    let this = fetch-drop (whole k) (whole key) objects in ground (arith, rest, this)

-- The thumbnails of the rows that a query returns.
pub thumb_keys-row :
    (p : String → Bool) (q : FileRow → Bool) (files : List FileRow)
    → any p (thumb_keys (filter q files)) ≡ true
    → (f : FileRow) × Memᴰ f files
      × (q f ≡ true)
      × (key : String) × (f.thumb_key ≡ some key)
      × (p key ≡ true)
thumb_keys-row p q [] h = absurd cc
thumb_keys-row p q (f ∷ files) h = elim (Bool-cases (q f)) [
  | inr no_file ↦ pass (thumb_keys-row p q files (rw no_file at h))
  | inl t ↦ elim (Option-cases f.thumb_key) [
    | inl e ↦ pass (thumb_keys-row p q files (rw (t, e) at h))
    | inr (key, e) ↦ elim (Bool-cases (p key)) [
      | inl u ↦ (f, head refl, t, key, e, u)
      | inr v ↦ pass (thumb_keys-row p q files (rw (t, e, v) at h))
    ]
  ]
]
  where
    pass :
        ((g : FileRow) × Memᴰ g files
          × (q g ≡ true)
          × (key : String) × (g.thumb_key ≡ some key)
          × (p key ≡ true))
        → (g : FileRow) × Memᴰ g (f ∷ files)
          × (q g ≡ true)
          × (key : String) × (g.thumb_key ≡ some key)
          × (p key ≡ true)
    pass (g, m, a, key, b, c) = (g, tail m, a, key, b, c)

pub row-thumb_keys :
    (p : String → Bool) (q : FileRow → Bool) (files : List FileRow) (f : FileRow) (key : String)
    → Memᴰ f files
    → q f ≡ true
    → f.thumb_key ≡ some key
    → p key ≡ true
    → any p (thumb_keys (filter q files)) ≡ true
row-thumb_keys p q [] f key m a b c = elim m [ ]
row-thumb_keys p q (g ∷ files) f key (head e) a b c = rw (← e, a, b, c) refl
row-thumb_keys p q (g ∷ files) f key (tail m) a b c =
    let rest = row-thumb_keys p q files f key m a b c in
    elim (Bool-cases (q g)) [
      | inr no_file ↦ rw no_file rest
      | inl t ↦ elim (Option-cases g.thumb_key) [
        | inl e ↦ rw (t, e) rest
        | inr (k, e) ↦ elim (Bool-cases (p k)) [
          | inl u ↦ rw (t, e, u) refl
          | inr v ↦ rw (t, e, v) rest
        ]
      ]
    ]

pub str_eq_iff : (a b : String) → (str_eq a b ≡ true) ↔ (a ≡ b)
str_eq_iff a b = eq_iff a b

-- ===== src/Uploads/Finalize/Rollback.antt =====
-- src/uploads/finalize.ts: a write over quota leaves no trace, and one that stays fits both caps.
use stohr.Common.{
  ℕ, ◌≡◌, ◌≢◌, refl, ◌∙◌, sym, ap, inl, inr, Bool, true, false, ◌&&◌, Option, none, some, List, [],
  ◌∷◌, String, arith, ◌==◌, ==_iff, find, any, delete_where, update_where, All, find-All,
  Option-cases, Bool-cases,
}
use stohr.Db.{Db, FileRow, FileVersionRow}
use stohr.Usage.{QuotaDenied}
use stohr.Uploads.Store.{Objects}
use stohr.Uploads.Finalize.{
  Env, FinalizeArgs, FinalizedFile, finalized, over_quota, Disk, drop_thumb, drop_new, next_version,
  set_back, write_version, undo_version, write_new, undo_new, reply_of, settle,
}

-- The ids of the rows are distinct: `id` is the primary key.
abbrev pub Distinct : List FileRow → Type 0
Distinct [] = Unit
Distinct (f ∷ files) = All (λ g. g.id ≢ f.id) files × Distinct files

-- No file's current version is archived: the versions of a file are numbered in order.
abbrev pub has_version : ℕ → ℕ → FileVersionRow → Bool
has_version id version v = v.file_id == id && v.version == version

abbrev pub CurrentNotArchived : Db → Type 0
CurrentNotArchived db =
    All (λ f. any (has_version f.id f.version) db.file_versions ≡ false) db.files

abbrev pub IsOnly : FileRow → List FileRow → Type 0
IsOnly e files = All (λ g. g.id ≡ e.id → g ≡ e) files

All-map {ℓ κ} :
    {A : Type ℓ} (P Q : A → Type κ) (xs : List A) → ((x : A) → P x → Q x) → All P xs → All Q xs
All-map P Q [] f h = tt
All-map P Q (x ∷ xs) f (h, hs) = (f x h, All-map P Q xs f hs)

pub IsOnly-find :
    (p : FileRow → Bool) (files : List FileRow) (e : FileRow)
    → Distinct files
    → find p files ≡ some e
    → IsOnly e files
IsOnly-find p [] e d h = tt
IsOnly-find p (x ∷ files) e (d, ds) h = elim (Bool-cases (p x)) [
  | inl t ↦
      let here : x ≡ e = ground arith in
      (
        λ q. here,
        All-map (λ g. g.id ≢ x.id) (λ g. g.id ≡ e.id → g ≡ e) files
            (λ g ne same. absurd (ne (same ∙ ap (λ (r : FileRow). r.id) (sym here)))) d,
      )
  | inr f ↦
      let later : find p files ≡ some e = ground arith in
      let ne : e.id ≢ x.id = find-All (λ (g : FileRow). g.id ≢ x.id) p files e d later in
      (λ q. absurd (ne (sym q)), IsOnly-find p files e ds later)
]

update_back :
    (env : Env) (args : FinalizeArgs) (thumb_key : Option String) (e : FileRow)
    (files : List FileRow)
    → IsOnly e files
    → update_where
        (λ f. f.id == e.id)
        (set_back e)
        (update_where (λ f. f.id == e.id) (next_version env args thumb_key e.version) files)
      ≡ files
update_back env args thumb_key e [] h = refl
update_back env args thumb_key e (x ∷ files) (h, hs) = elim (Bool-cases (x.id == e.id)) [
  | inl t ↦
      let same : x ≡ e = h ((==_iff x.id e.id).0 t) in
      ground (arith, update_back env args thumb_key e files hs)
  | inr f ↦ ground (arith, update_back env args thumb_key e files hs)
]

delete_where_none {ℓ} :
    {A : Type ℓ} (p : A → Bool) (xs : List A) → any p xs ≡ false → delete_where p xs ≡ xs
delete_where_none p [] h = refl
delete_where_none p (x ∷ xs) h = ground (arith, delete_where_none p xs)

pub ==_self : (n : ℕ) → (n == n) ≡ true
==_self n = (==_iff n n).1 refl

-- The undo of a new version gives back the database before it.
pub undo-write_version :
    (env : Env) (args : FinalizeArgs) (thumb_key : Option String) (e : FileRow) (db : Db)
    → IsOnly e db.files
    → any (has_version e.id e.version) db.file_versions ≡ false
    → undo_version e (write_version env args thumb_key e db) ≡ db
unfolding undo_version write_version
undo-write_version env args thumb_key e db only fresh = rw (
  ==_self e.id,
  ==_self e.version,
  delete_where_none (has_version e.id e.version) db.file_versions fresh,
  update_back env args thumb_key e db.files only,
)

pub undo-write_new :
    (env : Env) (args : FinalizeArgs) (thumb_key : Option String) (new_id : ℕ) (db : Db)
    → any (λ f. f.id == new_id) db.files ≡ false
    → undo_new new_id (write_new env args thumb_key new_id db) ≡ db
unfolding undo_new write_new
undo-write_new env args thumb_key new_id db fresh =
    rw (==_self new_id, delete_where_none (λ f. f.id == new_id) db.files fresh)

-- What `settle` returns when the quota refuses, and when it does not.
pub settle_denied :
    (args : FinalizeArgs) (thumb_key prior : Option String) (id : ℕ) (new : Bool) (db undone : Db)
    (objects : Objects) (o : Option QuotaDenied) (disk' : Disk) (d : QuotaDenied)
    → settle args thumb_key prior id new db undone objects o ≡ (disk', over_quota d)
    → (disk'.db ≡ undone) × (disk'.objects ≡ drop_new args thumb_key objects)
unfolding settle
settle_denied args thumb_key prior id new db undone objects (some e) disk' d h =
    (ground arith, ground arith)
settle_denied args thumb_key prior id new db undone objects none disk' d h =
    elim (Option-cases (find (λ (f : FileRow). f.id == id) db.files)) [
      | inl e ↦ absurd (ground arith)
      | inr (f, e) ↦ absurd (ground arith)
    ]

pub settle_finalized :
    (args : FinalizeArgs) (thumb_key prior : Option String) (id : ℕ) (new : Bool) (db undone : Db)
    (objects : Objects) (o : Option QuotaDenied) (disk' : Disk) (r : FinalizedFile)
    → settle args thumb_key prior id new db undone objects o ≡ (disk', finalized r)
    → (o ≡ none)
      × (disk'.db ≡ db)
      × (disk'.objects ≡ drop_thumb prior objects)
      × (reply_of new (find (λ f. f.id == id) db.files) ≡ finalized r)
unfolding settle
settle_finalized args thumb_key prior id new db undone objects (some e) disk' r h =
    absurd (ground arith)
settle_finalized args thumb_key prior id new db undone objects none disk' r h =
    (refl, ground arith, ground arith, ground arith)

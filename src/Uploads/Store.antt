-- ===== src/Uploads/Store.antt =====
-- src/storage/index.ts: an object store as the list of its keys and contents, for the local driver;
-- `put` overwrites, `drop` of a missing key does nothing, and reading one fails.
use stohr.Common.{
  ℕ, ◌≡◌, ◌↔◌, refl, Bool, true, false, ◌&&◌, Option, none, some, List, [], ◌∷◌, String, ◌==◌,
  str_eq, if◌then◌else◌, delete_where, arith, eq_iff,
}

-- An object under a storage key, or a part of an upload, under the key followed by `.part` and a number; no
-- storage key that the server draws ends like that.
pub data ObjectKey : Type 0 where
  whole : String → ObjectKey
  part : String → ℕ → ObjectKey

unfoldable pub key_eq : ObjectKey → ObjectKey → Bool
key_eq (whole a) (whole b) = str_eq a b
key_eq (part a m) (part b n) = str_eq a b && m == n
key_eq _ _ = false

pub key_eq_iff : (a b : ObjectKey) → (key_eq a b ≡ true) ↔ (a ≡ b)
unfolding key_eq
key_eq_iff (whole a) (whole b) = ground (arith, eq_iff a b)
key_eq_iff (whole a) (part b n) = ground arith
key_eq_iff (part a m) (whole b) = ground arith
key_eq_iff (part a m) (part b n) = ground (arith, eq_iff a b)

abbrev pub Objects : Type 0
Objects = List (ObjectKey × List ℕ)

unfoldable pub fetch_object : ObjectKey → Objects → Option (List ℕ)
fetch_object key [] = none
fetch_object key ((k, b) ∷ objects) = if key_eq k key then some b else fetch_object key objects

unfoldable pub drop_object : ObjectKey → Objects → Objects
drop_object key objects = delete_where (λ o. key_eq o.0 key) objects

unfoldable pub put_object : ObjectKey → List ℕ → Objects → Objects
unfolding drop_object
put_object key b objects = (key, b) ∷ drop_object key objects

pub fetch-drop_ne :
    (key other : ObjectKey) (objects : Objects)
    → key_eq key other ≡ false
    → fetch_object other (drop_object key objects) ≡ fetch_object other objects
unfolding fetch_object drop_object
fetch-drop_ne key other [] h = refl
fetch-drop_ne key other ((k, b) ∷ objects) h = ground (
  arith,
  fetch-drop_ne key other objects h,
  key_eq_iff k key,
  key_eq_iff k other,
  key_eq_iff key other,
)

-- A read after a write: the written bytes at its key, and what was there at any other.
pub fetch-put :
    (key other : ObjectKey) (b : List ℕ) (objects : Objects)
    → fetch_object other (put_object key b objects)
      ≡ (if key_eq key other then some b else fetch_object other objects)
unfolding fetch_object put_object
fetch-put key other b objects = ground (arith, fetch-drop_ne key other objects)

pub fetch-drop_self :
    (key : ObjectKey) (objects : Objects) → fetch_object key (drop_object key objects) ≡ none
unfolding fetch_object drop_object
fetch-drop_self key [] = refl
fetch-drop_self key ((k, b) ∷ objects) = ground (arith, fetch-drop_self key objects)

-- A read after a removal.
pub fetch-drop :
    (key other : ObjectKey) (objects : Objects)
    → fetch_object other (drop_object key objects)
      ≡ (if key_eq key other then none else fetch_object other objects)
fetch-drop key other objects =
    ground
      (arith, fetch-drop_ne key other objects, fetch-drop_self key objects, key_eq_iff key other)

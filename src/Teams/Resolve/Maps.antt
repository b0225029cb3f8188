-- ===== src/Teams/Resolve/Maps.antt =====
-- src/teams/resolve.ts: what the operations on the two maps keep of their entries and their sizes.
use stohr.Common.{
  ℕ, ◌+◌, ◌≤◌, ◌≡◌, refl, inl, inr, Bool, true, Option, none, some, List, [], ◌∷◌, String, arith,
  ltb, str_eq, eq_iff, Bool-cases, All, length,
}
use stohr.Teams.Resolve.{
  Entry, map_get, map_set, map_delete, make_room, set_slug, set_id, num_eq, max_entries,
}

module _ {K : Type 0} (eq : K → K → Bool) (sound : (a b : K) → eq a b ≡ true → a ≡ b)
    (P : K × Entry → Type 0) where
  pub map_get-All :
      (k : K) (m : List (K × Entry)) (e : Entry) → All P m → map_get eq k m ≡ some e → P (k, e)
  map_get-All k [] e h g = absurd cc
  map_get-All k ((k', v) ∷ m) e (p, h) g = elim (Bool-cases (eq k' k)) [
    | inl t ↦
        let same : k' ≡ k = sound k' k t in
        let got : some v ≡ some e = rw t at g in let value : v ≡ e = cc in rw (← same, ← value) p
    | inr f ↦ map_get-All k m e h (rw f at g)
  ]

  pub map_set-All :
      (k : K) (v : Entry) (m : List (K × Entry)) → All P m → P (k, v) → All P (map_set eq k v m)
  map_set-All k v [] h p = (p, tt)
  map_set-All k v (e ∷ m) (q, h) p = elim (Bool-cases (eq e.0 k)) [
    | inl t ↦ rw t (p, h)
    | inr f ↦ rw f (q, map_set-All k v m h p)
  ]

  pub map_delete-All : (k : K) (m : List (K × Entry)) → All P m → All P (map_delete eq k m)
  map_delete-All k [] h = tt
  map_delete-All k (e ∷ m) (q, h) = elim (Bool-cases (eq e.0 k)) [
    | inl t ↦ rw t h
    | inr f ↦ rw f (q, map_delete-All k m h)
  ]

pub make_room-All : {A : Type 0} (P : A → Type 0) (m : List A) → All P m → All P (make_room m)
make_room-All P m h = elim (Bool-cases (ltb max_entries (length m))) [
  | inl t ↦ rw t tt
  | inr f ↦ rw f h
]

pub num_eq_sound : (a b : ℕ) → num_eq a b ≡ true → a ≡ b
num_eq_sound a b h = ground arith

pub str_eq_sound : (a b : String) → str_eq a b ≡ true → a ≡ b
str_eq_sound a b h = ground (arith, eq_iff a b)

module _ {K : Type 0} (eq : K → K → Bool) where
  pub length-map_set :
      (k : K) (v : Entry) (m : List (K × Entry)) → length (map_set eq k v m) ≤ length m + 1
  length-map_set k v [] = omega arith
  length-map_set k v (e ∷ m) = ground (arith, length-map_set k v m)

  pub length-map_delete : (k : K) (m : List (K × Entry)) → length (map_delete eq k m) ≤ length m
  length-map_delete k [] = omega arith
  length-map_delete k (e ∷ m) = ground (arith, length-map_delete k m)

pub length-make_room : {A : Type 0} (m : List A) → length (make_room m) ≤ max_entries
length-make_room m = ground arith

pub set_slug-All :
    (P : String × Entry → Type 0) (o : Option String) (v : Entry) (m : List (String × Entry))
    → All P m
    → ((s : String) → o ≡ some s → P (s, v))
    → All P (set_slug o v m)
set_slug-All P none v m h p = h
set_slug-All P (some s) v m h p = map_set-All str_eq str_eq_sound P s v m h (p s refl)

pub set_id-All :
    (P : ℕ × Entry → Type 0) (o : Option ℕ) (v : Entry) (m : List (ℕ × Entry))
    → All P m
    → ((i : ℕ) → o ≡ some i → P (i, v))
    → All P (set_id o v m)
set_id-All P none v m h p = h
set_id-All P (some i) v m h p = map_set-All num_eq num_eq_sound P i v m h (p i refl)

-- ===== src/Auth/Touch.antt =====
-- src/security/sessions.ts: `touchSession`, which writes a session's time of last use at most every
-- five minutes. The map of the last touches is its entries in the order of their insertion; whether
-- the database takes the write is an argument.
use stohr.Common.{
  ℕ, suc, ◌-◌, ◌/◌, ◌≡◌, ◌≤◌, refl, inl, inr, Bool, true, false, Option, none, some, List, [], ◌∷◌,
  String, str_eq, ltb, leb, find, delete_where, if◌then◌else◌, length, take, any, ◌⊎◌, ◌<◌, arith,
  eq_iff, Bool-cases,
}
use stohr.Auth.Sessions.{SessionRow, use_session, touch_interval_ms}

abbrev pub touch_cache_max : ℕ
touch_cache_max = 10000

abbrev pub Touches : Type 0
Touches = List (String × ℕ)

pub record SessionState : Type 0 where
  pub rows : List SessionRow
  pub last_touched : Touches

abbrev is_of : String → String × ℕ → Bool
is_of jti p = str_eq p.0 jti

abbrev set_touch : String → ℕ → Touches → Touches
set_touch jti now [] = (jti, now) ∷ []
set_touch jti now (p ∷ m) = if is_of jti p then (jti, now) ∷ m else p ∷ set_touch jti now m

abbrev delete_touch : String → Touches → Touches
delete_touch jti m = delete_where (is_of jti) m

abbrev is_stale : ℕ → String × ℕ → Bool
is_stale now p = leb touch_interval_ms (now - p.1)

-- The stable sort by the time, oldest first.
abbrev insert_by_time : String × ℕ → Touches → Touches
insert_by_time p [] = p ∷ []
insert_by_time p (q ∷ m) = if leb p.1 q.1 then p ∷ q ∷ m else q ∷ insert_by_time p m

abbrev sort_by_time : Touches → Touches
sort_by_time [] = []
sort_by_time (p ∷ m) = insert_by_time p (sort_by_time m)

abbrev delete_touches : Touches → Touches → Touches
delete_touches [] m = m
delete_touches (p ∷ ps) m = delete_touches ps (delete_touch p.0 m)

abbrev oldest_half : Touches → Touches
oldest_half m = take (length m / 2) (sort_by_time m)

unfoldable pub prune_touch_cache : ℕ → Touches → Touches
prune_touch_cache now m =
    let fresh = delete_where (is_stale now) m in
    if ltb touch_cache_max (length fresh) then delete_touches (oldest_half fresh) fresh else fresh

abbrev remember : ℕ → String → Touches → Touches
remember now jti m =
    let set = set_touch jti now m in
    if ltb touch_cache_max (length set) then prune_touch_cache now set else set

abbrev is_recent : ℕ → Option (String × ℕ) → Bool
is_recent now none = false
is_recent now (some p) = ltb (now - p.1) touch_interval_ms

unfoldable pub touch_session : ℕ → Bool → String → SessionState → SessionState
unfolding prune_touch_cache
touch_session now write_ok jti st =
    if is_recent now (find (is_of jti) st.last_touched)
    then st
    else if write_ok
    then record {
      rows = use_session now jti st.rows;
      last_touched = remember now jti st.last_touched;
    }
    else record st { last_touched = delete_touch jti (remember now jti st.last_touched) }

length-set_touch :
    (jti : String) (now : ℕ) (m : Touches) → length (set_touch jti now m) ≤ suc (length m)
length-set_touch jti now [] = ground arith
length-set_touch jti now (p ∷ m) = ground (arith, length-set_touch jti now m)

length-delete_where : (q : String × ℕ → Bool) (m : Touches) → length (delete_where q m) ≤ length m
length-delete_where q [] = ground arith
length-delete_where q (p ∷ m) = ground (arith, length-delete_where q m)

length-delete_touches : (ps m : Touches) → length (delete_touches ps m) ≤ length m
length-delete_touches [] m = ground arith
length-delete_touches (p ∷ ps) m =
    ground (arith, length-delete_touches ps (delete_touch p.0 m), length-delete_where (is_of p.0) m)

length-delete_present :
    (jti : String) (m : Touches) → any (is_of jti) m ≡ true → length (delete_touch jti m) < length m
length-delete_present jti [] h = absurd cc
length-delete_present jti (p ∷ m) h =
    ground (arith, length-delete_present jti m, length-delete_where (is_of jti) m)

any-insert :
    (p : String × ℕ) (m : Touches)
    → (q : String × ℕ) × (rest : Touches) × (insert_by_time p m ≡ q ∷ rest)
      × ((q ≡ p) ⊎ ((tail : Touches) × (m ≡ q ∷ tail)))
any-insert p [] = (p, [], refl, inl refl)
any-insert p (q ∷ m) = elim (Bool-cases (leb p.1 q.1)) [
  | inl t ↦ (p, q ∷ m, rw t, inl refl)
  | inr f ↦ (q, insert_by_time p m, rw f, inr (m, refl))
]

-- The oldest entry is one of the map.
oldest-any :
    (p : String × ℕ) (m : Touches)
    → (q : String × ℕ) × (rest : Touches) × (sort_by_time (p ∷ m) ≡ q ∷ rest)
      × (any (is_of q.0) (p ∷ m) ≡ true)
oldest-any p [] = (p, [], refl, ground (arith, eq_iff p.0 p.0))
oldest-any p (x ∷ m) =
    let (q, rest, sorted, which) = any-insert p (sort_by_time (x ∷ m)) in
    let (y, ys, sorted', present) = oldest-any x m in
    elim which [
      | inl e ↦ (q, rest, sorted, rw e (ground (arith, eq_iff p.0 p.0)))
      | inr (tail, e) ↦
          let same : y ≡ q = cc in
          let present' = rw same at present in (q, rest, sorted, ground arith)
    ]

length-oldest_half :
    (m : Touches) → 2 ≤ length m → length (delete_touches (oldest_half m) m) < length m
length-oldest_half [] h = ground arith
length-oldest_half (p ∷ m) h =
    let (q, rest, sorted, present) = oldest-any p m in
    let gone = length-delete_present q.0 (p ∷ m) present in
    let (n, half) : (n : ℕ) × (length (p ∷ m) / 2 ≡ suc n) =
      (length (p ∷ m) / 2 - 1, omega arith) in
    let others = length-delete_touches (take n rest) (delete_touch q.0 (p ∷ m)) in
    rw (half, sorted) (ground arith)

length-prune :
    (now : ℕ) (m : Touches)
    → length m ≤ suc touch_cache_max
    → length (prune_touch_cache now m) ≤ touch_cache_max
unfolding prune_touch_cache
length-prune now m h =
    let fresh : Touches = delete_where (is_stale now) m in
    let small = length-delete_where (is_stale now) m in
    elim (Bool-cases (ltb touch_cache_max (length fresh))) [
      | inl t ↦
          let half = length-oldest_half fresh (ground arith) in
          rw (prune_touch_cache, t) (ground arith)
      | inr f ↦ rw (prune_touch_cache, f) (ground arith)
    ]

-- A touch keeps the map of the last touches within 10,000 sessions, with the database's write done
-- or failed.
pub touch_session-bounded :
    (now : ℕ) (write_ok : Bool) (jti : String) (st : SessionState)
    → length st.last_touched ≤ touch_cache_max
    → length (touch_session now write_ok jti st).last_touched ≤ touch_cache_max
unfolding touch_session
touch_session-bounded now write_ok jti st h =
    let set = length-set_touch jti now st.last_touched in
    let pruned = length-prune now (set_touch jti now st.last_touched) (ground arith) in
    let kept : length (remember now jti st.last_touched) ≤ touch_cache_max = ground arith in
    let deleted = length-delete_where (is_of jti) (remember now jti st.last_touched) in ground arith

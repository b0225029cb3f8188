-- ===== src/Federation/Erasure/Decoding.antt =====
-- src/federation/erasure.ts, `decode`: what the loops compute on shards of an encoding.
use stohr.Common.{
  ℕ, zero, suc, ◌+◌, ◌/◌, ◌<◌, ◌≡◌, refl, ap, ◌∙◌, sym, inl, inr, true, Option, none, some, List,
  [], ◌∷◌, map, arith, ◌==◌, length, replicate, get_elem?, All, any, length-replicate,
  if◌then◌else◌, ext_get_elem?, Bool-cases, ==_iff,
}
use stohr.Federation.Erasure.{
  ceil_div, zeros, collect, fill_slot, index_of_null, assemble, decode, Shard,
}

-- What a received shard may be: the fragment that its index names.
abbrev pub IsFragment : ℕ → List (List ℕ) → Shard → Type 0
IsFragment r frags s = get_elem? frags (s.0 / r) ≡ some s.1

-- Each of the `k` fragments has a shard.
abbrev pub Covers : ℕ → ℕ → List Shard → Type 0
Covers k r shards = (i : ℕ) → i < k → any (λ s. s.0 / r == i) shards ≡ true

-- The bytes of the first shard of fragment `i`.
first_for : ℕ → ℕ → List Shard → Option (List ℕ)
first_for r i [] = none
first_for r i ((index, b) ∷ shards) = if index / r == i then some b else first_for r i shards

prefer : Option (Option (List ℕ)) → Option (List ℕ) → Option (Option (List ℕ))
prefer none o = none
prefer (some none) o = some o
prefer (some (some b)) o = some (some b)

length-fill_slot :
    (slots : List (Option (List ℕ))) (i : ℕ) (b : List ℕ)
    → length (fill_slot slots i b) ≡ length slots
length-fill_slot [] i b = refl
length-fill_slot (none ∷ slots) zero b = refl
length-fill_slot (some a ∷ slots) zero b = refl
length-fill_slot (none ∷ slots) (suc i) b = ap suc (length-fill_slot slots i b)
length-fill_slot (some a ∷ slots) (suc i) b = ap suc (length-fill_slot slots i b)

get_elem?-fill_slot :
    (slots : List (Option (List ℕ))) (j i : ℕ) (b : List ℕ) (o : Option (List ℕ))
    → prefer (get_elem? (fill_slot slots j b) i) o
      ≡ prefer (get_elem? slots i) (if j == i then some b else o)
unfolding prefer
get_elem?-fill_slot [] j i b o = refl
get_elem?-fill_slot (none ∷ slots) zero zero b o = refl
get_elem?-fill_slot (some a ∷ slots) zero zero b o = refl
get_elem?-fill_slot (none ∷ slots) zero (suc i) b o = ground arith
get_elem?-fill_slot (some a ∷ slots) zero (suc i) b o = ground arith
get_elem?-fill_slot (none ∷ slots) (suc j) zero b o = ground arith
get_elem?-fill_slot (some a ∷ slots) (suc j) zero b o = ground arith
get_elem?-fill_slot (none ∷ slots) (suc j) (suc i) b o =
    ground (arith, get_elem?-fill_slot slots j i b o)
get_elem?-fill_slot (some a ∷ slots) (suc j) (suc i) b o =
    ground (arith, get_elem?-fill_slot slots j i b o)

length-collect :
    (shards : List Shard) (k r : ℕ) (slots : List (Option (List ℕ)))
    → length (collect shards k r slots) ≡ length slots
unfolding collect
length-collect [] k r slots = refl
length-collect ((index, b) ∷ shards) k r slots = ground (
  arith,
  length-collect shards k r slots,
  length-collect shards k r (fill_slot slots (index / r) b),
  length-fill_slot slots (index / r) b,
)

prefer-none : (o : Option (Option (List ℕ))) → prefer o none ≡ o
unfolding prefer
prefer-none none = refl
prefer-none (some none) = refl
prefer-none (some (some b)) = refl

-- A slot ends with the bytes of its first shard.
get_elem?-collect :
    (shards : List Shard) (k r i : ℕ) (slots : List (Option (List ℕ)))
    → 0 < r
    → i < k
    → get_elem? (collect shards k r slots) i ≡ prefer (get_elem? slots i) (first_for r i shards)
unfolding collect first_for
get_elem?-collect [] k r i slots p q = sym (prefer-none _)
get_elem?-collect ((index, b) ∷ shards) k r i slots p q = ground (
  arith,
  get_elem?-collect shards k r i slots,
  get_elem?-collect shards k r i (fill_slot slots (index / r) b),
  get_elem?-fill_slot slots (index / r) i b (first_for r i shards),
)

-- With correct shards for fragment `i`, its first shard is the fragment.
first_for-fragment :
    (shards : List Shard) (r i : ℕ) (frags : List (List ℕ))
    → All (IsFragment r frags) shards
    → any (λ s. s.0 / r == i) shards ≡ true
    → first_for r i shards ≡ get_elem? frags i
unfolding first_for
first_for-fragment [] r i frags h c = cc
first_for-fragment ((index, b) ∷ shards) r i frags (here, h) c =
    elim (Bool-cases (index / r == i)) [
      | inl t ↦
          let e : index / r ≡ i = (==_iff (index / r) i).0 t in
          rw t (sym here ∙ ap (get_elem? frags) e)
      | inr f ↦ rw f (first_for-fragment shards r i frags h (rw f at c))
    ]

abbrev empty_slot : Option (List ℕ)
empty_slot = none

abbrev pub filled : List (List ℕ) → List (Option (List ℕ))
filled frags = map some frags

get_elem?-none : (n i : ℕ) → i < n → get_elem? (replicate n empty_slot) i ≡ some none
get_elem?-none zero i h = absurd (omega arith)
get_elem?-none (suc n) zero h = refl
get_elem?-none (suc n) (suc i) h = get_elem?-none n i (omega arith)

get_elem?-map_some :
    (frags : List (List ℕ)) (i : ℕ)
    → i < length frags
    → get_elem? (filled frags) i ≡ some (get_elem? frags i)
get_elem?-map_some [] i h = absurd (omega arith)
get_elem?-map_some (f ∷ frags) zero h = refl
get_elem?-map_some (f ∷ frags) (suc i) h = get_elem?-map_some frags i (omega arith)

length-map_some : (frags : List (List ℕ)) → length (filled frags) ≡ length frags
length-map_some [] = refl
length-map_some (f ∷ frags) = ap suc (length-map_some frags)

-- Correct shards that cover every fragment fill every slot with its fragment.
collect-fragments :
    (shards : List Shard) (k r : ℕ) (frags : List (List ℕ))
    → 0 < r
    → length frags ≡ k
    → All (IsFragment r frags) shards
    → Covers k r shards
    → collect shards k r (replicate k empty_slot) ≡ filled frags
unfolding prefer
collect-fragments shards k r frags p size good cover =
    let slots : ℕ = length (collect shards k r (replicate k empty_slot)) in
    let n : slots ≡ k =
      length-collect shards k r (replicate k empty_slot) ∙ length-replicate k empty_slot in
    ext_get_elem? (collect shards k r (replicate k empty_slot)) (filled frags)
      (omega (arith, n, length-map_some frags))
      (λ i h.
        let lt : i < k = omega (arith, n) in
        rw (
          get_elem?-collect shards k r i (replicate k empty_slot) p lt,
          get_elem?-none k i lt,
          first_for-fragment shards r i frags good (cover i lt),
          get_elem?-map_some frags i (omega arith),
        ))

index_of_null-full : (i : ℕ) (frags : List (List ℕ)) → index_of_null i (filled frags) ≡ none
index_of_null-full i [] = refl
index_of_null-full i (f ∷ frags) = index_of_null-full (i + 1) frags

-- On such shards `decode` is its last loop over the fragments.
pub decode-fragments :
    (shards : List Shard) (k r total : ℕ) (frags : List (List ℕ))
    → 0 < r
    → length frags ≡ k
    → All (IsFragment r frags) shards
    → Covers k r shards
    → decode shards k r total ≡ assemble 0 (filled frags) (ceil_div total k) total (zeros total)
unfolding decode
decode-fragments shards k r total frags p size good cover =
    rw (collect-fragments shards k r frags p size good cover, index_of_null-full 0 frags)

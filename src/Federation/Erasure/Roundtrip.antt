-- ===== src/Federation/Erasure/Roundtrip.antt =====
-- src/federation/erasure.ts: what `encode` produces, and when `decode` undoes it.
use stohr.Common.{
  ℕ, zero, suc, ◌+◌, ◌-◌, ◌*◌, ◌/◌, ◌%◌, ◌≤◌, ◌<◌, max, ◌≡◌, refl, ◌∙◌, sym, ◌⊎◌, inl, inr, List,
  [], ◌∷◌, ◌++◌, arith, length, All, map, length-append, length-take, false, length-replicate, take,
  drop, ltb, ◌||◌,
}
use mathlib.Core.List.{map-append}
use stohr.Federation.Erasure.{
  ok, err, assemble, range_error, ceil_div, encode, decode, shards_from, replicas_from,
  EncodedShard, Shard, shard_coordinates, zeros,
}
use stohr.Federation.Erasure.Chunks.{
  chunks, length-chunks, encode-chunks, Carries, encode-Carries, All-append,
}
use stohr.Federation.Erasure.Decoding.{IsFragment, Covers, filled, decode-fragments}
use stohr.Federation.Erasure.Limits.{assemble-chunks_inside, assemble-chunks_outside}

-- The shard is one of the encoding's: it has the index and the bytes of one of them.
abbrev pub Sent : List EncodedShard → Shard → Type 0
Sent [] s = ⊥
Sent (e ∷ es) s = ((e.index ≡ s.0) × (e.bytes ≡ s.1)) ⊎ Sent es s

IsFragment-Sent :
    (r : ℕ) (frags : List (List ℕ)) (es : List EncodedShard) (s : Shard)
    → All (Carries r 0 frags) es
    → Sent es s
    → IsFragment r frags s
IsFragment-Sent r frags [] s h m = absurd m
IsFragment-Sent r frags (e ∷ es) s ((i, at, got), h) (inl (same, b)) =
    let q : e.index / r ≡ i = omega arith in rw (← same, ← b, q) got
IsFragment-Sent r frags (e ∷ es) s (h0, h) (inr m) = IsFragment-Sent r frags es s h m

All-IsFragment :
    (r : ℕ) (frags : List (List ℕ)) (es : List EncodedShard) (shards : List Shard)
    → All (Carries r 0 frags) es
    → All (Sent es) shards
    → All (IsFragment r frags) shards
All-IsFragment r frags es [] h m = tt
All-IsFragment r frags es (s ∷ shards) h (m, ms) =
    (IsFragment-Sent r frags es s h m, All-IsFragment r frags es shards h ms)

ok-injective {ℓ} : {A : Type ℓ} {a b : A} → ok a ≡ ok b → a ≡ b
ok-injective h = cc

module _ (bytes : List ℕ) (k r : ℕ) (es : List EncodedShard) (shards : List Shard) where
  fragments_known :
      encode bytes k r ≡ ok es
      → All (Sent es) shards
      → All (IsFragment r (chunks k (ceil_div (length bytes) k) bytes)) shards
  fragments_known e sent =
      let frags : List (List ℕ) = chunks k (ceil_div (length bytes) k) bytes in
      let same : shards_from 0 r frags ≡ es = ok-injective (sym (encode-chunks bytes k r) ∙ e) in
      All-IsFragment r frags es shards (rw same at (encode-Carries bytes k r)) sent

  decode-assemble :
      0 < r
      → encode bytes k r ≡ ok es
      → All (Sent es) shards
      → Covers k r shards
      → decode shards k r (length bytes)
        ≡ assemble 0
            (filled (chunks k (ceil_div (length bytes) k) bytes))
            (ceil_div (length bytes) k)
            (length bytes)
            (zeros (length bytes))
  decode-assemble q e sent cover =
      decode-fragments shards k r (length bytes) (chunks k (ceil_div (length bytes) k) bytes) q
        (length-chunks k (ceil_div (length bytes) k) bytes) (fragments_known e sent) cover

  -- From shards of an encoding, in any order and number, in which each of the k fragments occurs,
  -- `decode` returns the data, provided that k and r are positive and that the last fragment
  -- starts no later than the data ends.
  pub decode-encode :
      0 < k
      → 0 < r
      → encode bytes k r ≡ ok es
      → All (Sent es) shards
      → Covers k r shards
      → (k - 1) * ceil_div (length bytes) k ≤ length bytes
      → decode shards k r (length bytes) ≡ ok bytes
  decode-encode p q e sent cover fits =
      decode-assemble q e sent cover ∙ assemble-chunks_inside bytes k p fits

  -- From the same shards `decode` throws a RangeError where the last fragment would start behind
  -- the end of the data.
  pub decode-encode_overrun :
      0 < k
      → 0 < r
      → encode bytes k r ≡ ok es
      → All (Sent es) shards
      → Covers k r shards
      → length bytes < (k - 1) * ceil_div (length bytes) k
      → decode shards k r (length bytes) ≡ err range_error
  decode-encode_overrun p q e sent cover beyond =
      decode-assemble q e sent cover ∙ assemble-chunks_outside bytes k p beyond

ceil_div_self : (k : ℕ) → 0 < k → (k + k - 1) / k ≡ 1
ceil_div_self k h = grind arith

-- For positive k `shard_coordinates` takes every shard for replica 0 of the fragment of its own
-- index, whatever the number of replicas.
pub shard_coordinates_flat : (index k : ℕ) → 0 < k → shard_coordinates index k ≡ ok (index, 0)
unfolding shard_coordinates
shard_coordinates_flat index k h =
    let one : (k + k - 1) / k ≡ 1 = ceil_div_self k h in
    let e : k * max 1 1 ≡ k = omega arith in
    let a : index / 1 ≡ index = omega arith in
    let b : index % 1 ≡ 0 = omega arith in
    let valid : (ltb k 1 || ltb k k) ≡ false = ground arith in
    rw (one, e, one, valid) (let c : max 1 1 ≡ 1 = refl in rw (a, b))

-- The numbers i, i + 1, … i + n - 1.
abbrev pub count_up : ℕ → ℕ → List ℕ
count_up i zero = []
count_up i (suc n) = i ∷ count_up (i + 1) n

abbrev pub IsPlaced : ℕ → ℕ → EncodedShard → Type 0
IsPlaced r frag_size e =
    (e.index ≡ e.fragment * r + e.replica)
    × (e.replica < r)
    × (e.size ≡ frag_size)
    × (length e.bytes ≡ frag_size)

count_up-append : (i n m : ℕ) → count_up i n ++ count_up (i + n) m ≡ count_up i (n + m)
count_up-append i zero m =
    let a : i + 0 ≡ i = omega arith in let b : 0 + m ≡ m = omega arith in rw (a, b)
count_up-append i (suc n) m =
    let a : i + suc n ≡ i + 1 + n = omega arith in
    let b : suc n + m ≡ suc (n + m) = omega arith in rw (a, b, count_up-append (i + 1) n m)

replicas-indices :
    (n rep r idx : ℕ) (frag : List ℕ)
    → map (λ e. e.index) (replicas_from n rep r idx frag) ≡ count_up (idx * r + rep) n
unfolding replicas_from
replicas-indices zero rep r idx frag = refl
replicas-indices (suc n) rep r idx frag =
    let e : idx * r + (rep + 1) ≡ idx * r + rep + 1 = omega arith in
    rw (replicas-indices n (rep + 1) r idx frag, e)

shards-indices :
    (i r : ℕ) (frags : List (List ℕ))
    → map (λ e. e.index) (shards_from i r frags) ≡ count_up (i * r) (length frags * r)
unfolding shards_from
shards-indices i r [] = let e : 0 * r ≡ 0 = omega arith in rw e
shards-indices i r (frag ∷ frags) =
    let a : i * r + 0 ≡ i * r = omega arith in
    let b : (i + 1) * r ≡ i * r + r = omega arith in
    let c : suc (length frags) * r ≡ r + length frags * r = omega arith in
    rw (
      map-append,
      replicas-indices r 0 r i frag,
      shards-indices (i + 1) r frags,
      a,
      b,
      count_up-append (i * r) r (length frags * r),
      c,
    )

module _ (r f : ℕ) where
  replicas-IsPlaced :
      (n rep idx : ℕ) (frag : List ℕ)
      → rep + n ≡ r
      → length frag ≡ f
      → All (IsPlaced r f) (replicas_from n rep r idx frag)
  unfolding replicas_from
  replicas-IsPlaced zero rep idx frag e size = tt
  replicas-IsPlaced (suc n) rep idx frag e size =
      ((refl, omega arith, size, size), replicas-IsPlaced n (rep + 1) idx frag (omega arith) size)

  shards-IsPlaced :
      (i : ℕ) (frags : List (List ℕ))
      → All (λ frag. length frag ≡ f) frags
      → All (IsPlaced r f) (shards_from i r frags)
  unfolding shards_from
  shards-IsPlaced i [] h = tt
  shards-IsPlaced i (frag ∷ frags) (h, hs) =
      All-append (IsPlaced r f) (replicas_from r 0 r i frag) (shards_from (i + 1) r frags)
        (replicas-IsPlaced r 0 i frag (omega arith) h) (shards-IsPlaced (i + 1) frags hs)

chunks-size : (n f : ℕ) (rest : List ℕ) → All (λ frag. length frag ≡ f) (chunks n f rest)
chunks-size zero f rest = tt
chunks-size (suc n) f rest = (
  omega (
    arith,
    length-append (take f rest) (zeros (f - length (take f rest))),
    length-take f rest,
    length-replicate {A = ℕ} (f - length (take f rest)) 0,
  ),
  chunks-size n f (drop f rest),
)

-- `encode` never fails: it produces the shards with the indices 0, 1, … k * r - 1 in order, where
-- shard fragment * r + replica is that replica (below r) of that fragment, and all of them have
-- the size ceil(length / k).
pub encode-layout :
    (bytes : List ℕ) (k r : ℕ)
    → (es : List EncodedShard) × (encode bytes k r ≡ ok es)
      × (map (λ e. e.index) es ≡ count_up 0 (k * r))
      × All (IsPlaced r (ceil_div (length bytes) k)) es
encode-layout bytes k r =
    let f : ℕ = ceil_div (length bytes) k in
    let frags : List (List ℕ) = chunks k f bytes in
    let start : 0 * r ≡ 0 = omega arith in
    (
      shards_from 0 r frags,
      encode-chunks bytes k r,
      shards-indices 0 r frags ∙ rw (length-chunks k f bytes, start),
      shards-IsPlaced r f 0 frags (chunks-size k f bytes),
    )

-- ===== src/Federation/Erasure.antt =====
-- src/federation/erasure.ts: fragmented replication. Bytes are a list of numbers; a thrown error
-- is a value. `subarray` and `set` are the typed-array operations with their out-of-range cases.
pub mod Chunks
pub mod Decoding
pub mod Limits
pub mod Roundtrip
pub mod Tests
use stohr.Common.{
  ℕ, zero, suc, ◌+◌, ◌-◌, ◌*◌, ◌/◌, ◌%◌, min, max, Bool, true, false, not, ◌&&◌, ◌||◌, Option, none,
  some, List, [], ◌∷◌, ◌++◌, ltb, leb, ◌==◌, is_none, if◌then◌else◌, length, take, drop, replicate,
}

pub data ErasureError : Type 0 where
  invalid_parameters : ErasureError
  missing_fragment : ℕ → ErasureError
  range_error : ErasureError

pub data Result {ℓ} (A : Type ℓ) : Type ℓ where
  ok : A → Result A
  err : ErasureError → Result A

infixl 5 ◌>>=◌
abbrev pub ◌>>=◌ {ℓ κ} : {A : Type ℓ} {B : Type κ} → Result A → (A → Result B) → Result B
ok a >>= f = f a
err e >>= f = err e

-- `Math.ceil(a / b)`
abbrev pub ceil_div : ℕ → ℕ → ℕ
ceil_div a b = (a + b - 1) / b

pub record ErasureConfig : Type 0 where
  pub k : ℕ
  pub r : ℕ
  pub total_shards : ℕ

unfoldable pub erasure_config : ℕ → ℕ → Result ErasureConfig
erasure_config k m =
    let r = max 1 (ceil_div m k) in
    if ltb k 1 || ltb m k
    then err invalid_parameters
    else ok (record { k = k; r = r; total_shards = k * r })

unfoldable pub shard_coordinates : ℕ → ℕ → Result (ℕ × ℕ)
unfolding erasure_config
shard_coordinates index k = do
  cfg ← erasure_config k (k * max 1 (ceil_div k k))
  ok (index / cfg.r, index % cfg.r)

pub record EncodedShard : Type 0 where
  pub index : ℕ
  pub fragment : ℕ
  pub replica : ℕ
  pub size : ℕ
  pub bytes : List ℕ

abbrev pub zeros : ℕ → List ℕ
zeros n = replicate n 0

-- `a.subarray(start, end)` for two indices that are not negative
abbrev pub subarray : List ℕ → ℕ → ℕ → List ℕ
subarray a start end = take (end - start) (drop start a)

-- `a.subarray(0, end - start)`: a negative end counts from the back
abbrev pub subarray_to : List ℕ → ℕ → ℕ → List ℕ
subarray_to a start end =
    if leb start end then take (end - start) a else take (length a - (start - end)) a

-- `dst.set(src, offset)`
abbrev pub set_at : List ℕ → List ℕ → ℕ → Result (List ℕ)
set_at dst src offset =
    if leb (offset + length src) (length dst)
    then ok (take offset dst ++ (src ++ drop (offset + length src) dst))
    else err range_error

-- the first loop of `encode`: `n` fragments are left, `i` is the next one
pub fragments_from : ℕ → ℕ → List ℕ → ℕ → Result (List (List ℕ))
fragments_from zero i bytes frag_size = ok []
fragments_from (suc n) i bytes frag_size =
    let start = i * frag_size in
    let end = min (start + frag_size) (length bytes) in
    let rest = fragments_from n (i + 1) bytes frag_size in
    do frag ← set_at (zeros frag_size) (subarray bytes start end) 0; frags ← rest; ok (frag ∷ frags)

-- the inner loop: `n` replicas are left, `rep` is the next one
pub replicas_from : ℕ → ℕ → ℕ → ℕ → List ℕ → List EncodedShard
replicas_from zero rep r frag_idx frag = []
replicas_from (suc n) rep r frag_idx frag =
    record {
      index = frag_idx * r + rep;
      fragment = frag_idx;
      replica = rep;
      size = length frag;
      bytes = frag;
    }
    ∷ replicas_from n (rep + 1) r frag_idx frag

-- the second loop of `encode`
pub shards_from : ℕ → ℕ → List (List ℕ) → List EncodedShard
shards_from frag_idx r [] = []
shards_from frag_idx r (frag ∷ frags) =
    replicas_from r 0 r frag_idx frag ++ shards_from (frag_idx + 1) r frags

unfoldable pub encode : List ℕ → ℕ → ℕ → Result (List EncodedShard)
unfolding fragments_from shards_from replicas_from
encode bytes k r = do
  fragments ← fragments_from k 0 bytes (ceil_div (length bytes) k)
  ok (shards_from 0 r fragments)

-- A shard as `decode` receives it: its index and its bytes.
abbrev pub Shard : Type 0
Shard = ℕ × List ℕ

-- `fragments[i] = bytes` where the slot is still null
abbrev pub fill_slot : List (Option (List ℕ)) → ℕ → List ℕ → List (Option (List ℕ))
fill_slot [] i b = []
fill_slot (none ∷ slots) zero b = some b ∷ slots
fill_slot (some a ∷ slots) zero b = some a ∷ slots
fill_slot (slot ∷ slots) (suc i) b = slot ∷ fill_slot slots i b

-- the first loop of `decode`; with r = 0 the quotient is no index, and the shard is passed over
pub collect : List Shard → ℕ → ℕ → List (Option (List ℕ)) → List (Option (List ℕ))
collect [] k r slots = slots
collect ((index, b) ∷ shards) k r slots =
    collect shards k r
      (if not (r == 0) && ltb (index / r) k then fill_slot slots (index / r) b else slots)

-- `fragments.indexOf(null)`
abbrev pub index_of_null : ℕ → List (Option (List ℕ)) → Option ℕ
index_of_null i [] = none
index_of_null i (none ∷ slots) = some i
index_of_null i (some a ∷ slots) = index_of_null (i + 1) slots

-- the last loop of `decode`, over the fragments that are left
pub assemble : ℕ → List (Option (List ℕ)) → ℕ → ℕ → List ℕ → Result (List ℕ)
assemble i [] frag_size total_size out = ok out
assemble i (none ∷ slots) frag_size total_size out = err (missing_fragment i)
assemble i (some frag ∷ slots) frag_size total_size out =
    let start = i * frag_size in
    let end = min (start + frag_size) total_size in
    do
      out' ← set_at out (subarray_to frag start end) start
      assemble (i + 1) slots frag_size total_size out'

abbrev pub finish : List (Option (List ℕ)) → ℕ → ℕ → Option ℕ → Result (List ℕ)
finish slots k total_size (some missing) = err (missing_fragment missing)
finish slots k total_size none =
    assemble 0 slots (ceil_div total_size k) total_size (zeros total_size)

unfoldable pub decode : List Shard → ℕ → ℕ → ℕ → Result (List ℕ)
unfolding collect assemble
decode shards k r total_size =
    let slots = collect shards k r (replicate k none) in
    finish slots k total_size (index_of_null 0 slots)

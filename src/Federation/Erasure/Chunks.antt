-- ===== src/Federation/Erasure/Chunks.antt =====
-- src/federation/erasure.ts, `encode`: the fragments are the padded pieces of the data in order,
-- and each shard carries the fragment that its index names.
use stohr.Common.{
  ℕ, zero, suc, ◌+◌, ◌-◌, ◌*◌, ◌/◌, ◌≤◌, ◌<◌, min, ◌≡◌, refl, ap, ◌∙◌, some, List, [], ◌∷◌, ◌++◌,
  arith, length, take, drop, replicate, get_elem?, All, length-take, length-drop, length-replicate,
  drop-drop, le→leb,
}
use stohr.Federation.Erasure.{
  ok, ceil_div, zeros, subarray, set_at, fragments_from, replicas_from, shards_from, encode,
  EncodedShard,
}

-- A piece with its zero padding.
abbrev pub pad : ℕ → List ℕ → List ℕ
pad n c = c ++ zeros (n - length c)

-- The data cut into `n` pieces of one size.
abbrev pub chunks : ℕ → ℕ → List ℕ → List (List ℕ)
chunks zero frag_size rest = []
chunks (suc n) frag_size rest =
    pad frag_size (take frag_size rest) ∷ chunks n frag_size (drop frag_size rest)

pub length-chunks : (n f : ℕ) (rest : List ℕ) → length (chunks n f rest) ≡ n
length-chunks zero f rest = refl
length-chunks (suc n) f rest = ap suc (length-chunks n f (drop f rest))

pub drop-replicate : (n m a : ℕ) → drop n (replicate m a) ≡ replicate (m - n) a
drop-replicate zero m a = let e : m - 0 ≡ m = omega arith in rw e
drop-replicate (suc n) zero a = let e : 0 - suc n ≡ 0 = omega arith in rw e
drop-replicate (suc n) (suc m) a =
    let e : suc m - suc n ≡ m - n = omega arith in rw e (drop-replicate n m a)

pub set_at_start : (n : ℕ) (c : List ℕ) → length c ≤ n → set_at (zeros n) c 0 ≡ ok (pad n c)
set_at_start n c h =
    let size : length (zeros n) ≡ n = length-replicate n 0 in
    let e : 0 + length c ≡ length c = omega arith in
    rw (le→leb (0 + length c) (length (zeros n)) (omega arith), e, drop-replicate (length c) n 0)

take-min : (n m : ℕ) (xs : List ℕ) → min n (length xs) ≤ m → m ≤ n → take m xs ≡ take n xs
take-min zero zero xs h k = refl
take-min zero (suc m) xs h k = absurd (omega arith)
take-min (suc n) zero [] h k = refl
take-min (suc n) zero (x ∷ xs) h k = absurd (omega arith)
take-min (suc n) (suc m) [] h k = refl
take-min (suc n) (suc m) (x ∷ xs) h k = ap (◌∷◌ x) (take-min n m xs (omega arith) (omega arith))

pub fragments_from-chunks :
    (n i : ℕ) (bytes : List ℕ) (f : ℕ)
    → fragments_from n i bytes f ≡ ok (chunks n f (drop (i * f) bytes))
unfolding fragments_from
fragments_from-chunks zero i bytes f = refl
fragments_from-chunks (suc n) i bytes f =
    let rest : List ℕ = drop (i * f) bytes in
    let left : length rest ≡ length bytes - i * f = length-drop (i * f) bytes in
    let piece : subarray bytes (i * f) (min (i * f + f) (length bytes)) ≡ take f rest =
      take-min f (min (i * f + f) (length bytes) - i * f) rest (omega arith) (omega arith) in
    let small : length (take f rest) ≤ f = omega (arith, length-take f rest) in
    let e : (i + 1) * f ≡ i * f + f = omega arith in
    rw (
      piece,
      set_at_start f (take f rest) small,
      fragments_from-chunks n (i + 1) bytes f,
      e,
      ← drop-drop (i * f) f bytes,
    )

-- `encode` never fails, and its fragments are the chunks.
pub encode-chunks :
    (bytes : List ℕ) (k r : ℕ)
    → encode bytes k r ≡ ok (shards_from 0 r (chunks k (ceil_div (length bytes) k) bytes))
unfolding encode
encode-chunks bytes k r =
    let f : ℕ = ceil_div (length bytes) k in
    let e : 0 * f ≡ 0 = omega arith in rw (fragments_from-chunks k 0 bytes f, e)

-- The shard's index names, counted from fragment `j`, the fragment that it carries.
abbrev pub Carries : ℕ → ℕ → List (List ℕ) → EncodedShard → Type 0
Carries r j frags e = (i : ℕ) × (e.index / r ≡ j + i) × (get_elem? frags i ≡ some e.bytes)

div_index : (j r rep : ℕ) → rep < r → (j * r + rep) / r ≡ j
div_index j r rep h = grind arith

replicas_from-Carries :
    (n rep r j idx : ℕ) (frag : List ℕ) (frags : List (List ℕ)) (i : ℕ)
    → rep + n ≡ r
    → idx ≡ j + i
    → get_elem? frags i ≡ some frag
    → All (Carries r j frags) (replicas_from n rep r idx frag)
unfolding replicas_from
replicas_from-Carries zero rep r j idx frag frags i e p q = tt
replicas_from-Carries (suc n) rep r j idx frag frags i e p q = (
  (i, div_index idx r rep (omega arith) ∙ p, q),
  replicas_from-Carries n (rep + 1) r j idx frag frags i (omega arith) p q,
)

pub All-append :
    (P : EncodedShard → Type 0) (xs ys : List EncodedShard) → All P xs → All P ys → All P (xs ++ ys)
All-append P [] ys hx hy = hy
All-append P (x ∷ xs) ys hx hy = (hx.0, All-append P xs ys hx.1 hy)

-- The `m`-th of the remaining fragments is the `i + m`-th of all of them.
shards_from-Carries :
    (i r : ℕ) (frags rest : List (List ℕ))
    → ((m : ℕ) → get_elem? frags (i + m) ≡ get_elem? rest m)
    → All (Carries r 0 frags) (shards_from i r rest)
unfolding shards_from
shards_from-Carries i r frags [] h = tt
shards_from-Carries i r frags (frag ∷ rest) h =
    All-append (Carries r 0 frags) (replicas_from r 0 r i frag) (shards_from (i + 1) r rest)
      (replicas_from-Carries r 0 r 0 i frag frags i (omega arith) (omega arith)
        (let e : i + 0 ≡ i = omega arith in rw e at (h 0)))
      (shards_from-Carries (i + 1) r frags rest
        (λ m. let e : i + 1 + m ≡ i + suc m = omega arith in rw e (h (suc m))))

-- Every shard of the encoding carries the fragment that its index names.
pub encode-Carries :
    (bytes : List ℕ) (k r : ℕ)
    → All
        (Carries r 0 (chunks k (ceil_div (length bytes) k) bytes))
        (shards_from 0 r (chunks k (ceil_div (length bytes) k) bytes))
encode-Carries bytes k r =
    shards_from-Carries 0 r _ _ (λ m. let e : 0 + m ≡ m = omega arith in rw e refl)

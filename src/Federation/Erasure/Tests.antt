-- ===== src/Federation/Erasure/Tests.antt =====
-- Runs of the erasure coder (src/federation/erasure.ts).
use stohr.Common.{ℕ, ◌*◌, ◌≡◌, refl, inl, inr, List, [], ◌∷◌, All, map, length, zero, suc, arith}
use stohr.Federation.Erasure.{
  ok, err, range_error, encode, decode, ceil_div, EncodedShard, Shard, shard_coordinates,
}
use stohr.Federation.Erasure.Decoding.{Covers}
use stohr.Federation.Erasure.Roundtrip.{
  Sent, decode-encode, decode-encode_overrun, encode-layout, shard_coordinates_flat, count_up,
  IsPlaced,
}

abbrev three_bytes : List ℕ
three_bytes = 10 ∷ 20 ∷ 30 ∷ []

abbrev shard : ℕ → ℕ → ℕ → List ℕ → EncodedShard
shard index fragment replica bytes = record {
  index = index;
  fragment = fragment;
  replica = replica;
  size = length bytes;
  bytes = bytes;
}

-- Two fragments with two replicas each.
abbrev four_shards : List EncodedShard
four_shards =
    shard 0 0 0 (10 ∷ 20 ∷ [])
    ∷ shard 1 0 1 (10 ∷ 20 ∷ [])
    ∷ shard 2 1 0 (30 ∷ 0 ∷ [])
    ∷ shard 3 1 1 (30 ∷ 0 ∷ [])
    ∷ []

encode_three : encode three_bytes 2 2 ≡ ok four_shards
unfolding encode
encode_three = refl

-- The last shard of each fragment, the second fragment first.
abbrev two_received : List Shard
two_received = (3, 30 ∷ 0 ∷ []) ∷ (1, 10 ∷ 20 ∷ []) ∷ []

two_received-Sent : All (Sent four_shards) two_received
two_received-Sent = (inr (inr (inr (inl (refl, refl)))), (inr (inl (refl, refl)), tt))

two_cover : Covers 2 2 two_received
two_cover zero h = refl
two_cover (suc zero) h = refl
two_cover (suc (suc i)) h = absurd (ground arith)

decode-encode_example : decode two_received 2 2 3 ≡ ok three_bytes
decode-encode_example =
    decode-encode three_bytes 2 2 four_shards two_received (omega arith) (omega arith) encode_three
      two_received-Sent two_cover (omega arith)

-- Five bytes in four fragments of two bytes: the last one lies behind the end.
abbrev five_bytes : List ℕ
five_bytes = 1 ∷ 2 ∷ 3 ∷ 4 ∷ 5 ∷ []

abbrev padded_shards : List EncodedShard
padded_shards =
    shard 0 0 0 (1 ∷ 2 ∷ [])
    ∷ shard 1 1 0 (3 ∷ 4 ∷ [])
    ∷ shard 2 2 0 (5 ∷ 0 ∷ [])
    ∷ shard 3 3 0 (0 ∷ 0 ∷ [])
    ∷ []

encode_five : encode five_bytes 4 1 ≡ ok padded_shards
unfolding encode
encode_five = refl

abbrev all_received : List Shard
all_received = (0, 1 ∷ 2 ∷ []) ∷ (1, 3 ∷ 4 ∷ []) ∷ (2, 5 ∷ 0 ∷ []) ∷ (3, 0 ∷ 0 ∷ []) ∷ []

all_received-Sent : All (Sent padded_shards) all_received
all_received-Sent = (
  inl (refl, refl),
  (
    inr (inl (refl, refl)),
    (inr (inr (inl (refl, refl))), (inr (inr (inr (inl (refl, refl)))), tt)),
  ),
)

all_cover : Covers 4 1 all_received
all_cover zero h = refl
all_cover (suc zero) h = refl
all_cover (suc (suc zero)) h = refl
all_cover (suc (suc (suc zero))) h = refl
all_cover (suc (suc (suc (suc i)))) h = absurd (ground arith)

decode-encode_overrun_example : decode all_received 4 1 5 ≡ err range_error
decode-encode_overrun_example =
    decode-encode_overrun five_bytes 4 1 padded_shards all_received (omega arith) (omega arith)
      encode_five all_received-Sent all_cover (omega arith)

encode-layout_example :
    (es : List EncodedShard) × (encode three_bytes 2 2 ≡ ok es)
    × (map (λ e. e.index) es ≡ count_up 0 (2 * 2))
    × All (IsPlaced 2 (ceil_div (length three_bytes) 2)) es
encode-layout_example = encode-layout three_bytes 2 2

shard_coordinates_flat_example : shard_coordinates 3 4 ≡ ok (3, 0)
shard_coordinates_flat_example = shard_coordinates_flat 3 4 (omega arith)

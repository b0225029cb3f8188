-- ===== src/Federation/Erasure/Limits.antt =====
-- src/federation/erasure.ts, `decode`: its last loop over the chunks of the data, and when a
-- piece would start behind the end of the output.
use stohr.Common.{
  ℕ, zero, suc, ◌+◌, ◌-◌, ◌*◌, ◌≤◌, ◌<◌, min, ◌≡◌, refl, ◌∙◌, inl, inr, List, [], ◌∷◌, ◌++◌, arith,
  length, take, drop, length-take, length-drop, length-append, length-replicate, take-append_length,
  take-append-drop, leb, le→leb, Bool-cases, leb→le, leb_false→lt, lt→leb_false,
}
use native.Mathlib.Nat.{div-add-mod, mod-lt}
use mathlib.Core.List.{append_assoc}
use stohr.Federation.Erasure.{ok, err, range_error, ceil_div, zeros, subarray_to, set_at, assemble}
use stohr.Federation.Erasure.Chunks.{pad, chunks, drop-replicate}
use stohr.Federation.Erasure.Decoding.{filled}

drop-append_length :
    (n m : ℕ) (xs ys : List ℕ) → length xs ≡ n → drop (n + m) (xs ++ ys) ≡ drop m ys
drop-append_length zero m [] ys h = let e : 0 + m ≡ m = omega arith in rw e
drop-append_length zero m (x ∷ xs) ys h = absurd (omega arith)
drop-append_length (suc n) m [] ys h = absurd (omega arith)
drop-append_length (suc n) m (x ∷ xs) ys h =
    let e : suc n + m ≡ suc (n + m) = omega arith in
    rw e (drop-append_length n m xs ys (omega arith))

-- A write at the end of what is done, over the zeros behind it.
set_at_done :
    (done c : List ℕ) (n start : ℕ)
    → length done ≡ start
    → length c ≤ n
    → set_at (done ++ zeros n) c start ≡ ok (done ++ (c ++ zeros (n - length c)))
set_at_done done c n start e h =
    let size : length (done ++ zeros n) ≡ start + n =
      omega (arith, length-append done (zeros n), length-replicate {A = ℕ} n 0) in
    rw (
      le→leb (start + length c) (length (done ++ zeros n)) (omega arith),
      take-append_length start done (zeros n) e,
      drop-append_length start (length c) done (zeros n) e,
      drop-replicate (length c) n 0,
    )

-- One round of the last loop, while the piece starts inside the output.
assemble_step :
    (i n f total : ℕ) (done rest : List ℕ)
    → i * f ≤ total
    → length done ≡ i * f
    → length done + length rest ≡ total
    → assemble i (filled (chunks (suc n) f rest)) f total (done ++ zeros (length rest))
      ≡ assemble
          (i + 1)
          (filled (chunks n f (drop f rest)))
          f
          total
          ((done ++ take f rest) ++ zeros (length (drop f rest)))
unfolding assemble
assemble_step i n f total done rest inside e size =
    let start : ℕ = i * f in
    let end : ℕ = min (start + f) total in
    let piece : List ℕ = take f rest in
    let n_piece : length piece ≡ min f (length rest) = length-take f rest in
    let n_left : length (drop f rest) ≡ length rest - f = length-drop f rest in
    let cut : subarray_to (pad f piece) start end ≡ piece =
      rw (le→leb start end (omega arith))
        (take-append_length (end - start) piece (zeros (f - length piece)) (omega arith)) in
    let left : length rest - length piece ≡ length (drop f rest) = omega arith in
    rw (
      cut,
      set_at_done done piece (length rest) start e (omega arith),
      left,
      append_assoc done piece (zeros (length (drop f rest))),
    )

abbrev pub Sizes : (i n f total : ℕ) (done rest : List ℕ) → Type 0
Sizes i n f total done rest =
    (length done ≡ min (i * f) total) × (length done + length rest ≡ total) × (total ≤ (i + n) * f)

next-Sizes :
    (i n f total : ℕ) (done rest : List ℕ)
    → Sizes i (suc n) f total done rest
    → i * f ≤ total
    → Sizes (i + 1) n f total (done ++ take f rest) (drop f rest)
next-Sizes i n f total done rest h inside =
    let a : length (done ++ take f rest) ≡ length done + length (take f rest) =
      length-append done (take f rest) in
    let b : length (take f rest) ≡ min f (length rest) = length-take f rest in
    let c : length (drop f rest) ≡ length rest - f = length-drop f rest in
    (omega arith, omega arith, omega arith)

-- Where the last piece starts inside the output, the loop rebuilds the data.
pub assemble_inside :
    (n i f total : ℕ) (done rest : List ℕ)
    → Sizes i n f total done rest
    → (i + n) * f ≤ total + f
    → assemble i (filled (chunks n f rest)) f total (done ++ zeros (length rest))
      ≡ ok (done ++ rest)
unfolding assemble
assemble_inside zero i f total done [] h last = refl
assemble_inside zero i f total done (x ∷ rest) h last = absurd (omega arith)
assemble_inside (suc n) i f total done rest h last =
    let inside : i * f ≤ total = omega arith in
    assemble_step i n f total done rest inside (omega arith) (omega arith)
    ∙ assemble_inside n (i + 1) f total (done ++ take f rest) (drop f rest)
        (next-Sizes i n f total done rest h inside) (omega arith)
    ∙ rw (append_assoc done (take f rest) (drop f rest), take-append-drop f rest)

-- A write that starts behind the end fails.
set_at_behind :
    (out c : List ℕ) (start : ℕ) → length out < start → set_at out c start ≡ err range_error
set_at_behind out c start h = rw (lt→leb_false (start + length c) (length out) (omega arith))

-- Where a piece starts behind the end of the output, the loop fails.
pub assemble_outside :
    (n i f total : ℕ) (done rest : List ℕ)
    → Sizes i n f total done rest
    → i * f ≤ total + f
    → total + f < (i + n) * f
    → assemble i (filled (chunks n f rest)) f total (done ++ zeros (length rest)) ≡ err range_error
unfolding assemble
assemble_outside zero i f total done rest h before last = absurd (omega arith)
assemble_outside (suc n) i f total done rest h before last = elim (Bool-cases (leb (i * f) total)) [
  | inl t ↦
      let inside : i * f ≤ total = leb→le (i * f) total t in
      assemble_step i n f total done rest inside (omega arith) (omega arith)
      ∙ assemble_outside n (i + 1) f total (done ++ take f rest) (drop f rest)
          (next-Sizes i n f total done rest h inside) (omega arith) (omega arith)
  | inr b ↦
      let behind : total < i * f = leb_false→lt (i * f) total b in
      let size : length (done ++ zeros (length rest)) ≡ total = omega (
        arith,
        length-append done (zeros (length rest)),
        length-replicate {A = ℕ} (length rest) 0,
      ) in
      rw (
        set_at_behind (done ++ zeros (length rest))
          (subarray_to (pad f (take f rest)) (i * f) (min (i * f + f) total)) (i * f) (omega arith))
]

-- The pieces together are at least as long as the data.
ceil_div_covers : (total k : ℕ) → 0 < k → total ≤ k * ceil_div total k
ceil_div_covers total k h = omega (arith, div-add-mod (total + k - 1) k, mod-lt (total + k - 1) h)

last_piece : (k f : ℕ) → 0 < k → k * f ≡ (k - 1) * f + f
last_piece zero f h = absurd (omega arith)
last_piece (suc k) f h = let e : suc k - 1 ≡ k = omega arith in rw e (omega arith)

-- The last loop of `decode` over the chunks of the data, from its start.
pub assemble-chunks_inside :
    (bytes : List ℕ) (k : ℕ)
    → 0 < k
    → (k - 1) * ceil_div (length bytes) k ≤ length bytes
    → let f = ceil_div (length bytes) k in
      assemble 0 (filled (chunks k f bytes)) f (length bytes) (zeros (length bytes)) ≡ ok bytes
assemble-chunks_inside bytes k p h =
    let f : ℕ = ceil_div (length bytes) k in
    let n : ℕ = length bytes in
    let last : k * f ≡ (k - 1) * f + f = last_piece k f p in
    assemble_inside k 0 f n [] bytes
      (omega arith, omega arith, omega (arith, ceil_div_covers n k p)) (omega arith)

pub assemble-chunks_outside :
    (bytes : List ℕ) (k : ℕ)
    → 0 < k
    → length bytes < (k - 1) * ceil_div (length bytes) k
    → let f = ceil_div (length bytes) k in
      assemble 0 (filled (chunks k f bytes)) f (length bytes) (zeros (length bytes))
      ≡ err range_error
assemble-chunks_outside bytes k p h =
    let f : ℕ = ceil_div (length bytes) k in
    let n : ℕ = length bytes in
    let last : k * f ≡ (k - 1) * f + f = last_piece k f p in
    assemble_outside k 0 f n [] bytes
      (omega arith, omega arith, omega (arith, ceil_div_covers n k p)) (omega arith) (omega arith)

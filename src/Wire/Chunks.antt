-- ===== src/Wire/Chunks.antt =====
-- The chunked form of a byte string in src/byte_buffer.cpp: the writer's loop and the reader's.
use quack_oracle.Base.{
  ℕ, zero, suc, ◌+◌, ◌-◌, ◌^◌, min, ◌≤◌, ◌<◌, ◌≡◌, sym, ap, ◌∙◌, List, [], ◌∷◌, ◌++◌, ltb, ◌==◌,
  false, true, length, append_assoc, append-nil, arith, ok, err, limit_exceeded, length-append,
  take, drop, take-append, drop-append, take-append-drop, length-take, length-drop,
}
use native.Mathlib.Decide.{dec_lt}
use quack_oracle.Wire.Reader.{
  reader, bind-ok, landed, remaining, read_raw, read_ub4, read_chunks, nonempty,
}
use quack_oracle.Wire.Writer.{write_ub4, write_chunks}
use quack_oracle.Wire.Universal.{universal, write_ub4-append, read_ub4-universal}

pub read_raw-append :
    (xs rest : List ℕ) (p : ℕ)
    → read_raw (length xs) (reader p (xs ++ rest)) ≡ ok (xs, reader (p + length xs) rest)
unfolding read_raw remaining
read_raw-append xs rest p =
    let e : ltb (length (xs ++ rest)) (length xs) ≡ false = ground (arith, length-append xs rest) in
    rw (e, take-append xs rest, drop-append xs rest)

-- What the chunk loop of the writer puts behind it.
unfoldable pub chunks : ℕ → ℕ → List ℕ → List ℕ
chunks c zero xs = []
chunks c (suc fuel) [] = []
chunks c (suc fuel) (b ∷ bs) =
    (let n = min c (length (b ∷ bs)) in
      universal 4 n ++ (take n (b ∷ bs) ++ chunks c fuel (drop n (b ∷ bs))))

pub write_chunks-append :
    (c fuel : ℕ) (w xs : List ℕ) → c < 2 ^ 32 → write_chunks c fuel w xs ≡ w ++ chunks c fuel xs
unfolding write_chunks chunks
write_chunks-append c zero w xs h = sym (append-nil w)
write_chunks-append c (suc fuel) w [] h = sym (append-nil w)
write_chunks-append c (suc fuel) w (b ∷ bs) h =
    let n : ℕ = min c (length (b ∷ bs)) in
    rw (write_chunks-append c fuel (write_ub4 w n ++ take n (b ∷ bs)) (drop n (b ∷ bs)) h)
      (rw (write_ub4-append w n (omega arith)) (simp append_assoc))

-- The rounds of the reader's loop: on a chunk that fits under the limit, on one that does not, and
-- on the zero length at the end.
module _ (fuel maximum : ℕ) (result chunk : List ℕ) (n p : ℕ) (more : List ℕ)
    (len : length chunk ≡ n) (positive : 0 < n) (narrow : n < 2 ^ 32) where
  read_chunks_step :
      n ≤ maximum - length result
      → read_chunks (suc fuel) maximum result (reader p (universal 4 n ++ (chunk ++ more)))
        ≡ read_chunks fuel maximum (result ++ chunk) (reader (p + length (universal 4 n) + n) more)
  unfolding read_chunks
  read_chunks_step hm =
      let e : (n == 0) ≡ false = ground arith in
      let f : ltb (maximum - length result) n ≡ false = ground arith in
      bind-ok read_ub4 _ _ (read_ub4-universal n p (chunk ++ more) narrow)
      ∙ rw (e, f)
          (bind-ok (read_raw n) _ _
            (rw len at (read_raw-append chunk more (p + length (universal 4 n)))))

  read_chunks_limit :
      maximum - length result < n
      → read_chunks (suc fuel) maximum result (reader p (universal 4 n ++ (chunk ++ more)))
        ≡ err limit_exceeded
  unfolding read_chunks
  read_chunks_limit hm =
      let e : (n == 0) ≡ false = ground arith in
      let f : ltb (maximum - length result) n ≡ true = ground arith in
      bind-ok read_ub4 _ _ (read_ub4-universal n p (chunk ++ more) narrow) ∙ rw (e, f)

read_chunks_end :
    (fuel maximum : ℕ) (result : List ℕ) (p : ℕ) (rest : List ℕ)
    → read_chunks (suc fuel) maximum result (reader p (universal 4 0 ++ rest))
      ≡ ok (nonempty result, reader (p + length (universal 4 0)) rest)
unfolding read_chunks
read_chunks_end fuel maximum result p rest =
    bind-ok read_ub4 _ _ (read_ub4-universal 0 p rest (omega arith))

-- The chunk of a round: not empty, no longer than the chunk size, and a prefix of what is left.
pub chunk_size :
    (c : ℕ) (b : ℕ) (bs : List ℕ)
    → 1 ≤ c
    → let xs = b ∷ bs in
      let n = min c (length xs) in
      (length (take n xs) ≡ n) × (0 < n) × (length (drop n xs) + n ≡ length xs) × (n ≤ c)
chunk_size c b bs h = (
  omega (arith, length-take (min c (length (b ∷ bs))) (b ∷ bs)),
  omega arith,
  omega (arith, length-drop (min c (length (b ∷ bs))) (b ∷ bs)),
  omega arith,
)

module _ (c maximum : ℕ) (small : c < 2 ^ 32) (some_room : 1 ≤ c) (rest : List ℕ) where
  regrouped : (us vs ws zs : List ℕ) → (us ++ (vs ++ ws)) ++ zs ≡ us ++ (vs ++ (ws ++ zs))
  regrouped us vs ws zs = simp append_assoc

  -- The chunks and the zero length behind them are read back as the bytes that were cut.
  pub read_chunks-chunks :
      (fuel rounds : ℕ) (xs result : List ℕ) (p : ℕ)
      → length xs ≤ fuel
      → length xs < rounds
      → length result + length xs ≤ maximum
      → read_chunks rounds maximum result (reader p (chunks c fuel xs ++ (universal 4 0 ++ rest)))
        ≡ ok (
          nonempty (result ++ xs),
          reader (p + length (chunks c fuel xs) + length (universal 4 0)) rest,
        )
  unfolding chunks
  read_chunks-chunks fuel zero xs result p h hr hm = absurd (omega arith)
  read_chunks-chunks zero (suc rounds) [] result p h hr hm =
      read_chunks_end rounds maximum result p rest
      ∙ landed _ _ rest (ap nonempty (sym (append-nil result))) (omega arith)
  read_chunks-chunks (suc fuel) (suc rounds) [] result p h hr hm =
      read_chunks_end rounds maximum result p rest
      ∙ landed _ _ rest (ap nonempty (sym (append-nil result))) (omega arith)
  read_chunks-chunks zero (suc rounds) (b ∷ bs) result p h hr hm = absurd (omega arith)
  read_chunks-chunks (suc fuel) (suc rounds) (b ∷ bs) result p h hr hm =
      let xs = b ∷ bs in
      let n : ℕ = min c (length xs) in
      let (len, positive, left, upper) = chunk_size c b bs some_room in
      ap (λ bytes. read_chunks (suc rounds) maximum result (reader p bytes))
        (regrouped (universal 4 n) (take n xs) (chunks c fuel (drop n xs)) _)
      ∙ read_chunks_step rounds maximum result (take n xs) n p _ len positive (omega arith)
          (omega arith)
      ∙ read_chunks-chunks fuel rounds (drop n xs) (result ++ take n xs) _ (omega arith)
          (omega arith) (omega (arith, length-append result (take n xs)))
      ∙ landed _ _ rest
          (ap nonempty (
            append_assoc result (take n xs) (drop n xs) ∙ ap (◌++◌ result) (take-append-drop n xs)))
          (omega (
            arith,
            length-append (universal 4 n) (take n xs ++ chunks c fuel (drop n xs)),
            length-append (take n xs) (chunks c fuel (drop n xs)),
          ))

  -- A value longer than the limit is refused at the chunk that would pass it.
  pub read_chunks_over :
      (fuel rounds : ℕ) (xs result : List ℕ) (p : ℕ)
      → length xs ≤ fuel
      → length xs < rounds
      → length result ≤ maximum
      → maximum < length result + length xs
      → read_chunks rounds maximum result (reader p (chunks c fuel xs ++ (universal 4 0 ++ rest)))
        ≡ err limit_exceeded
  unfolding chunks
  read_chunks_over fuel rounds [] result p h hr hm ho = absurd (omega arith)
  read_chunks_over zero rounds (b ∷ bs) result p h hr hm ho = absurd (omega arith)
  read_chunks_over (suc fuel) zero (b ∷ bs) result p h hr hm ho = absurd (omega arith)
  read_chunks_over (suc fuel) (suc rounds) (b ∷ bs) result p h hr hm ho =
      let xs = b ∷ bs in
      let n : ℕ = min c (length xs) in
      let (len, positive, left, upper) = chunk_size c b bs some_room in
      ap (λ bytes. read_chunks (suc rounds) maximum result (reader p bytes))
        (regrouped (universal 4 n) (take n xs) (chunks c fuel (drop n xs)) _)
      ∙ elim (dec_lt (maximum - length result) n) [
        | yes over ↦
            read_chunks_limit rounds maximum result (take n xs) n p _ len positive (omega arith)
              over
        | no fits ↦
            read_chunks_step rounds maximum result (take n xs) n p _ len positive (omega arith)
              (omega arith)
            ∙ read_chunks_over fuel rounds (drop n xs) (result ++ take n xs) _ (omega arith)
                (omega arith) (omega (arith, length-append result (take n xs)))
                (omega (arith, length-append result (take n xs)))
      ]

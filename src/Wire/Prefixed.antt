-- ===== src/Wire/Prefixed.antt =====
-- Byte strings with their length in front, of src/byte_buffer.cpp: the short form of one length byte,
-- the chunked form, and the one wire form of an absent and of an empty value.
use quack_oracle.Base.{
  ℕ, zero, suc, ◌+◌, ◌%◌, min, ◌≤◌, ◌<◌, ◌≡◌, refl, ap, ◌∙◌, List, [], ◌∷◌, ◌++◌, leb, ltb, ◌==◌,
  false, true, Option, none, some, length, append_assoc, arith, ok, err, limit_exceeded,
  length-append, take, drop,
}
use native.Mathlib.Decide.{dec_lt}
use quack_oracle.Wire.Reader.{
  reader, bind-ok, landed, remaining, read_byte, read_raw, read_chunks, read_length_prefixed,
  nonempty, null_length_indicator, long_length_indicator, max_short_length,
}
use quack_oracle.Wire.Writer.{chunk_limit, write_length_prefixed}
use quack_oracle.Wire.Chunks.{
  read_raw-append, chunks, chunk_size, write_chunks-append, read_chunks-chunks, read_chunks_over,
}
use quack_oracle.Wire.Universal.{universal, write_ub4-append}

abbrev pub value_length : Option (List ℕ) → ℕ
value_length none = 0
value_length (some xs) = length xs

-- What a reader sees of a value: an empty one is absent.
abbrev pub seen : Option (List ℕ) → Option (List ℕ)
seen none = none
seen (some xs) = nonempty xs

write_long :
    (w : List ℕ) (b : ℕ) (bs : List ℕ)
    → max_short_length < length (b ∷ bs)
    → write_length_prefixed w (some (b ∷ bs))
      ≡ w ++ long_length_indicator ∷ chunks chunk_limit (length (b ∷ bs)) (b ∷ bs) ++ universal 4 0
unfolding write_length_prefixed
write_long w b bs h =
    let e : leb (length (b ∷ bs)) max_short_length ≡ false = ground arith in
    rw e (
      rw (write_ub4-append _ 0 (omega arith)) (
        rw
          (write_chunks-append chunk_limit (length (b ∷ bs)) (w ++ long_length_indicator ∷ [])
            (b ∷ bs) (omega arith))
          (simp append_assoc)))

write_short :
    (w : List ℕ) (b : ℕ) (bs : List ℕ)
    → length (b ∷ bs) ≤ max_short_length
    → write_length_prefixed w (some (b ∷ bs)) ≡ w ++ length (b ∷ bs) ∷ b ∷ bs
unfolding write_length_prefixed
write_short w b bs h =
    let e : leb (length (b ∷ bs)) max_short_length ≡ true = ground arith in
    let f : length (b ∷ bs) % 256 ≡ length (b ∷ bs) = omega arith in rw (e, f, append_assoc)

read_long :
    (maximum p : ℕ) (bytes : List ℕ)
    → read_length_prefixed maximum (reader p (long_length_indicator ∷ bytes))
      ≡ read_chunks (length bytes + 1) maximum [] (reader (p + 1) bytes)
unfolding read_length_prefixed remaining read_byte
read_long maximum p bytes = refl

module _ (maximum p : ℕ) (xs more : List ℕ) (positive : 0 < length xs)
    (short : length xs ≤ max_short_length) where
  abbrev size : ℕ
  size = length xs

  is_short :
      ((size == 0) ≡ false)
      × ((size == null_length_indicator) ≡ false)
      × ((size == long_length_indicator) ≡ false)
  is_short = ground arith

  read_short :
      size ≤ maximum
      → read_length_prefixed maximum (reader p (size ∷ xs ++ more))
        ≡ ok (some xs, reader (p + 1 + size) more)
  unfolding read_length_prefixed read_byte
  read_short h =
      let f : ltb maximum size ≡ false = ground arith in
      rw (is_short.0, is_short.1, is_short.2, f)
        (bind-ok (read_raw size) _ _ (read_raw-append xs more (p + 1)))

  read_short_over :
      maximum < size
      → read_length_prefixed maximum (reader p (size ∷ xs ++ more)) ≡ err limit_exceeded
  unfolding read_length_prefixed read_byte
  read_short_over h =
      let f : ltb maximum size ≡ true = ground arith in rw (is_short.0, is_short.1, is_short.2, f)

-- The bytes of a long value's chunks are more than those of the value.
length-chunks :
    (c fuel : ℕ) (xs : List ℕ) → 1 ≤ c → length xs ≤ fuel → length xs ≤ length (chunks c fuel xs)
unfolding chunks
length-chunks c zero xs hc h = omega arith
length-chunks c (suc fuel) [] hc h = omega arith
length-chunks c (suc fuel) (b ∷ bs) hc h =
    let n : ℕ = min c (length (b ∷ bs)) in
    let (len, positive, left, upper) = chunk_size c b bs hc in
    omega (
      arith,
      length-append (universal 4 n) (take n (b ∷ bs) ++ chunks c fuel (drop n (b ∷ bs))),
      length-append (take n (b ∷ bs)) (chunks c fuel (drop n (b ∷ bs))),
      length-chunks c fuel (drop n (b ∷ bs)) hc (omega arith),
    )

module _ (b : ℕ) (bs : List ℕ) (maximum p : ℕ) (rest : List ℕ) where
  abbrev value : List ℕ
  value = b ∷ bs

  abbrev body : List ℕ
  body = chunks chunk_limit (length value) value

  enough : length value < length (body ++ (universal 4 0 ++ rest)) + 1
  enough = omega (
    arith,
    length-append body (universal 4 0 ++ rest),
    length-chunks chunk_limit (length value) value (omega arith) (omega arith),
  )

  long_wire :
      max_short_length < length value
      → write_length_prefixed [] (some value) ++ rest
        ≡ long_length_indicator ∷ body ++ (universal 4 0 ++ rest)
  long_wire h =
      rw (write_long [] b bs h)
        (ap (◌∷◌ long_length_indicator) (append_assoc body (universal 4 0) rest))

  long_round :
      max_short_length < length value
      → length value ≤ maximum
      → read_length_prefixed maximum (reader p (write_length_prefixed [] (some value) ++ rest))
        ≡ ok (some value, reader (p + length (write_length_prefixed [] (some value))) rest)
  long_round h hm = rw (long_wire h) (
      read_long maximum p _
      ∙ read_chunks-chunks chunk_limit maximum (omega arith) (omega arith) rest (length value) _
          value [] (p + 1) (omega arith) enough (omega arith)
      ∙ landed _ _ rest refl
          (omega (arith, length-append body (universal 4 0), ap length (write_long [] b bs h))))

  long_over :
      max_short_length < length value
      → maximum < length value
      → read_length_prefixed maximum (reader p (write_length_prefixed [] (some value) ++ rest))
        ≡ err limit_exceeded
  long_over h hm = rw (long_wire h) (
      read_long maximum p _
      ∙ read_chunks_over chunk_limit maximum (omega arith) (omega arith) rest (length value) _ value
          [] (p + 1) (omega arith) enough (omega arith) (omega arith))

  short_wire :
      length value ≤ max_short_length
      → write_length_prefixed [] (some value) ++ rest ≡ length value ∷ value ++ rest
  short_wire h = rw (write_short [] b bs h)

  short_round :
      length value ≤ max_short_length
      → length value ≤ maximum
      → read_length_prefixed maximum (reader p (write_length_prefixed [] (some value) ++ rest))
        ≡ ok (some value, reader (p + length (write_length_prefixed [] (some value))) rest)
  short_round h hm = rw (short_wire h) (
      read_short maximum p value rest (omega arith) h hm
      ∙ landed _ _ rest refl (omega (arith, ap length (write_short [] b bs h))))

  short_over :
      length value ≤ max_short_length
      → maximum < length value
      → read_length_prefixed maximum (reader p (write_length_prefixed [] (some value) ++ rest))
        ≡ err limit_exceeded
  short_over h hm = rw (short_wire h) (read_short_over maximum p value rest (omega arith) h hm)

-- A byte string that is written is read back under any limit that it does not exceed, an empty one as
-- absent, and the reader stands behind it.
pub read-write_length_prefixed :
    (value : Option (List ℕ)) (maximum p : ℕ) (rest : List ℕ)
    → value_length value ≤ maximum
    → read_length_prefixed maximum (reader p (write_length_prefixed [] value ++ rest))
      ≡ ok (seen value, reader (p + length (write_length_prefixed [] value)) rest)
read-write_length_prefixed none maximum p rest h =
    unfold read_length_prefixed read_byte write_length_prefixed in refl
read-write_length_prefixed (some []) maximum p rest h =
    unfold read_length_prefixed read_byte write_length_prefixed in refl
read-write_length_prefixed (some (b ∷ bs)) maximum p rest h =
    elim (dec_lt max_short_length (length (b ∷ bs))) [
      | yes long ↦ long_round b bs maximum p rest long h
      | no short ↦ short_round b bs maximum p rest (omega arith) h
    ]

-- A byte string longer than the reader's limit is refused, in the short form and in chunks.
pub read-write_length_prefixed_over :
    (value : Option (List ℕ)) (maximum p : ℕ) (rest : List ℕ)
    → maximum < value_length value
    → read_length_prefixed maximum (reader p (write_length_prefixed [] value ++ rest))
      ≡ err limit_exceeded
read-write_length_prefixed_over none maximum p rest h = absurd (omega arith)
read-write_length_prefixed_over (some []) maximum p rest h = absurd (omega arith)
read-write_length_prefixed_over (some (b ∷ bs)) maximum p rest h =
    elim (dec_lt max_short_length (length (b ∷ bs))) [
      | yes long ↦ long_over b bs maximum p rest long h
      | no short ↦ short_over b bs maximum p rest (omega arith) h
    ]

-- ===== src/Tns/Delivery.antt =====
-- What src/byte_stream.cpp makes of a stream that loses nothing: a packet arrives whole however its
-- bytes are cut into reads and writes.
use quack_oracle.Base.{
  ℕ, zero, suc, ◌+◌, ◌-◌, ◌≤◌, ◌<◌, ◌≡◌, ◌≢◌, refl, sym, ap, subst, ◌∙◌, false, List, [], ◌∷◌, ◌++◌,
  ltb, ◌==◌, ◌||◌, length, take, drop, arith, ok, append_assoc, append-nil, append_split,
  length-drop, take-append-drop,
}
use quack_oracle.Base.Exec.{Exec, bind-ok}
use quack_oracle.Tns.Stream.{ByteStream, read_exact_loop, read_exact, write_all_loop, write_all}

-- What the source relies on: a read returns at least one and at most as many bytes as it is asked for
-- while some are pending, in their order; a write takes at least one of the bytes that it is given.
pub record Reliable (stream : ByteStream) : Type 0 where
  pub pending : stream.State → List ℕ
  pub sent : stream.State → List ℕ
  pub read_law :
      (n : ℕ) (s : stream.State)
      → 0 < n
      → pending s ≢ []
      → (bytes : List ℕ) × (t : stream.State) × (stream.read n s ≡ (ok bytes, t))
        × (0 < length bytes)
        × (length bytes ≤ n)
        × (pending s ≡ bytes ++ pending t)
        × (sent t ≡ sent s)
  pub write_law :
      (source : List ℕ) (s : stream.State)
      → 0 < length source
      → (count : ℕ) × (t : stream.State) × (stream.write source s ≡ (ok count, t))
        × (0 < count)
        × (count ≤ length source)
        × (sent t ≡ sent s ++ take count source)
        × (pending t ≡ pending s)

module _ (stream : ByteStream) (law : Reliable stream) where
  abbrev pub S : Type 0
  S = stream.State

  abbrev pub Reads : Exec S (List ℕ) → List ℕ → List ℕ → S → Type 0
  Reads m bytes rest s =
      (t : S) × (m s ≡ (ok bytes, t)) × (law.pending t ≡ rest) × (law.sent t ≡ law.sent s)

  -- A round of the loop: the bytes of one read, and those of the rest of the loop behind them.
  read_round :
      (fuel size : ℕ) (got others : List ℕ) (s t u : S)
      → stream.read (suc size) s ≡ (ok got, t)
      → 0 < length got
      → length got ≤ suc size
      → read_exact_loop stream fuel (suc size - length got) t ≡ (ok others, u)
      → read_exact_loop stream (suc fuel) (suc size) s ≡ (ok (got ++ others), u)
  unfolding read_exact_loop
  read_round fuel size got others s t u read positive small run =
      let z : (length got == 0) ≡ false = ground arith in
      let f : ltb (suc size) (length got) ≡ false = ground arith in
      bind-ok (stream.read (suc size)) _ s read
      ∙ rw (z, f) (bind-ok (read_exact_loop stream fuel (suc size - length got)) _ t run)

  read_exact_loop-Reads :
      (fuel : ℕ) (bytes rest : List ℕ) (s : S)
      → length bytes < fuel
      → law.pending s ≡ bytes ++ rest
      → Reads (read_exact_loop stream fuel (length bytes)) bytes rest s
  read_exact_loop-Reads zero bytes rest s h e = absurd (omega arith)
  read_exact_loop-Reads (suc fuel) [] rest s h e = (s, unfold read_exact_loop in refl, e, refl)
  read_exact_loop-Reads (suc fuel) (b ∷ bs) rest s h e =
      let (got, t, read, positive, small, front, same) =
        law.read_law (length (b ∷ bs)) s (omega arith) (λ n. cc) in
      let (whole, left) = append_split got (b ∷ bs) rest (law.pending t) small (sym e ∙ front) in
      let others : List ℕ = drop (length got) (b ∷ bs) in
      let n : length others ≡ suc (length bs) - length got = length-drop (length got) (b ∷ bs) in
      let (u, run, after, kept) =
        read_exact_loop-Reads fuel others rest t (omega arith) (sym left) in
      let run' : read_exact_loop stream fuel (suc (length bs) - length got) t ≡ (ok others, u) =
        subst (λ k. read_exact_loop stream fuel k t ≡ (ok others, u)) n run in
      let round : read_exact_loop stream (suc fuel) (suc (length bs)) s ≡ (ok (got ++ others), u) =
        read_round fuel (length bs) got others s t u read positive small run' in
      (
        u,
        subst (λ xs. read_exact_loop stream (suc fuel) (suc (length bs)) s ≡ (ok xs, u)) whole
            round,
        after,
        kept ∙ same,
      )

  write_all_loop-sent :
      (fuel : ℕ) (source : List ℕ) (s : S)
      → length source < fuel
      → (t : S) × (write_all_loop stream fuel source s ≡ (ok tt, t))
        × (law.sent t ≡ law.sent s ++ source)
        × (law.pending t ≡ law.pending s)
  unfolding write_all_loop
  write_all_loop-sent zero source s h = absurd (omega arith)
  write_all_loop-sent (suc fuel) [] s h = (s, refl, sym (append-nil (law.sent s)), refl)
  write_all_loop-sent (suc fuel) (b ∷ bs) s h =
      let xs = b ∷ bs in
      let (count, t, wrote, positive, small, sent, same) = law.write_law xs s (omega arith) in
      let z : (count == 0 || ltb (length xs) count) ≡ false = ground arith in
      let (u, run, after, kept) =
        write_all_loop-sent fuel (drop count xs) t (omega (arith, length-drop count xs)) in
      (
        u,
        bind-ok (stream.write xs) _ s wrote ∙ rw z run,
        after
            ∙ rw sent (
                append_assoc (law.sent s) (take count xs) (drop count xs)
                ∙ ap (◌++◌ (law.sent s)) (take-append-drop count xs)),
        kept ∙ same,
      )

  -- `ReadExact` and `WriteAll` on a reliable stream, however it cuts the bytes.
  pub read_exact-Reads :
      (bytes rest : List ℕ) (s : S)
      → law.pending s ≡ bytes ++ rest
      → Reads (read_exact stream (length bytes)) bytes rest s
  unfolding read_exact
  read_exact-Reads bytes rest s e =
      read_exact_loop-Reads (length bytes + 1) bytes rest s (omega arith) e

  pub write_all-sent :
      (source : List ℕ) (s : S)
      → (t : S) × (write_all stream source s ≡ (ok tt, t))
        × (law.sent t ≡ law.sent s ++ source)
        × (law.pending t ≡ law.pending s)
  unfolding write_all
  write_all-sent source s = write_all_loop-sent (length source + 1) source s (omega arith)

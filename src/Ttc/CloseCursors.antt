-- ===== src/Ttc/CloseCursors.antt =====
-- The CLOSE_CURSORS piggyback of src/ttc_piggyback.cpp, read back.
use quack_oracle.Base.{
  ℕ, zero, suc, ◌+◌, ◌<◌, ◌%◌, ◌^◌, ◌≡◌, refl, ap, ◌∙◌, List, [], ◌∷◌, ◌++◌, Bool-cases, ◌==◌, inl,
  inr, All, append_assoc, append-nil, length, length-append, ok, arith,
}
use quack_oracle.Wire.Reader.{reader, Read, ◌>>=◌, pure, read_ub4, bind-ok, landed}
use quack_oracle.Wire.Writer.{ByteWriter, write_byte, write_ub4}
use quack_oracle.Wire.Universal.{universal, write_ub4-append, read_ub4-universal}
use quack_oracle.Ttc.Piggyback.{write_cursor_ids, piggyback_header, encode_close_cursors}

-- The ids as another reader of the format takes them: a count, then that many integers.
unfoldable pub read_ids : ℕ → Read (List ℕ)
read_ids zero = pure []
read_ids (suc left) = do id ← read_ub4; ids ← read_ids left; pure (id ∷ ids)

unfoldable pub read_close_cursors : Read (List ℕ)
read_close_cursors = do count ← read_ub4; read_ids count

abbrev pub IsCursor : ℕ → Type 0
IsCursor id = (0 < id) × (id < 2 ^ 32)

unfoldable ids_bytes : List ℕ → List ℕ
ids_bytes [] = []
ids_bytes (id ∷ ids) = universal 4 id ++ ids_bytes ids

write_cursor_ids-append :
    (w : ByteWriter) (ids : List ℕ)
    → All IsCursor ids
    → write_cursor_ids w ids ≡ ok (w ++ ids_bytes ids)
unfolding write_cursor_ids ids_bytes
write_cursor_ids-append w [] h = rw append-nil refl
write_cursor_ids-append w (id ∷ ids) ((p, b), h) = elim (Bool-cases (id == 0)) [
  | inl e ↦ absurd (ground (arith, e, p))
  | inr e ↦ rw e (
      write_cursor_ids-append (write_ub4 w id) ids h
      ∙ rw (write_ub4-append w id b, append_assoc) refl)
]

read_ids-bytes :
    (p : ℕ) (ids : List ℕ)
    → All IsCursor ids
    → read_ids (length ids) (reader p (ids_bytes ids))
      ≡ ok (ids, reader (p + length (ids_bytes ids)) [])
unfolding read_ids ids_bytes
read_ids-bytes p [] h = landed _ _ _ refl (omega arith)
read_ids-bytes p (id ∷ ids) ((q, b), h) =
    bind-ok read_ub4 _ _ (read_ub4-universal id p (ids_bytes ids) b)
    ∙ bind-ok (read_ids (length ids)) _ _ (read_ids-bytes (p + length (universal 4 id)) ids h)
    ∙ landed _ _ _ refl (omega (arith, length-append (universal 4 id) (ids_bytes ids)))

-- A request to close any cursors, between 1 and 2^32 - 1 of them, none of them 0, is encoded, and
-- behind its codes, its sequence and its pointer the same cursors are read in the same order, with no
-- byte left.
pub read-encode_close_cursors :
    (sequence first : ℕ) (ids : List ℕ)
    → All IsCursor (first ∷ ids)
    → length (first ∷ ids) < 2 ^ 32
    → (body : List ℕ) × (encode_close_cursors sequence (first ∷ ids)
        ≡ ok (17 ∷ 105 ∷ sequence % 256 ∷ 1 ∷ body))
      × (read_close_cursors (reader 4 body) ≡ ok (first ∷ ids, reader (4 + length body) []))
unfolding encode_close_cursors piggyback_header write_byte read_close_cursors
read-encode_close_cursors sequence first ids h n =
    let all = first ∷ ids in
    let body = universal 4 (length all) ++ ids_bytes all in
    let head = 17 ∷ 105 ∷ sequence % 256 ∷ 1 ∷ [] in
    let small : length all % 2 ^ 32 ≡ length all = omega arith in
    let counted : write_ub4 head (length all % 2 ^ 32) ≡ head ++ universal 4 (length all) =
      rw small (write_ub4-append head (length all) n) in
    (
      body,
      ap (λ w. write_cursor_ids w all) counted
          ∙ write_cursor_ids-append (head ++ universal 4 (length all)) all h,
      bind-ok read_ub4 _ _ (read_ub4-universal (length all) 4 (ids_bytes all) n)
          ∙ read_ids-bytes (4 + length (universal 4 (length all))) all h
          ∙ landed _ _ _ refl
              (omega (arith, length-append (universal 4 (length all)) (ids_bytes all))),
    )

-- ===== src/Statements/Cursors.antt =====
-- The server cursors of src/statement_registry.cpp: binding one and asking for it.
use quack_oracle.Base.{
  ℕ, ◌≡◌, ◌≢◌, sym, ◌∙◌, true, some, List, [], ◌∷◌, ◌==◌, arith, Option-cases, inl, inr,
  if◌then◌else◌, ok,
}
use quack_oracle.Base.Assoc.{Map, find, assign, find-assign}
use quack_oracle.Statements.{
  StatementRecord, StatementRegistry, uses_cursor, require_open, bind_remote_cursor,
  try_remote_cursor_id, remote_cursor_id_of, Call, run,
}
use quack_oracle.Statements.Invariant.{CursorsDistinct, Inv, run-Inv}

uses_cursor-find :
    (b : ℕ) (m : Map StatementRecord) (f : StatementRecord)
    → find b m ≡ some f
    → uses_cursor f.remote_cursor_id m ≡ true
unfolding find uses_cursor
uses_cursor-find b [] f e = cc
uses_cursor-find b ((j, w) ∷ m) f e = ground (arith, uses_cursor-find b m f)

find_unique :
    (a b : ℕ) (m : Map StatementRecord) (f g : StatementRecord)
    → CursorsDistinct m
    → find a m ≡ some f
    → find b m ≡ some g
    → f.remote_cursor_id ≡ g.remote_cursor_id
    → f.remote_cursor_id ≢ 0
    → a ≡ b
unfolding find
find_unique a b [] f g d ea eb same nz = cc
find_unique a b ((j, w) ∷ m) f g d ea eb same nz =
    ground (arith, find_unique a b m f g d.1, uses_cursor-find a m f, uses_cursor-find b m g)

found_cursor :
    (handle cursor : ℕ) (r : StatementRegistry)
    → try_remote_cursor_id handle r ≡ some cursor
    → (f : StatementRecord) × (find handle r.statements ≡ some f)
      × (f.remote_cursor_id ≡ cursor)
      × (cursor ≢ 0)
unfolding try_remote_cursor_id
found_cursor handle cursor r e = elim (Option-cases (find handle r.statements)) [
  | inl n ↦ absurd (ground arith)
  | inr (f, n) ↦ (f, n, ground arith, ground arith)
]

-- After any calls no server cursor is bound to two statements.
pub run-cursor_unique :
    (r : StatementRegistry) (cs : List Call) (a b cursor : ℕ)
    → Inv r
    → try_remote_cursor_id a (run r cs) ≡ some cursor
    → try_remote_cursor_id b (run r cs) ≡ some cursor
    → a ≡ b
run-cursor_unique r cs a b cursor v ea eb =
    let (f, fa, ca, nz) = found_cursor a cursor (run r cs) ea in
    let (g, fb, cb, nz') = found_cursor b cursor (run r cs) eb in
    find_unique a b (run r cs).statements f g (run-Inv r cs v).cursors fa fb (ca ∙ sym cb)
      (λ z. nz (sym ca ∙ z))

bound_record :
    (r q : StatementRegistry) (handle cursor : ℕ)
    → bind_remote_cursor handle cursor r ≡ (ok tt, q)
    → (f : StatementRecord) × (find handle r.statements ≡ some f)
      × (handle ≢ 0)
      × (cursor ≢ 0)
      × (q ≡ record r {
        statements = assign handle (record f { remote_cursor_id = cursor }) r.statements;
      })
unfolding bind_remote_cursor require_open
bound_record r q handle cursor e = elim (Option-cases (find handle r.statements)) [
  | inl n ↦ absurd (ground arith)
  | inr (f, n) ↦ (f, n, ground arith, ground arith, ground arith)
]

-- A cursor that was bound is the one that the handle has, and no other handle's cursor changes.
pub remote_cursor-bind :
    (r q : StatementRegistry) (handle cursor other : ℕ)
    → bind_remote_cursor handle cursor r ≡ (ok tt, q)
    → (remote_cursor_id_of handle q ≡ ok cursor)
      × (try_remote_cursor_id other q
          ≡ (if handle == other then some cursor else try_remote_cursor_id other r))
unfolding remote_cursor_id_of try_remote_cursor_id
remote_cursor-bind r q handle cursor other e =
    let (f, n, nh, nc, made) = bound_record r q handle cursor e in
    let law =
      λ (j : ℕ). find-assign handle j (record f { remote_cursor_id = cursor }) f r.statements n in
    rw made (ground (arith, law handle), ground (arith, law other))

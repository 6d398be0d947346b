-- ===== src/Statements/Invariant.antt =====
-- What holds of the registry of src/statement_registry.cpp after any calls: ids are fresh, distinct and
-- not 0, statements stay within the limit, and no server cursor belongs to two statements.
use quack_oracle.Base.{
  ℕ, ◌≤◌, ◌≡◌, ◌≢◌, refl, false, none, some, List, [], ◌∷◌, length, arith, inl, inr, ◌⊎◌, ok,
}
use quack_oracle.Base.Assoc.{
  Map, find, emplace, assign, erase, Falling, find-above, find-assign_missing, find-erase,
  erase-Falling, assign-Falling, length-assign, length-erase,
}
use quack_oracle.Statements.{
  OracleStatementState, closed, StatementRecord, StatementRegistry, u32_max, fresh_record,
  uses_cursor, new_registry, Call, step, run,
}
use quack_oracle.Statements.Lifecycle.{
  Allowed, runs_with_rows, runs_without_rows, fetches_first, fetches_more, ends_unfetched,
  ends_fetched, breaks, Change, same, opened, moved, bound, removed, cleared, step-Change,
}

-- No cursor but 0 stands in two entries.
abbrev pub CursorsDistinct : Map StatementRecord → Type 0
CursorsDistinct [] = Unit
CursorsDistinct ((handle, found) ∷ m) =
    ((found.remote_cursor_id ≡ 0) ⊎ (uses_cursor found.remote_cursor_id m ≡ false))
    × CursorsDistinct m

-- CLOSED is what `State` says of a handle with no entry; no entry has it.
abbrev pub NoneClosed : Map StatementRecord → Type 0
NoneClosed [] = Unit
NoneClosed ((handle, found) ∷ m) = (found.state ≢ closed) × NoneClosed m

pub record Inv (r : StatementRegistry) : Type 0 where
  pub keys : Falling r.next_statement_id r.statements
  pub named : find 0 r.statements ≡ none
  pub bounded : length r.statements ≤ r.maximum_open_statements
  pub first : 1 ≤ r.next_statement_id
  pub last : r.next_statement_id ≤ u32_max
  pub cursors : CursorsDistinct r.statements
  pub live : NoneClosed r.statements

module _ (handle : ℕ) (found changed : StatementRecord) where
  uses_cursor-assign :
      (k : ℕ) (m : Map StatementRecord)
      → find handle m ≡ some found
      → (changed.remote_cursor_id ≡ found.remote_cursor_id) ⊎ (changed.remote_cursor_id ≢ k)
      → uses_cursor k m ≡ false
      → uses_cursor k (assign handle changed m) ≡ false
  unfolding find assign uses_cursor
  uses_cursor-assign k [] e h u = refl
  uses_cursor-assign k ((j, w) ∷ m) e h u = ground (arith, uses_cursor-assign k m)

  -- A write that keeps the cursor, or sets one that no entry has.
  assign-CursorsDistinct :
      (m : Map StatementRecord)
      → find handle m ≡ some found
      → (changed.remote_cursor_id ≡ found.remote_cursor_id)
        ⊎ ((changed.remote_cursor_id ≢ 0) × (uses_cursor changed.remote_cursor_id m ≡ false))
      → CursorsDistinct m
      → CursorsDistinct (assign handle changed m)
  unfolding find assign uses_cursor
  assign-CursorsDistinct [] e h d = tt
  assign-CursorsDistinct ((j, w) ∷ m) e h d =
      ground (arith, assign-CursorsDistinct m, uses_cursor-assign w.remote_cursor_id m)

uses_cursor-erase :
    (handle k : ℕ) (m : Map StatementRecord)
    → uses_cursor k m ≡ false
    → uses_cursor k (erase handle m) ≡ false
unfolding erase uses_cursor
uses_cursor-erase handle k [] u = refl
uses_cursor-erase handle k ((j, w) ∷ m) u = ground (arith, uses_cursor-erase handle k m)

erase-CursorsDistinct :
    (handle : ℕ) (m : Map StatementRecord) → CursorsDistinct m → CursorsDistinct (erase handle m)
unfolding erase
erase-CursorsDistinct handle [] d = tt
erase-CursorsDistinct handle ((j, w) ∷ m) d =
    ground
      (arith, erase-CursorsDistinct handle m d.1, uses_cursor-erase handle w.remote_cursor_id m)

pub find-NoneClosed :
    (k : ℕ) (m : Map StatementRecord) (f : StatementRecord)
    → find k m ≡ some f
    → NoneClosed m
    → f.state ≢ closed
unfolding find
find-NoneClosed k [] f e d = cc
find-NoneClosed k ((j, w) ∷ m) f e d = ground (arith, find-NoneClosed k m f)

assign-NoneClosed :
    (k : ℕ) (f : StatementRecord) (m : Map StatementRecord)
    → f.state ≢ closed
    → NoneClosed m
    → NoneClosed (assign k f m)
unfolding assign
assign-NoneClosed k f [] h d = tt
assign-NoneClosed k f ((j, w) ∷ m) h d = ground (arith, assign-NoneClosed k f m)

erase-NoneClosed : (k : ℕ) (m : Map StatementRecord) → NoneClosed m → NoneClosed (erase k m)
unfolding erase
erase-NoneClosed k [] d = tt
erase-NoneClosed k ((j, w) ∷ m) d = ground (arith, erase-NoneClosed k m)

Allowed-ne-closed : {s t : OracleStatementState} → Allowed s t → t ≢ closed
Allowed-ne-closed runs_with_rows e = cc
Allowed-ne-closed runs_without_rows e = cc
Allowed-ne-closed fetches_first e = cc
Allowed-ne-closed fetches_more e = cc
Allowed-ne-closed ends_unfetched e = cc
Allowed-ne-closed ends_fetched e = cc
Allowed-ne-closed (breaks s) e = cc

pub emplace-fresh :
    (n : ℕ) (m : Map StatementRecord)
    → Falling n m
    → emplace n fresh_record m ≡ (n, fresh_record) ∷ m
unfolding emplace
emplace-fresh n m f = rw (find-above n n m f (omega arith), emplace)

Change-Inv : {r q : StatementRegistry} → Change r q → Inv r → Inv q
Change-Inv same v = v
Change-Inv {r} (opened positive below room) v = record {
  keys = rw (emplace-fresh r.next_statement_id r.statements v.keys) (omega arith, v.keys);
  named =
      rw (emplace-fresh r.next_statement_id r.statements v.keys)
        (unfold find in ground (arith, v.named));
  bounded = rw (emplace-fresh r.next_statement_id r.statements v.keys) (omega (arith, v.bounded));
  first = omega arith;
  last = omega (arith, v.last);
  cursors = rw (emplace-fresh r.next_statement_id r.statements v.keys) (inl refl, v.cursors);
  live = rw (emplace-fresh r.next_statement_id r.statements v.keys) ((λ e. cc), v.live);
}
Change-Inv {r} (moved handle found s e a) v = record {
  keys = assign-Falling handle r.next_statement_id _ r.statements v.keys;
  named = find-assign_missing handle 0 _ r.statements v.named;
  bounded = rw (length-assign handle (record found { state = s }) r.statements) v.bounded;
  first = v.first;
  last = v.last;
  cursors = assign-CursorsDistinct handle found _ r.statements e (inl refl) v.cursors;
  live = assign-NoneClosed handle _ r.statements (Allowed-ne-closed a) v.live;
}
Change-Inv {r} (bound handle found cursor e z nz unused) v = record {
  keys = assign-Falling handle r.next_statement_id _ r.statements v.keys;
  named = find-assign_missing handle 0 _ r.statements v.named;
  bounded =
      rw (length-assign handle (record found { remote_cursor_id = cursor }) r.statements) v.bounded;
  first = v.first;
  last = v.last;
  cursors = assign-CursorsDistinct handle found _ r.statements e (inr (nz, unused)) v.cursors;
  live =
      assign-NoneClosed handle _ r.statements (find-NoneClosed handle r.statements found e v.live)
        v.live;
}
Change-Inv {r} (removed handle found e) v = record {
  keys = erase-Falling handle r.next_statement_id r.statements v.keys;
  named = ground (arith, find-erase handle 0 r.next_statement_id r.statements v.keys, v.named);
  bounded = omega (arith, v.bounded, length-erase handle r.statements found e);
  first = v.first;
  last = v.last;
  cursors = erase-CursorsDistinct handle r.statements v.cursors;
  live = erase-NoneClosed handle r.statements v.live;
}
Change-Inv cleared v = record {
  keys = tt;
  named = unfold find in refl;
  bounded = omega arith;
  first = v.first;
  last = v.last;
  cursors = tt;
  live = tt;
}

pub step-Inv : (r : StatementRegistry) (c : Call) → Inv r → Inv (step r c)
step-Inv r c = Change-Inv (step-Change r c)

-- Any calls keep the ids of the open statements distinct, not 0 and below the next one, their number
-- within the limit, and every server cursor with one statement at most.
pub run-Inv : (r : StatementRegistry) (cs : List Call) → Inv r → Inv (run r cs)
unfolding run
run-Inv r [] v = v
run-Inv r (c ∷ cs) v = run-Inv (step r c) cs (step-Inv r c v)

-- A registry that is constructed has the invariant.
pub new_registry-Inv : (maximum : ℕ) (r : StatementRegistry) → new_registry maximum ≡ ok r → Inv r
unfolding new_registry find
new_registry-Inv maximum r e = ground arith

-- ===== src/Binds.antt =====
-- src/bind_validation.cpp: the names and the sizes of the values that a statement is given. A text is
-- its bytes, and the tests of <cctype> are those of the C locale.
pub mod Placeholders
pub mod Order
pub mod Statements
pub mod Extracted
pub mod Matched
pub mod Budget
pub mod InOrder
mod Tests
use quack_oracle.Base.{
  ℕ, ◌+◌, ◌-◌, ◌*◌, ◌^◌, Bool, true, false, not, ◌&&◌, ◌||◌, Option, none, some, List, [], ◌∷◌, ltb,
  leb, ◌==◌, if◌then◌else◌, length, map, Result, ok, err, throw_if, ◌>>=◌, ◌>>◌, malformed,
  limit_exceeded,
}
use quack_oracle.Sql.Keyword.{is_alpha, to_upper, same}

pub data BindDirection : Type 0 where
  bind_in bind_out bind_in_out : BindDirection

pub data OracleBindUse : Type 0 where
  for_query for_dml for_call : OracleBindUse

pub record OracleBind : Type 0 where
  pub name : List ℕ
  pub oracle_type : ℕ
  pub direction : BindDirection
  pub content : Option (List ℕ)
  pub maximum_bytes : ℕ
  pub character_set_form : ℕ
  pub lob_content : ℕ

abbrev pub max_bind_count : ℕ
max_bind_count = 65535

abbrev pub max_bind_value_bytes : ℕ
max_bind_value_bytes = 16 * 2 ^ 20

abbrev pub temp_lob_threshold_bytes : ℕ
temp_lob_threshold_bytes = 8 * 2 ^ 20

abbrev pub temp_lob_maximum_bytes : ℕ
temp_lob_maximum_bytes = 2 ^ 30

abbrev pub is_digit : ℕ → Bool
is_digit c = leb 48 c && leb c 57

abbrev pub is_identifier_start : ℕ → Bool
is_identifier_start c = is_alpha c || c == 95

abbrev pub is_identifier_part : ℕ → Bool
is_identifier_part c = is_alpha c || is_digit c || c == 95 || c == 36 || c == 35

-- `std::all_of`
unfoldable pub all_of : (ℕ → Bool) → List ℕ → Bool
all_of test [] = true
all_of test (c ∷ cs) = test c && all_of test cs

abbrev pub begins_zero : List ℕ → Bool
begins_zero [] = false
begins_zero (c ∷ cs) = c == 48

-- An unquoted identifier.
unfoldable pub is_identifier : List ℕ → Bool
is_identifier [] = false
is_identifier (c ∷ cs) = is_identifier_start c && all_of is_identifier_part cs

-- A number without a leading zero, or an identifier, of at most 128 bytes.
unfoldable pub is_bind_name : List ℕ → Bool
unfolding is_identifier
is_bind_name name =
    not (length name == 0)
    && not (ltb 128 (length name))
    && (if all_of is_digit name
        then not (ltb 1 (length name) && begins_zero name)
        else is_identifier name)

-- `CanonicalOracleBindName`
unfoldable pub canonical_bind_name : List ℕ → Result (List ℕ)
canonical_bind_name name = if is_bind_name name then ok (map to_upper name) else err malformed

abbrev pub is_call : OracleBindUse → Bool
is_call for_call = true
is_call _ = false

abbrev pub is_in : BindDirection → Bool
is_in bind_in = true
is_in _ = false

-- The total with a value of that size.
unfoldable pub add_value : ℕ → ℕ → Result ℕ
add_value size total =
    if ltb max_bind_value_bytes size || ltb (max_bind_value_bytes - size) total
    then err limit_exceeded
    else ok (total + size)

-- The content of a LOB counts where it is sent as an ordinary value.
unfoldable pub add_lob : ℕ → ℕ → Result ℕ
unfolding add_value
add_lob size total =
    if ltb temp_lob_maximum_bytes size
    then err limit_exceeded
    else if ltb temp_lob_threshold_bytes size
    then ok total
    else add_value size total

unfoldable pub add_content : OracleBind → ℕ → Result ℕ
add_content bind total = elim bind.content [
  | none ↦ ok total
  | some value ↦
      if bind.lob_content == 0 then add_value (length value) total else add_lob (length value) total
]

-- `ValidateOracleBindValue`, which returns the new total.
unfoldable pub validate_bind_value : OracleBind → OracleBindUse → ℕ → Result ℕ
validate_bind_value bind use_of total = do
  throw_if (not (is_call use_of) && not (is_in bind.direction)) malformed
  throw_if (is_call use_of && not (is_in bind.direction) && bind.oracle_type == 0) malformed
  throw_if (ltb max_bind_value_bytes bind.maximum_bytes) limit_exceeded
  add_content bind total

-- Membership in a set of names.
unfoldable pub has_name : List ℕ → List (List ℕ) → Bool
has_name name [] = false
has_name name (n ∷ names) = same name n || has_name name names

-- The loop of `ValidateOracleBinds`, with the names seen and the total so far.
unfoldable pub validate_each : List OracleBind → OracleBindUse → List (List ℕ) → ℕ → Result ℕ
validate_each [] use_of names total = ok total
validate_each (bind ∷ binds) use_of names total = do
  name ← canonical_bind_name bind.name
  throw_if (has_name name names) malformed
  total' ← validate_bind_value bind use_of total
  validate_each binds use_of (name ∷ names) total'

-- `ValidateOracleBinds`
unfoldable pub validate_oracle_binds : List OracleBind → OracleBindUse → Result (Unit {0})
validate_oracle_binds binds use_of = do
  throw_if (ltb max_bind_count (length binds)) limit_exceeded
  _ ← validate_each binds use_of [] 0
  ok tt

abbrev pub same_direction : BindDirection → BindDirection → Bool
same_direction bind_in bind_in = true
same_direction bind_out bind_out = true
same_direction bind_in_out bind_in_out = true
same_direction _ _ = false

-- A name spelled the same, or else one that folds to the same.
unfoldable pub matches_name : List ℕ → List ℕ → Result Bool
matches_name actual expected =
    if same actual expected
    then ok true
    else (canonical_bind_name actual >>= λ a. canonical_bind_name expected >>= λ b. ok (same a b))

-- The loop of `ValidateOracleBatchRow`; the counts are the same.
unfoldable pub validate_row : List OracleBind → List OracleBind → ℕ → Result (Unit {0})
validate_row (expected ∷ first) (actual ∷ row) total = do
  same_name ← matches_name actual.name expected.name
  throw_if
      (not same_name
        || not (actual.oracle_type == expected.oracle_type)
        || not (same_direction actual.direction expected.direction))
      malformed
  total' ← validate_bind_value actual for_dml total
  validate_row first row total'
validate_row _ _ total = ok tt

-- `ValidateOracleBatchRow`
unfoldable pub validate_batch_row : List OracleBind → List OracleBind → Result (Unit {0})
validate_batch_row first row = do
  throw_if (not (length row == length first)) malformed
  validate_row first row 0

unfoldable pub validate_rows : List OracleBind → List (List OracleBind) → Result (Unit {0})
validate_rows first [] = ok tt
validate_rows first (row ∷ rows) = do validate_batch_row first row; validate_rows first rows

-- `ValidateOracleBindBatch`
unfoldable pub validate_bind_batch : List (List OracleBind) → Result (Unit {0})
validate_bind_batch [] = err malformed
validate_bind_batch (first ∷ rows) = do
  throw_if (ltb max_bind_count (length (first ∷ rows))) limit_exceeded
  validate_oracle_binds first for_dml
  validate_rows first rows

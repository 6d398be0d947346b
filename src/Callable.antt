-- ===== src/Callable.antt =====
-- src/call_builder.cpp: the name of a stored procedure or function, and the block that calls it. A text
-- is its bytes; an offset into the name is the text from there on.
pub mod Components
mod Tests
use quack_oracle.Base.{
  ℕ, zero, suc, ◌+◌, Bool, true, false, not, ◌&&◌, ◌||◌, List, [], ◌∷◌, ◌++◌, ltb, ◌==◌,
  if◌then◌else◌, length, map, Result, ok, err, stuck, throw_if, ◌>>=◌, ◌>>◌, malformed,
  limit_exceeded,
}
use quack_oracle.Sql.Keyword.{to_upper}
use quack_oracle.Binds.{
  OracleBind, BindDirection, bind_in, bind_out, bind_in_out, is_identifier, is_in,
  is_identifier_start, is_identifier_part, canonical_bind_name, has_name,
}
use quack_oracle.Binds.Placeholders.{take_name, drop_name}

abbrev pub quote : ℕ
quote = 34

abbrev pub dot : ℕ
dot = 46

abbrev pub max_callable_components : ℕ
max_callable_components = 3

abbrev pub max_identifier_bytes : ℕ
max_identifier_bytes = 128

abbrev pub max_arguments : ℕ
max_arguments = 256

-- A component's text, and what is behind it.
abbrev pub Component : Type 0
Component = List ℕ × List ℕ

abbrev pub behind : List ℕ → Result Component → Result Component
behind text r = r >>= λ p. ok (text ++ p.0, p.1)

-- The loop of a quoted component behind its quote, at its first character or a later one.
unfoldable pub quoted_component : Bool → List ℕ → Result Component
quoted_component first [] = err malformed
quoted_component first (c ∷ []) =
    if c == quote then (if first then err malformed else ok (c ∷ [], [])) else err malformed
quoted_component first (c ∷ d ∷ rest) = elim (c == quote) [
  | true ↦ elim (d == quote) [
    | true ↦ behind (c ∷ d ∷ []) (quoted_component false rest)
    | false ↦ if first then err malformed else ok (c ∷ [], d ∷ rest)
  ]
  | false ↦ elim (ltb c 32 || c == 127) [
    | true ↦ err malformed
    | false ↦ behind (c ∷ []) (quoted_component false (d ∷ rest))
  ]
]

-- A component without the check of its size.
unfoldable pub any_component : List ℕ → Result Component
any_component [] = err malformed
any_component (c ∷ rest) = elim (c == quote) [
  | true ↦ behind (c ∷ []) (quoted_component true rest)
  | false ↦ if is_identifier_start c then ok (c ∷ take_name rest, drop_name rest) else err malformed
]

unfoldable pub parse_component : List ℕ → Result Component
parse_component value = do
  component ← any_component value
  throw_if (ltb max_identifier_bytes (length component.0)) limit_exceeded
  ok component

-- The separator behind a component, and the text behind it. At the end of the text there is none.
unfoldable pub skip_separator : List ℕ → Result (List ℕ)
skip_separator [] = ok []
skip_separator (c ∷ rest) = if c == dot then ok rest else err malformed

-- The loop of `ParseOracleCallableName` with the components so far. A fourth one throws.
unfoldable pub parse_loop : ℕ → ℕ → List ℕ → Result (Unit {0})
parse_loop zero components rest = stuck
parse_loop (suc fuel) components [] = ok tt
parse_loop (suc fuel) components (c ∷ rest) = do
  component ← parse_component (c ∷ rest)
  throw_if (ltb max_callable_components (components + 1)) limit_exceeded
  left ← skip_separator component.1
  parse_loop fuel (components + 1) left

unfoldable pub parse_oracle_callable_name : List ℕ → Result (List ℕ)
parse_oracle_callable_name value = do
  throw_if (length value == 0) malformed
  parse_loop (max_callable_components + 1) 0 value
  ok value

-- The text between the quotes, with a doubled quote for one.
unfoldable pub unquoted : List ℕ → List ℕ
unquoted [] = []
unquoted (c ∷ []) = []
unquoted (c ∷ d ∷ rest) = elim (c == quote) [
  | true ↦ c ∷ unquoted rest
  | false ↦ c ∷ unquoted (d ∷ rest)
]

-- The name that the server stores.
unfoldable pub stored_name : List ℕ → List ℕ
stored_name [] = []
stored_name (c ∷ rest) = if c == quote then unquoted rest else map to_upper (c ∷ rest)

-- The loop of `SplitOracleCallableName` with the components so far.
unfoldable pub split_loop : ℕ → List (List ℕ) → List ℕ → Result (List (List ℕ))
split_loop zero components rest = stuck
split_loop (suc fuel) components [] = ok components
split_loop (suc fuel) components (c ∷ rest) = do
  component ← parse_component (c ∷ rest)
  throw_if (length components == max_callable_components) limit_exceeded
  left ← skip_separator component.1
  split_loop fuel (components ++ stored_name component.0 ∷ []) left

unfoldable pub split_oracle_callable_name : List ℕ → Result (List (List ℕ))
split_oracle_callable_name value = do
  throw_if (length value == 0) malformed
  split_loop (max_callable_components + 1) [] value

-- `ValidateCallableArgumentName`
unfoldable pub validate_callable_argument_name : List ℕ → Result (Unit {0})
validate_callable_argument_name name =
    throw_if (ltb max_identifier_bytes (length name) || not (is_identifier name)) malformed

-- `NAME => :NAME`
abbrev pub named_argument : List ℕ → List ℕ
named_argument name = name ++ (32 ∷ 61 ∷ 62 ∷ 32 ∷ 58 ∷ []) ++ name

-- The loop over the arguments, with the names so far and whether it is at the first.
unfoldable pub argument_list : Bool → List (List ℕ) → List OracleBind → Result (List ℕ)
argument_list first names [] = ok []
argument_list first names (bind ∷ binds) = do
  validate_callable_argument_name bind.name
  folded ← canonical_bind_name bind.name
  throw_if (has_name folded names) malformed
  rest ← argument_list false (folded ∷ names) binds
  ok ((if first then [] else 44 ∷ 32 ∷ []) ++ named_argument bind.name ++ rest)

-- The arguments of a call, after the names that are taken.
abbrev pub in_brackets : List (List ℕ) → List OracleBind → Result (List ℕ)
in_brackets names [] = ok []
in_brackets names (bind ∷ binds) =
    argument_list true names (bind ∷ binds) >>= λ text. ok ((40 ∷ []) ++ text ++ 41 ∷ [])

abbrev pub begin_text : List ℕ
begin_text = 66 ∷ 69 ∷ 71 ∷ 73 ∷ 78 ∷ 32 ∷ []

abbrev pub end_text : List ℕ
end_text = 59 ∷ 32 ∷ 69 ∷ 78 ∷ 68 ∷ 59 ∷ []

-- `BEGIN name(A => :A, ...); END;`
unfoldable pub build_oracle_procedure_call_block : List ℕ → List OracleBind → Result (List ℕ)
build_oracle_procedure_call_block qualified_name arguments = do
  callable ← parse_oracle_callable_name qualified_name
  throw_if (ltb max_arguments (length arguments)) limit_exceeded
  text ← in_brackets [] arguments
  ok (begin_text ++ callable ++ text ++ end_text)

-- `BEGIN :R := name(A => :A, ...); END;`
unfoldable pub build_oracle_function_call_block :
    List ℕ → OracleBind → List OracleBind → Result (List ℕ)
build_oracle_function_call_block qualified_name return_bind arguments = do
  callable ← parse_oracle_callable_name qualified_name
  throw_if (is_in return_bind.direction) malformed
  throw_if (ltb max_arguments (length arguments)) limit_exceeded
  validate_callable_argument_name return_bind.name
  folded ← canonical_bind_name return_bind.name
  text ← in_brackets (folded ∷ []) arguments
  ok (
      begin_text
      ++ (58 ∷ [])
      ++ return_bind.name
      ++ (32 ∷ 58 ∷ 61 ∷ 32 ∷ [])
      ++ callable
      ++ text
      ++ end_text)

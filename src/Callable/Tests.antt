-- ===== src/Callable/Tests.antt =====
-- Callable names and the blocks that call them.
use quack_oracle.Base.{
  ℕ, List, [], ◌∷◌, none, ◌≡◌, refl, ok, err, malformed, limit_exceeded, Ends, ◌>>=◌,
}
use quack_oracle.Binds.{
  OracleBind, bind_in, bind_out, all_of, is_identifier, is_bind_name, canonical_bind_name, has_name,
}
use quack_oracle.Binds.Placeholders.{take_name, drop_name}
use quack_oracle.Sql.Keyword.{same}
use quack_oracle.Callable.{
  quoted_component, any_component, parse_component, skip_separator, parse_loop,
  parse_oracle_callable_name, unquoted, stored_name, split_loop, split_oracle_callable_name,
  validate_callable_argument_name, argument_list, build_oracle_procedure_call_block,
  build_oracle_function_call_block,
}
use quack_oracle.Callable.Components.{Few, parse-split}

open_callable : ℕ
unfolding all_of is_identifier is_bind_name canonical_bind_name has_name take_name drop_name same
    quoted_component any_component parse_component skip_separator parse_loop
    parse_oracle_callable_name unquoted stored_name split_loop split_oracle_callable_name
    validate_callable_argument_name argument_list build_oracle_procedure_call_block
    build_oracle_function_call_block
open_callable = 0

-- app."a""b"
abbrev two_parts : List ℕ
two_parts = 97 ∷ 112 ∷ 112 ∷ 46 ∷ 34 ∷ 97 ∷ 34 ∷ 34 ∷ 98 ∷ 34 ∷ []

split : split_oracle_callable_name two_parts ≡ ok ((65 ∷ 80 ∷ 80 ∷ []) ∷ (97 ∷ 34 ∷ 98 ∷ []) ∷ [])
unfolding open_callable
split = refl

parse-split_example :
    (parse_oracle_callable_name two_parts
      ≡ (split_oracle_callable_name two_parts >>= λ components. ok two_parts))
    × Ends Few (split_oracle_callable_name two_parts)
parse-split_example = parse-split two_parts

-- A separator behind the last component is accepted.
trailing_separator : parse_oracle_callable_name (97 ∷ 46 ∷ []) ≡ ok (97 ∷ 46 ∷ [])
unfolding open_callable
trailing_separator = refl

four_parts : parse_oracle_callable_name (97 ∷ 46 ∷ 97 ∷ 46 ∷ 97 ∷ 46 ∷ 97 ∷ []) ≡ err limit_exceeded
unfolding open_callable
four_parts = refl

unterminated : parse_oracle_callable_name (34 ∷ 97 ∷ []) ≡ err malformed
unfolding open_callable
unterminated = refl

abbrev argument : OracleBind
argument = record {
  name = 120 ∷ [];
  oracle_type = 1;
  direction = bind_in;
  content = none;
  maximum_bytes = 1;
  character_set_form = 1;
  lob_content = 0;
}

-- BEGIN a(x => :x); END;
procedure_block :
    build_oracle_procedure_call_block (97 ∷ []) (argument ∷ [])
    ≡ ok (
        66 ∷ 69 ∷ 71 ∷ 73 ∷ 78 ∷ 32 ∷ 97 ∷ 40 ∷ 120 ∷ 32 ∷ 61 ∷ 62 ∷ 32 ∷ 58 ∷ 120 ∷ 41 ∷ 59 ∷ 32
        ∷ 69 ∷ 78 ∷ 68 ∷ 59 ∷ [])
unfolding open_callable
procedure_block = refl

twice : build_oracle_procedure_call_block (97 ∷ []) (argument ∷ argument ∷ []) ≡ err malformed
unfolding open_callable
twice = refl

-- The return bind has the argument's name.
shared_name :
    build_oracle_function_call_block
      (97 ∷ [])
      (record argument { direction = bind_out; name = 88 ∷ [] })
      (argument ∷ [])
    ≡ err malformed
unfolding open_callable
shared_name = refl

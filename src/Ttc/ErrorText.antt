-- ===== src/Ttc/ErrorText.antt =====
-- src/ttc_error.cpp, `ParseTtcServerError`: the printable text of an error message and the ORA code in
-- it. A code is at most 99999, so that its 32 bits do not wrap.
use quack_oracle.Base.{
  ℕ, zero, suc, ◌+◌, ◌-◌, ◌*◌, Bool, true, false, ◌&&◌, Option, none, some, List, [], ◌∷◌, leb,
  ◌==◌, if◌then◌else◌, Result, ok, err, malformed,
}
use quack_oracle.Ttc.ErrorInfo.{is_error_message}

abbrev pub max_printed : ℕ
max_printed = 512

-- `0x20 <= character <= 0x7e`
abbrev pub is_printable : ℕ → Bool
is_printable c = leb 32 c && leb c 126

-- The loop of `PrintableProjection`, with the characters that still fit: a run of others becomes one
-- space, and none stands in front.
unfoldable pub project : ℕ → Bool → List ℕ → List ℕ
project zero previous_space cs = []
project (suc room) previous_space [] = []
project (suc room) previous_space (c ∷ cs) =
    let printed = project room false cs in
    let spaced = project room true cs in
    let skipped = project (suc room) true cs in
    if is_printable c then c ∷ printed else if previous_space then skipped else 32 ∷ spaced

-- `while (!output.empty() && output.back() == ' ') output.pop_back();`
unfoldable pub without_spaces : List ℕ → List ℕ
without_spaces [] = []
without_spaces (c ∷ cs) = elim (without_spaces cs) [
  | [] ↦ if c == 32 then [] else c ∷ []
  | d ∷ ds ↦ c ∷ d ∷ ds
]

-- The message from its second byte.
unfoldable pub printable_projection : List ℕ → List ℕ
unfolding project without_spaces
printable_projection [] = []
printable_projection (b ∷ bs) = without_spaces (project max_printed true bs)

abbrev pub is_digit : ℕ → Bool
is_digit c = leb 48 c && leb c 57

-- The digits of a code, from the first.
unfoldable pub code_digits : ℕ → ℕ → List ℕ → Option ℕ
code_digits zero value cs = some value
code_digits (suc left) value [] = none
code_digits (suc left) value (c ∷ cs) =
    let rest = code_digits left (value * 10 + (c - 48)) cs in if is_digit c then rest else none

-- "ORA-" and five digits.
unfoldable pub code_here : List ℕ → Option ℕ
unfolding code_digits
code_here (a ∷ b ∷ c ∷ d ∷ cs) =
    if a == 79 && b == 82 && c == 65 && d == 45 then code_digits 5 0 cs else none
code_here _ = none

-- `FindOraCode`: the first code, with the text from it on.
unfoldable pub find_ora_code : List ℕ → Option (ℕ × List ℕ)
unfolding code_here
find_ora_code [] = none
find_ora_code (c ∷ cs) = elim (code_here (c ∷ cs)) [
  | some code ↦ some (code, c ∷ cs)
  | none ↦ find_ora_code cs
]

-- A message that is `none` is the standing text for an error without a code.
pub record OracleServerError : Type 0 where
  pub ora_code : Option ℕ
  pub message : Option (List ℕ)

abbrev pub server_error : Option (ℕ × List ℕ) → OracleServerError
server_error none = record { ora_code = none; message = none }
server_error (some (code, text)) = record { ora_code = some code; message = some text }

-- `ParseTtcServerError`
unfoldable pub parse_server_error : List ℕ → Result OracleServerError
unfolding find_ora_code printable_projection
parse_server_error message =
    if is_error_message message
    then ok (server_error (find_ora_code (printable_projection message)))
    else err malformed

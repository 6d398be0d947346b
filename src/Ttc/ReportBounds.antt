-- ===== src/Ttc/ReportBounds.antt =====
-- The reports that src/ttc_piggyback.cpp skips, on any input, and the loop of src/ttc_channel.cpp that
-- skips them.
use quack_oracle.Base.{
  Ends, returns, throws, ℕ, zero, suc, ◌+◌, ◌≤◌, ◌<◌, ◌≡◌, ◌≢◌, refl, ap, false, not, Bool-cases,
  List, [], ◌∷◌, ltb, ◌==◌, if◌then◌else◌, drop, length, length-drop, Result, ok, err, stuck, inl,
  inr, arith, limit_exceeded, unsupported,
}
use quack_oracle.Base.Results
use quack_oracle.Wire.Reader.{ByteReader, reader, ◌>>=◌, pure, read_byte, read_length_prefixed}
use quack_oracle.Wire.Progress.{Anything, Ended, returned, threw}
use quack_oracle.Wire.Safe.{
  Safe, Safe-bind, Safe-then, Safe-pure, Safe-throw_if, Safe-position, Safe-byte, Safe-ub2,
  Safe-ub4, Safe-prefixed,
}
use quack_oracle.Ttc.Report.{
  skip_present, skip_entries, session_return_report, session_report, session_return, max_elements,
  max_value_bytes, value_of, skipped_bytes, skip_server_piggyback,
}
use quack_oracle.Ttc.Requests.{skip_reports, begins_report}

module _ {low high : ℕ} where
  Safe-some_present :
      (size : ℕ)
      → Safe low high Anything
          (if size == 0 then pure tt else (do _ ← read_length_prefixed max_value_bytes; pure tt))
  Safe-some_present size = elim (Bool-cases (size == 0)) [
    | inl e ↦ rw e (Safe-pure tt)
    | inr e ↦ rw e (Safe-bind (Safe-prefixed max_value_bytes) (λ _ _. Safe-pure tt))
  ]

  Safe-present : Safe low high Anything skip_present
  unfolding skip_present
  Safe-present = Safe-bind Safe-ub2 (λ size _. Safe-some_present size)

  Safe-entries : (left : ℕ) → Safe low high Anything (skip_entries left)
  unfolding skip_entries
  Safe-entries zero = Safe-pure tt
  Safe-entries (suc left) =
      Safe-then Safe-present
        (Safe-then Safe-present (Safe-bind Safe-ub2 (λ _ _. Safe-entries left)))

  Safe-session_return : Safe low high (λ n. (low ≤ n) × (n ≤ high)) session_return_report
  unfolding session_return_report
  Safe-session_return = Safe-bind Safe-byte λ opcode _.
      Safe-then (Safe-throw_if (not (opcode == session_return)) unsupported) (
        Safe-bind Safe-ub2 λ _ _. Safe-bind Safe-byte λ _ _. Safe-bind Safe-ub2 λ elements _.
          Safe-then (Safe-throw_if (ltb max_elements elements) limit_exceeded) (
            Safe-bind Safe-byte λ _ _. Safe-then (Safe-entries elements) (
              Safe-bind Safe-ub4 λ change _.
                Safe-then (Safe-throw_if (not (change == 0)) unsupported)
                  (Safe-position (λ n. n) (λ n l u. (l, u))))))

value_of-Ends :
    {Q : ℕ → Type 0} {r : ByteReader} (x : Result (ℕ × ByteReader))
    → Ended 0 Q r x
    → Ends Q (value_of x)
value_of-Ends (ok (a, s)) (returned q b) = returns q
value_of-Ends (err e) threw = throws
value_of-Ends stuck e = elim e [ ]

-- On any bytes the skipping of a report ends: it throws, or the report has at least one byte and no
-- more than there are.
pub skipped_bytes-Ends :
    (bytes : List ℕ) → Ends (λ n. (1 ≤ n) × (n ≤ length bytes)) (skipped_bytes bytes)
unfolding skipped_bytes session_report read_byte
skipped_bytes-Ends [] = throws
skipped_bytes-Ends (b ∷ bs) = elim (Bool-cases (b == 23)) [
  | inl e ↦ rw e (value_of-Ends _ (Safe-session_return (reader 1 bs) (omega arith) (omega arith)))
  | inr e ↦ rw e throws
]

plus_zero : (x : Result ℕ) → Results.◌>>=◌ x (λ n. ok (0 + n)) ≡ x
plus_zero (ok n) = ap ok (omega arith)
plus_zero (err e) = refl
plus_zero stuck = refl

skip_server_piggyback-start :
    (response : List ℕ) → skip_server_piggyback response 0 ≡ skipped_bytes response
unfolding skip_server_piggyback
skip_server_piggyback-start response =
    let e : ltb (length response) 0 ≡ false = ground arith in
    rw e (plus_zero (skipped_bytes response))

-- The loop that skips the reports before an answer ends within one round more than there are bytes.
pub skip_reports_ends :
    (fuel : ℕ) (response : List ℕ) → length response < fuel → skip_reports fuel response ≢ stuck
unfolding skip_reports
skip_reports_ends zero response h = absurd (omega arith)
skip_reports_ends (suc fuel) response h = elim (Bool-cases (begins_report response)) [
  | inr e ↦ ground (arith, e)
  | inl e ↦
      rw (e, skip_server_piggyback-start response)
        (skipping (skipped_bytes response) (skipped_bytes-Ends response) (λ n l.
          skip_reports_ends fuel (drop n response) (omega (arith, length-drop n response, h, l))))
]
  where
    skipping :
        (x : Result ℕ)
        → Ends (λ n. (1 ≤ n) × (n ≤ length response)) x
        → ((n : ℕ) → (1 ≤ n) × (n ≤ length response) → skip_reports fuel (drop n response) ≢ stuck)
        → Results.◌>>=◌ x (λ after. skip_reports fuel (drop after response)) ≢ stuck
    skipping (ok n) (returns q) k = k n q
    skipping (err x) throws k = ground arith
    skipping stuck o k = elim o [ ]

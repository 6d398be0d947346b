-- ===== src/Ttc/Requests.antt =====
-- src/ttc_channel.cpp: the calls that the channel makes itself, Ping, Commit and Rollback.
use quack_oracle.Base.{
  ℕ, zero, suc, ◌+◌, Bool, false, List, [], ◌∷◌, ◌==◌, if◌then◌else◌, length, drop, Result, ok, err,
  stuck, invalid_state,
}
use quack_oracle.Base.Exec.{Exec, ◌>>=◌, ◌>>◌, pure, lift}
use quack_oracle.Base.Results
use quack_oracle.Ttc.Report.{message_server_piggyback, skip_server_piggyback}
use quack_oracle.Ttc.Acknowledgement.{
  TtcTransactionStatus, encode_transaction, decode_transaction_status, message_function,
}
use quack_oracle.Ttc.ErrorInfo.{TtcErrorInfo, decode_error_prefix, is_error_message}
use quack_oracle.Ttc.Channel.{PacketStream, TtcChannel, function_ping, send}
use quack_oracle.Ttc.Receiving.{receive}

-- The error that a response reports, which is thrown.
abbrev pub reported : TtcErrorInfo → Result (Unit {0})
reported info = if info.error_number == 0 then ok tt else err invalid_state

-- `if (IsTtcErrorMessage(response)) ...`
unfoldable pub check_error : ℕ → List ℕ → Result (Unit {0})
check_error server_version response =
    if is_error_message response
    then Results.◌>>=◌ (decode_error_prefix response server_version) reported
    else ok tt

unfoldable pub transaction_status : ℕ → List ℕ → Result TtcTransactionStatus
unfolding check_error
transaction_status server_version response =
    Results.◌>>=◌ (check_error server_version response) (λ _. decode_transaction_status response)

abbrev pub begins_report : List ℕ → Bool
begins_report [] = false
begins_report (b ∷ bs) = b == message_server_piggyback

-- `while (!response.empty() && response.front() == ...)`: a report takes a byte at least, so that one
-- round a byte is enough.
unfoldable pub skip_reports : ℕ → List ℕ → Result (List ℕ)
skip_reports zero response = stuck
skip_reports (suc fuel) response =
    if begins_report response
    then Results.◌>>=◌ (skip_server_piggyback response 0)
        (λ after. skip_reports fuel (drop after response))
    else ok response

module _ (stream : PacketStream) where
  -- `Commit` and `Rollback`, by their function code, and `Ping`.
  unfoldable pub call_transaction :
      ℕ → ℕ → ℕ → ℕ → Exec (TtcChannel stream.State) TtcTransactionStatus
  call_transaction fuel code sequence server_version = do
    send stream (encode_transaction code sequence)
    response ← receive stream fuel
    lift (transaction_status server_version response)

  unfoldable pub ping : ℕ → ℕ → ℕ → Exec (TtcChannel stream.State) (Unit {0})
  ping fuel sequence server_version = do
    send stream (message_function ∷ function_ping ∷ sequence ∷ [])
    response ← receive stream fuel
    answer ← lift (skip_reports (length response + 1) response)
    _ ← lift (transaction_status server_version answer)
    pure tt

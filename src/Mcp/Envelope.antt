-- ===== src/Mcp/Envelope.antt =====
-- `MapErrorCodeToExitCode` and `ExitCode` of internal/mcp/envelope.go. The warning for an unknown
-- code, and the payloads, are not modelled.
pub mod ExitCode
use workspace_cli.Prelude.{
  Bool, Option, String, if◌then◌else◌, none, some, str_eq, ℕ, ◌||◌, false, true,
}

-- `Envelope`: the flag ok, and the code of its error block, if it has one.
pub record EnvelopeReply : Type 0 where
  pub ok : Bool
  pub error_code : Option String

unfoldable pub map_error_code : String → ℕ
map_error_code code =
    if str_eq code "VALIDATION_FAILED"
    then 1
    else if str_eq code "BUDGET_EXCEEDED"
    then 2
    else if str_eq code "VISIBILITY_LEAK"
    then 3
    else if str_eq code "MISSING_DEPENDENCY"
        || str_eq code "AUTH_FAILED"
        || str_eq code "RATE_LIMITED"
    then 4
    else if str_eq code "NOT_IMPLEMENTED"
    then 5
    else if str_eq code "DEDUP_BLOCKED"
    then 6
    else if str_eq code "AGENT_TOOL_NOT_BOUND"
    then 7
    else 1

-- By the flag ok and the code of the error block.
unfoldable pub code_of : Bool → Option String → ℕ
code_of true none = 0
code_of false none = map_error_code "VALIDATION_FAILED"
code_of ok (some code) = map_error_code code

-- none for a nil envelope.
unfoldable pub exit_code : Option EnvelopeReply → ℕ
unfolding code_of
exit_code none = 1
exit_code (some r) = code_of r.ok r.error_code

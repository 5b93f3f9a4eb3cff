-- ===== src/Tests/Mcp.antt =====
-- Replies of the vault server, and the theorem of internal/mcp at one.
use workspace_cli.Mcp.Envelope.{EnvelopeReply, code_of, exit_code, map_error_code}
use workspace_cli.Mcp.Envelope.ExitCode.{Success, exit_code-Success}
use workspace_cli.Prelude.{Option, false, refl, some, ◌↔◌, ◌≡◌, ◌≤◌}

abbrev empty_code : Option EnvelopeReply
empty_code = some (record { ok = false; error_code = some "" })

abbrev blocked : Option EnvelopeReply
blocked = some (record { ok = false; error_code = some "DEDUP_BLOCKED" })

empty_code_fails : exit_code empty_code ≡ 1
unfolding exit_code code_of map_error_code
empty_code_fails = refl

exit_code-Success_example : ((exit_code blocked ≡ 0) ↔ Success blocked) × (exit_code blocked ≤ 7)
exit_code-Success_example = exit_code-Success blocked

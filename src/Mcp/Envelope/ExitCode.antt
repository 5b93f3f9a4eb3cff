-- ===== src/Mcp/Envelope/ExitCode.antt =====
-- The exit code of an envelope.
use workspace_cli.Mcp.Envelope.{exit_code, map_error_code, EnvelopeReply, code_of}
use workspace_cli.Prelude.{
  Bool, Option, String, arith, false, if_intro, none, some, str_eq, true, ℕ, ◌||◌, ◌↔◌, ◌≡◌, ◌≤◌,
  false≢true, refl,
}

abbrev InTable : ℕ → Type 0
InTable n = 1 ≤ n × n ≤ 7

map_error_code-InTable : (code : String) → InTable (map_error_code code)
unfolding map_error_code
map_error_code-InTable code =
    if_intro InTable (str_eq code "VALIDATION_FAILED") _ _ (λ _. (omega arith, omega arith))
      λ _.
        if_intro InTable (str_eq code "BUDGET_EXCEEDED") _ _ (λ _. (omega arith, omega arith))
          λ _.
            if_intro InTable (str_eq code "VISIBILITY_LEAK") _ _ (λ _. (omega arith, omega arith))
              λ _.
                if_intro InTable
                  (str_eq code "MISSING_DEPENDENCY"
                    || str_eq code "AUTH_FAILED"
                    || str_eq code "RATE_LIMITED")
                  _ _ (λ _. (omega arith, omega arith))
                  λ _.
                    if_intro InTable (str_eq code "NOT_IMPLEMENTED") _ _
                      (λ _. (omega arith, omega arith))
                      λ _.
                        if_intro InTable (str_eq code "DEDUP_BLOCKED") _ _
                          (λ _. (omega arith, omega arith))
                          λ _.
                            if_intro InTable (str_eq code "AGENT_TOOL_NOT_BOUND") _ _
                              (λ _. (omega arith, omega arith)) (λ _. (omega arith, omega arith))

-- An envelope that says ok and has no error block.
abbrev pub Success : Option EnvelopeReply → Type 0
Success none = ⊥
Success (some r) = (r.ok ≡ true) × (r.error_code ≡ none)

code_of-Success :
    (ok : Bool) (o : Option String)
    → ((code_of ok o ≡ 0) ↔ ((ok ≡ true) × (o ≡ none))) × (code_of ok o ≤ 7)
unfolding code_of
code_of-Success true none = (((λ h. (refl, refl)), λ h. refl), omega arith)
code_of-Success false none =
    let (low, high) = map_error_code-InTable "VALIDATION_FAILED" in
    (((λ h. absurd (omega arith)), λ (a, b). absurd (false≢true a)), high)
code_of-Success true (some code) =
    let (low, high) = map_error_code-InTable code in
    (((λ h. absurd (omega arith)), λ (a, b). absurd cc), high)
code_of-Success false (some code) =
    let (low, high) = map_error_code-InTable code in
    (((λ h. absurd (omega arith)), λ (a, b). absurd cc), high)

-- The exit code is 0 exactly for an envelope that says ok and has no error block (a nil envelope, a
-- failure with no block and an unknown or empty code are failures), and it is at most 7.
pub exit_code-Success :
    (r : Option EnvelopeReply) → ((exit_code r ≡ 0) ↔ Success r) × (exit_code r ≤ 7)
unfolding exit_code
exit_code-Success none = (((λ h. absurd (omega arith)), λ h. absurd h), omega arith)
exit_code-Success (some r) = code_of-Success r.ok r.error_code

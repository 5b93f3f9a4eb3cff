-- ===== src/Lib.antt =====
-- A verification library for `ws`, the workspace manager: its presentation layer, its proxy profiles,
-- its proxy container, its name rules and its exit codes.
--
-- The program. `cmd` holds the commands; they read and write the proxy profiles (internal/xray), which
-- are made from share URIs (internal/hysteria2, internal/vless), run the proxy in a container
-- (internal/docker), talk to the vault server (internal/mcp) and print through internal/output. A
-- profile is a file <name>.json; a symbolic link leads to the active one, and the container reads it.
-- A switch of the profile tests the new one, swaps the link and restarts the container; a recreate
-- replaces the container by a new one and keeps the old one until the new one is found healthy.
--
-- The files.
--   Prelude               the shared names: Boolean tests and conditionals (Tests), lists measured by
--                         native numbers (Lists), Go strings as lists of bytes (Strings)
--   Output.Text           internal/output/text.go and glyph.go: W is `width`, expandTabs `expand_tabs`,
--                         Sanitise `sanitise`, truncate `truncate`, Pad `pad`. A text is a list of
--                         grapheme clusters with their widths.
--   Output.Wrap           Wrap of internal/output/text.go
--   Output.State          internal/output/state.go
--   Output.Alloc          Allocate of internal/output/alloc.go, with a module for each of its steps:
--                         Drop (2), Shrink (3), Relax (4), Result (5), and validateCols in Validate
--   Output.Run            the step runner of internal/output/run.go: the owner (run, runTask), the watcher
--                         (watch, interrupt), drain, enqueue and the ticker, as steps that interleave
--   Output.Log            a task's log, internal/output/log.go: its reads, lines and tail
--   Output.Quote          ShellQuote of internal/output/shellword.go
--   Docker.Client         the container engine as internal/docker/client.go uses it, a parameter: a
--                         world, and one function for each call. Documented holds what the theorems
--                         assume of it, HasClock what they assume of the clock.
--   Docker.Health         verifyHealthy of internal/docker/recreate_tx.go
--   Docker.Routes         ProxyFixRoutes of internal/docker/docker.go
--   Docker.Diagnose       parseDefaultRouteVia, DefaultRouteOf and classifyRouteProtection of
--                         internal/docker/diagnose.go
--   Docker.Create         proxyCreatePreflight and proxyCreateAndStart
--   Docker.Rollback       rollbackToBackup and criticalRollback of internal/docker/recreate_tx.go
--   Docker.Recreate       proxyRecreate, verifyNew and triageStaleBackup
--   Docker.Safety         the specification of the transaction, and its theorems
--   Docker.Lifecycle      ProxyUp, ProxyDown and ProxyRestart of internal/docker/docker.go
--   Docker.Check          ProxyCheck
--   Xray.Name             ValidateProfileName, and the name that a link's target stands for
--   Xray.Store            the files: what stands at the config's path, and the profiles by name
--   Xray.Active           ReadActiveProfileName, CheckRemovable and RemoveProfile
--   Xray.Migrate          MigrateLegacy and EnsureMigrated
--   Xray.Switch           SwitchTo, SwitchToSymlinkOnly and switchProblem
--   Xray.Commit           writeProfileValidated
--   Xray.Preserve         applyOwnedKeys and RegenerateProfile
--   Xray.Repair           RepairConfig of internal/xray/repair.go
--   Xrayconf              the types of internal/xrayconf/config.go, AssembleConfig, JSON values (Values),
--                         and numbers read as float64 (Decoded)
--   Vless                 GenerateConfig of internal/vless/config.go
--   Hysteria.Outbound     GenerateConfig of internal/hysteria2/config.go
--   NameRules             ValidateName of internal/workspace/validate.go and
--                         internal/profile/validate.go
--   Mcp.Envelope          MapErrorCodeToExitCode and ExitCode of internal/mcp/envelope.go
--   Hysteria.Hop          portNum and hopBasePort of internal/hysteria2/parser.go
--   Hysteria.Strip        stripPortHopping
--   Hysteria.Pin          NormalizePinSHA256 of internal/hysteria2/pin.go
--   Tests                 runs on concrete inputs, and the theorems at these
--
-- How the code is read. A function that makes calls is a chain of functions: what follows a call is a
-- function of its reply, by clauses, with the early returns as the clauses that stop. A call of the
-- engine may fail, and may have taken effect when it is reported as failed. A system call on files that
-- can fail for a reason outside the store is an input, a flag that says whether it works. Errors are
-- constructors; their wording, and warnings, are not modelled. Integers are the native numbers: the
-- code's are widths, counts and ports, far below the machine's bounds. A subtraction of the model stops
-- at 0; the code's goes below 0 in one place, a column's slack in Allocate, and is then left out, as a
-- slack of 0 is.
--
-- Fuel. The polling loop of verifyHealthy counts time in polling intervals and takes the timeout plus
-- one as its fuel, a round for each interval and one more. The loops of relax take the excess over the
-- budget and the number of columns, and those of Drop the number of columns: each round
-- takes one off. All else is structural recursion.
--
-- Not modelled: the commands of `cmd`, drawing and prompts, child processes, HTTP and
-- probes; file modes, and what a crash between two calls leaves behind; the container's configuration,
-- which is one request to the engine; the segmentation of text into clusters and the table of widths,
-- which are another package's; url.Parse and what follows it in the URI parsers; the upgrade and the
-- display of profiles.
pub mod Prelude
pub mod Output
mod Tests
pub mod Docker
pub mod Xray
pub mod Hysteria
pub mod Mcp
pub mod Xrayconf
pub mod Vless
pub mod NameRules

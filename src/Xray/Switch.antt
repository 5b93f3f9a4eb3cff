-- ===== src/Xray/Switch.antt =====
-- `SwitchTo`, `SwitchToSymlinkOnly` and `switchProblem` of internal/xray/switch.go. The bind check,
-- `xray -test`, the restart and the wait are Docker's: each is an input, with its outcome.
pub mod Outcomes
pub mod NoReload
use workspace_cli.Prelude.{
  Bool, Bytes, Option, false, if◌then◌else◌, is_empty, none, not, some, true,
}
use workspace_cli.Xray.Active.{name_or_empty, read_active_profile_name}
use workspace_cli.Xray.Name.{NameError, relative_target, validate_profile_name}
use workspace_cli.Xray.Store.{Node, Store, atomic_symlink, file, link, other}

-- `bindMountIsWholeDirFn`; an error is let pass.
pub data Bind : Type 0 where
  whole_dir legacy unknown : Bind

pub record Steps : Type 0 where
  pub bind : Bind
  -- `xray run -test` accepts the profile
  pub validates : Bool
  -- the temporary link, and its rename
  pub symlink : Bool
  pub swap : Bool
  pub restarts : Bool
  pub lives : Bool

pub data Step : Type 0 where
  validate_step swap_step restart_step wait_step : Step

-- `output.Problem`, but its title and its cause. The remedy that is always there, to look at the
-- logs, is left out.
pub record Problem : Type 0 where
  -- the fact "Previous"
  pub previous : Option Bytes
  -- the fact "Active", not rolled back
  pub active_now : Option Bytes
  -- the step "Restore previous": ws proxy profile use <name>
  pub restore : Option Bytes

pub data SwitchReply : Type 0 where
  switched : SwitchReply
  bad_switch : NameError → SwitchReply
  legacy_bind no_profile : SwitchReply
  step_failed : Step → Problem → SwitchReply

unfoldable pub non_empty : Bytes → Option Bytes
non_empty name = if is_empty name then none else some name

unfoldable pub switch_problem : Bytes → Bytes → Bool → Problem
unfolding non_empty
switch_problem name previous true = record {
  previous = non_empty previous;
  active_now = some name;
  restore = non_empty previous;
}
switch_problem name previous false = record {
  previous = non_empty previous;
  active_now = none;
  restore = none;
}

-- `os.Stat` follows a link.
unfoldable pub stat_profile : (Bytes → Bool) → Option Node → Bool
stat_profile resolves none = false
stat_profile resolves (some (file c)) = true
stat_profile resolves (some other) = true
stat_profile resolves (some (link target)) = resolves target

-- The steps behind the swap.
unfoldable pub after_swap : Steps → Bytes → Bytes → Store → SwitchReply × Store
after_swap f name previous s =
    if not f.restarts
    then (step_failed restart_step (switch_problem name previous true), s)
    else if not f.lives
    then (step_failed wait_step (switch_problem name previous true), s)
    else (switched, s)

unfoldable pub run_steps : Steps → Bytes → Bytes → Store → SwitchReply × Store
unfolding after_swap
run_steps f name previous s =
    let (ok, s') = atomic_symlink f.symlink f.swap (relative_target name) s in
    if not f.validates
    then (step_failed validate_step (switch_problem name previous false), s)
    else if ok
    then after_swap f name previous s'
    else (step_failed swap_step (switch_problem name previous false), s')

unfoldable pub check_profile : Steps → Bytes → Bytes → Store → SwitchReply × Store
unfolding run_steps
check_profile f name previous s =
    let run = run_steps f name previous s in
    if stat_profile s.resolves (s.profiles name) then run else (no_profile, s)

unfoldable pub check_bind : Bind → Steps → Bytes → Bytes → Store → SwitchReply × Store
unfolding check_profile
check_bind legacy f name previous s = (legacy_bind, s)
check_bind whole_dir f name previous s = check_profile f name previous s
check_bind unknown f name previous s = check_profile f name previous s

unfoldable pub switch_named : Option NameError → Steps → Bytes → Bytes → Store → SwitchReply × Store
unfolding check_bind
switch_named (some x) f name previous s = (bad_switch x, s)
switch_named none f name previous s = check_bind f.bind f name previous s

-- `lstats` and `readable`: the calls of ReadActiveProfileName work.
unfoldable pub switch_to : Bool → Bool → Steps → Bytes → Store → SwitchReply × Store
unfolding switch_named
switch_to lstats readable f name s =
    switch_named (validate_profile_name name) f name
      (name_or_empty (read_active_profile_name lstats readable s)) s

-- The replies of SwitchToSymlinkOnly.
pub data LinkReply : Type 0 where
  linked : LinkReply
  bad_link : NameError → LinkReply
  legacy_link no_file not_accepted link_not_made : LinkReply

unfoldable pub link_steps : Steps → Bytes → Store → LinkReply × Store
link_steps f name s =
    let (ok, s') = atomic_symlink f.symlink f.swap (relative_target name) s in
    if not f.validates then (not_accepted, s) else if ok then (linked, s') else (link_not_made, s')

unfoldable pub link_profile : Steps → Bytes → Store → LinkReply × Store
unfolding link_steps
link_profile f name s =
    let run = link_steps f name s in
    if stat_profile s.resolves (s.profiles name) then run else (no_file, s)

unfoldable pub link_bind : Bind → Steps → Bytes → Store → LinkReply × Store
unfolding link_profile
link_bind legacy f name s = (legacy_link, s)
link_bind whole_dir f name s = link_profile f name s
link_bind unknown f name s = link_profile f name s

unfoldable pub link_named : Option NameError → Steps → Bytes → Store → LinkReply × Store
unfolding link_bind
link_named (some x) f name s = (bad_link x, s)
link_named none f name s = link_bind f.bind f name s

unfoldable pub switch_to_symlink_only : Steps → Bytes → Store → LinkReply × Store
unfolding link_named
switch_to_symlink_only f name s = link_named (validate_profile_name name) f name s

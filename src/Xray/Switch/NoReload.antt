-- ===== src/Xray/Switch/NoReload.antt =====
-- `SwitchToSymlinkOnly` beside `SwitchTo`.
-- The replies that the two operations share, and what is behind the swap.
use workspace_cli.Prelude.{
  Bool, Bytes, Option, false, if_intro, if◌then◌else◌, none, not, refl, some, true, ◌≡◌,
}
use workspace_cli.Xray.Name.{NameError, relative_target, validate_profile_name}
use workspace_cli.Xray.Store.{Store, atomic_symlink}
use workspace_cli.Xray.Switch.{
  Bind, LinkReply, Steps, SwitchReply, after_swap, bad_link, bad_switch, check_bind, check_profile,
  legacy, legacy_bind, legacy_link, link_bind, link_named, link_not_made, link_profile, link_steps,
  linked, no_file, no_profile, not_accepted, restart_step, run_steps, stat_profile, step_failed,
  swap_step, switch_named, switch_problem, switch_to, switch_to_symlink_only, switched, unknown,
  validate_step, wait_step, whole_dir,
}

abbrev pub Matches : LinkReply → SwitchReply → Type 0
Matches linked switched = Unit
Matches linked (step_failed restart_step p) = Unit
Matches linked (step_failed wait_step p) = Unit
Matches (bad_link x) (bad_switch y) = x ≡ y
Matches legacy_link legacy_bind = Unit
Matches no_file no_profile = Unit
Matches not_accepted (step_failed validate_step p) = Unit
Matches link_not_made (step_failed swap_step p) = Unit
Matches a b = ⊥

abbrev Agree : LinkReply × Store → SwitchReply × Store → Type 0
Agree x y = (x.1 ≡ y.1) × Matches x.0 y.0

after_swap-Agree :
    (f : Steps) (name previous : Bytes) (s : Store)
    → Agree (linked, s) (after_swap f name previous s)
unfolding after_swap
after_swap-Agree f name previous s =
    if_intro (Agree (linked, s)) (not f.restarts) _ _ (λ _. (refl, tt))
      λ _. if_intro (Agree (linked, s)) (not f.lives) _ _ (λ _. (refl, tt)) (λ _. (refl, tt))

-- One test on both sides.
both_if :
    (b : Bool) (x x' : LinkReply × Store) (y y' : SwitchReply × Store)
    → Agree x y
    → Agree x' y'
    → Agree (if b then x else x') (if b then y else y')
both_if true x x' y y' h k = h
both_if false x x' y y' h k = k

link_steps-Agree :
    (f : Steps) (name previous : Bytes) (s : Store)
    → Agree (link_steps f name s) (run_steps f name previous s)
unfolding link_steps run_steps
link_steps-Agree f name previous s =
    let (ok, s') = atomic_symlink f.symlink f.swap (relative_target name) s in
    both_if (not f.validates) _ _ _ _ (refl, tt)
      (both_if ok (linked, s') (link_not_made, s') (after_swap f name previous s')
        (step_failed swap_step (switch_problem name previous false), s')
        (after_swap-Agree f name previous s') (refl, tt))

link_profile-Agree :
    (f : Steps) (name previous : Bytes) (s : Store)
    → Agree (link_profile f name s) (check_profile f name previous s)
unfolding link_profile check_profile
link_profile-Agree f name previous s =
    both_if (stat_profile s.resolves (s.profiles name)) (link_steps f name s) _
      (run_steps f name previous s) _ (link_steps-Agree f name previous s) (refl, tt)

link_bind-Agree :
    (b : Bind) (f : Steps) (name previous : Bytes) (s : Store)
    → Agree (link_bind b f name s) (check_bind b f name previous s)
unfolding link_bind check_bind
link_bind-Agree legacy f name previous s = (refl, tt)
link_bind-Agree whole_dir f name previous s = link_profile-Agree f name previous s
link_bind-Agree unknown f name previous s = link_profile-Agree f name previous s

link_named-Agree :
    (o : Option NameError) (f : Steps) (name previous : Bytes) (s : Store)
    → Agree (link_named o f name s) (switch_named o f name previous s)
unfolding link_named switch_named
link_named-Agree (some x) f name previous s = (refl, refl)
link_named-Agree none f name previous s = link_bind-Agree f.bind f name previous s

-- On the same files and with the same outcomes of the shared steps, the switch without a reload
-- leaves the files exactly as the full switch does, and is refused or fails where the full switch
-- is refused or fails up to the swap; where it succeeds, the full switch has made its swap.
pub switch_to_symlink_only-Matches :
    (lstats readable : Bool) (f : Steps) (name : Bytes) (s : Store)
    → let x = switch_to_symlink_only f name s in
      let y = switch_to lstats readable f name s in (x.1 ≡ y.1) × Matches x.0 y.0
unfolding switch_to_symlink_only switch_to
switch_to_symlink_only-Matches a b f name s =
    link_named-Agree (validate_profile_name name) f name _ s

-- ===== src/Xray/Switch/Outcomes.antt =====
-- The outcomes of `SwitchTo`.
-- The link leads to the profile, which was there, under a valid name, and passed `xray -test`;
-- no profile changed.
use workspace_cli.Prelude.{
  Bool, Bytes, Option, ap, false, if_intro, if◌then◌else◌, none, not, not-false, refl, some, true,
  ◌&&◌, ◌≡◌,
}
use workspace_cli.Xray.Active.{active, active_of, name_or_empty, read_active_profile_name}
use workspace_cli.Xray.Name.{NameError, relative_target, validate_profile_name}
use workspace_cli.Xray.Name.Link.{profile_of_target-relative_target}
use workspace_cli.Xray.Name.Valid.{ValidName, validate_profile_name-ValidName}
use workspace_cli.Xray.Store.{Store, atomic_symlink, link, set_config}
use workspace_cli.Xray.Switch.{
  Bind, Steps, SwitchReply, after_swap, bad_switch, check_bind, check_profile, legacy, legacy_bind,
  no_profile, non_empty, restart_step, run_steps, stat_profile, step_failed, swap_step,
  switch_named, switch_problem, switch_to, switched, unknown, validate_step, wait_step, whole_dir,
}

abbrev pub Live : Steps → Bytes → Store → Store → Type 0
Live f name s s' =
    ValidName name
    × (stat_profile s.resolves (s.profiles name) ≡ true)
    × (f.validates ≡ true)
    × (s'.profiles ≡ s.profiles)
    × (s'.config ≡ some (link (relative_target name)))
    × (read_active_profile_name true true s' ≡ active name)

-- Before the swap nothing has changed, and there is nothing to restore. Behind it the new profile
-- is active, and the way back is offered when a previous one is known.
abbrev pub IsSwitch : Steps → Bytes → Bytes → Store → SwitchReply → Store → Type 0
IsSwitch f name previous s switched s' = Live f name s s' × (f.restarts ≡ true) × (f.lives ≡ true)
IsSwitch f name previous s (bad_switch x) s' = s' ≡ s
IsSwitch f name previous s legacy_bind s' = s' ≡ s
IsSwitch f name previous s no_profile s' = s' ≡ s
IsSwitch f name previous s (step_failed validate_step p) s' =
    (s' ≡ s) × (p.active_now ≡ none) × (p.restore ≡ none)
IsSwitch f name previous s (step_failed swap_step p) s' =
    (s' ≡ s) × (p.active_now ≡ none) × (p.restore ≡ none)
IsSwitch f name previous s (step_failed restart_step p) s' =
    Live f name s s' × (p.active_now ≡ some name) × (p.restore ≡ non_empty previous)
IsSwitch f name previous s (step_failed wait_step p) s' =
    Live f name s s' × (p.active_now ≡ some name) × (p.restore ≡ non_empty previous)

abbrev Out : Steps → Bytes → Bytes → Store → SwitchReply × Store → Type 0
Out f name previous s r = IsSwitch f name previous s r.0 r.1

after_swap-IsSwitch :
    (f : Steps) (name previous : Bytes) (s s' : Store)
    → Live f name s s'
    → Out f name previous s (after_swap f name previous s')
unfolding after_swap switch_problem
after_swap-IsSwitch f name previous s s' l =
    if_intro (Out f name previous s) (not f.restarts) _ _ (λ _. (l, refl, refl))
      λ a.
        if_intro (Out f name previous s) (not f.lives) _ _ (λ _. (l, refl, refl))
          (λ b. (l, not-false _ a, not-false _ b))

set_config-Live :
    (f : Steps) (name : Bytes) (s : Store)
    → ValidName name
    → stat_profile s.resolves (s.profiles name) ≡ true
    → f.validates ≡ true
    → Live f name s (set_config (link (relative_target name)) s)
unfolding set_config read_active_profile_name active_of
set_config-Live f name s v t h =
    (v, t, h, refl, refl, ap active (profile_of_target-relative_target name v.0.0))

run_steps-IsSwitch :
    (f : Steps) (name previous : Bytes) (s : Store)
    → ValidName name
    → stat_profile s.resolves (s.profiles name) ≡ true
    → Out f name previous s (run_steps f name previous s)
unfolding run_steps atomic_symlink switch_problem
run_steps-IsSwitch f name previous s v t =
    if_intro (Out f name previous s) (not f.validates) _ _ (λ _. (refl, refl, refl))
      λ h.
        if_intro
          (λ (r : Bool × Store). Out f name previous s (
            if r.0
            then after_swap f name previous r.1
            else (step_failed swap_step (switch_problem name previous false), r.1)))
          (f.symlink && f.swap) _ _
          (λ _.
            after_swap-IsSwitch f name previous s _ (set_config-Live f name s v t (not-false _ h)))
          (λ _. (refl, refl, refl))

check_profile-IsSwitch :
    (f : Steps) (name previous : Bytes) (s : Store)
    → ValidName name
    → Out f name previous s (check_profile f name previous s)
unfolding check_profile
check_profile-IsSwitch f name previous s v =
    if_intro (Out f name previous s) (stat_profile s.resolves (s.profiles name)) _ _
      (λ t. run_steps-IsSwitch f name previous s v t) (λ _. refl)

check_bind-IsSwitch :
    (b : Bind) (f : Steps) (name previous : Bytes) (s : Store)
    → ValidName name
    → Out f name previous s (check_bind b f name previous s)
unfolding check_bind
check_bind-IsSwitch legacy f name previous s v = refl
check_bind-IsSwitch whole_dir f name previous s v = check_profile-IsSwitch f name previous s v
check_bind-IsSwitch unknown f name previous s v = check_profile-IsSwitch f name previous s v

switch_named-IsSwitch :
    (o : Option NameError) (f : Steps) (name previous : Bytes) (s : Store)
    → validate_profile_name name ≡ o
    → Out f name previous s (switch_named o f name previous s)
unfolding switch_named
switch_named-IsSwitch (some x) f name previous s q = refl
switch_named-IsSwitch none f name previous s q =
    check_bind-IsSwitch f.bind f name previous s ((validate_profile_name-ValidName name).0 q)

-- Whatever steps fail: a switch that is refused, or fails up to the swap, changes nothing and
-- offers nothing to restore. From the swap on, the named profile is the active one, whether the
-- restart and the wait work or not; it has a valid name, was there, and passed `xray -test`, and no
-- profile file has changed. A failure behind the swap says so, and offers to restore the previous
-- profile when its name is known; a success means that both steps worked.
pub switch_to-IsSwitch :
    (lstats readable : Bool) (f : Steps) (name : Bytes) (s : Store)
    → let out = switch_to lstats readable f name s in
      IsSwitch f name (name_or_empty (read_active_profile_name lstats readable s)) s out.0 out.1
unfolding switch_to
switch_to-IsSwitch a b f name s = switch_named-IsSwitch (validate_profile_name name) f name _ s refl

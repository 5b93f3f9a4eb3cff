-- ===== src/Xray/Commit/Gate.antt =====
-- `writeProfileValidated`, and its test as a gate.
-- Only this profile changed, to the given content.
use mathlib.Core.Path.{ap₂}
use workspace_cli.Prelude.{
  Bool, Bytes, List, [], ap, false, false≢true, if_intro, if◌then◌else◌, not, not-false, not-true,
  refl, some, sym, true, ℕ, ◌++◌, ◌∙◌, ◌∷◌, ◌≡◌, ◌≢◌,
}
use workspace_cli.Xray.Commit.{
  CommitReply, Gates, Staged, commit_failed, rejected, stage_failed, sweep, test_stage, unvalidated,
  validated, write_failed, write_profile_validated, write_staged, write_unvalidated,
}
use workspace_cli.Xray.Store.{Content, Store, file, set_profile, update-other, update-same}

abbrev pub Replaced : Bytes → Content → Store → Store → Type 0
Replaced name c s s' =
    (s'.profiles name ≡ some (file c))
    × (s'.config ≡ s.config)
    × ((n : Bytes) → n ≢ name → s'.profiles n ≡ s.profiles n)

abbrev pub IsCommit : Gates → Bytes → Content → Store → CommitReply → Store → Type 0
IsCommit g name c s validated s' = Replaced name c s s' × (g.accepts ≡ true) × (g.ready ≡ true)
IsCommit g name c s unvalidated s' = Replaced name c s s' × (g.ready ≡ false)
IsCommit g name c s write_failed s' = (s' ≡ s) × (g.ready ≡ false)
IsCommit g name c s stage_failed s' = (s' ≡ s) × (g.ready ≡ true)
IsCommit g name c s rejected s' = (s' ≡ s) × (g.ready ≡ true) × (g.accepts ≡ false)
IsCommit g name c s commit_failed s' = (s' ≡ s) × (g.ready ≡ true)

-- Where every removal works, a run that stages leaves no staging file.
abbrev pub IsClean : Gates → Staged → Type 0
IsClean g w = g.ready ≡ true → g.globs ≡ true → ((x : ℕ) → g.removes x ≡ true) → w.stages ≡ []

abbrev Out : Gates → Bytes → Content → Store → CommitReply × Staged → Type 0
Out g name c s r = IsCommit g name c s r.0 r.1.store × IsClean g r.1

set_profile-Replaced :
    (name : Bytes) (c : Content) (s : Store)
    → Replaced name c s (set_profile name (some (file c)) s)
unfolding set_profile
set_profile-Replaced name c s = (
  update-same name (some (file c)) s.profiles,
  refl,
  λ n h. update-other name n (some (file c)) s.profiles h,
)

sweep-all : (r : ℕ → Bool) (xs : List ℕ) → ((x : ℕ) → r x ≡ true) → sweep r xs ≡ []
unfolding sweep
sweep-all r [] h = refl
sweep-all r (x ∷ xs) h = ap₂ (λ b t. if b then t else x ∷ t) (h x) (sweep-all r xs h)

-- The files that an earlier run left are gone.
Swept : Gates → List ℕ → Type 0
Swept g old = g.globs ≡ true → ((x : ℕ) → g.removes x ≡ true) → old ≡ []

stage-gone :
    (g : Gates) (old : List ℕ) → Swept g old → Swept g (sweep g.removes (g.stamp ∷ []) ++ old)
unfolding Swept
stage-gone g old h a r = ap₂ (λ x y. x ++ y) (sweep-all g.removes (g.stamp ∷ []) r) (h a r)

test_stage-IsCommit :
    (g : Gates) (name : Bytes) (c : Content) (s : Store) (old : List ℕ)
    → g.ready ≡ true
    → Swept g old
    → Out g name c s (test_stage g name c s old)
unfolding test_stage Swept
test_stage-IsCommit g name c s old q h =
    if_intro (Out g name c s) (not g.accepts) _ _
      (λ a. ((refl, q, not-true _ a), λ x. stage-gone g old h))
      λ a.
        if_intro (Out g name c s) g.renames _ _
          (λ b. ((set_profile-Replaced name c s, not-false _ a, q), λ x. h))
          (λ b. ((refl, q), λ x. stage-gone g old h))

write_staged-IsCommit :
    (g : Gates) (name : Bytes) (c : Content) (w : Staged)
    → g.ready ≡ true
    → Out g name c w.store (write_staged g name c w)
unfolding write_staged Swept
write_staged-IsCommit g name c w q =
    let old = if g.globs then sweep g.removes w.stages else w.stages in
    let h : Swept g old = λ a r.
      ap (λ b. if b then sweep g.removes w.stages else w.stages) a
      ∙ sweep-all g.removes w.stages r in
    if_intro (Out g name c w.store) g.stages _ _ (λ _. test_stage-IsCommit g name c w.store old q h)
      (λ _. ((refl, q), λ x. h))

write_unvalidated-IsCommit :
    (g : Gates) (name : Bytes) (c : Content) (w : Staged)
    → g.ready ≡ false
    → Out g name c w.store (write_unvalidated g name c w)
unfolding write_unvalidated
write_unvalidated-IsCommit g name c w q =
    if_intro (Out g name c w.store) g.writes _ _
      (λ _. ((set_profile-Replaced name c w.store, q), λ x. absurd (false≢true (sym q ∙ x))))
      (λ _. ((refl, q), λ x. absurd (false≢true (sym q ∙ x))))

-- A profile is replaced only by content that `xray -test` accepted, or when the proxy is not ready
-- to test it; a rejection, and every failure, leaves all profiles and the link as they were. No
-- other profile ever changes. When the proxy is ready, and the glob and the removals work, no
-- staging file of the name remains, from this run or an earlier one.
pub write_profile_validated-IsCommit :
    (g : Gates) (name : Bytes) (c : Content) (w : Staged)
    → let out = write_profile_validated g name c w in
      IsCommit g name c w.store out.0 out.1.store × IsClean g out.1
unfolding write_profile_validated
write_profile_validated-IsCommit g name c w =
    if_intro (Out g name c w.store) g.ready _ _ (write_staged-IsCommit g name c w)
      (write_unvalidated-IsCommit g name c w)

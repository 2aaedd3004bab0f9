-- ===== src/Workspace/Containment.antt =====
-- What a tool call that the guard allows can touch.
use agent_studio.Shared.{Bool, true, false, some, List, [], ◌∷◌, ◌++◌, ◌≡◌, All, ◌⊎◌}
use agent_studio.Shared.Text.{Text}
use agent_studio.Workspace.Guard.{
  Platform, sandboxed, GuardInput, GuardDecision, allow, home_prefix, normalize, real_roots,
  absolute_for, spellings,
}

abbrev is_allow : GuardDecision → Bool
is_allow allow = true
is_allow _ = false

module _ (platform : Platform) where
  -- A path that is a root, or continues it behind a slash.
  abbrev pub IsBelow : Text → Text → Type 0
  IsBelow root p =
      let r = normalize (platform.resolve root) in
      let c = normalize (platform.resolve p) in
      (c ≡ r) ⊎ ((rest : Text) × (c ≡ (r ++ b'/' ∷ []) ++ rest))

  abbrev pub SomeBelow : List Text → Text → Type 0
  SomeBelow [] p = ⊥
  SomeBelow (root ∷ roots) p = IsBelow root p ⊎ SomeBelow roots p

  -- A spelling that opens a file below the real path of a root.
  abbrev pub OpensInside : List Text → Text → Type 0
  OpensInside roots spelling =
      (reals : List Text) × (real : Text) × (real_roots platform roots ≡ some reals)
      × (platform.real_path spelling ≡ some real)
      × SomeBelow reals real

  module _ (input : GuardInput) where
    abbrev roots : List Text
    roots = input.workspace_root ∷ input.additional_roots

    -- A path that is no home directory, and however it is spelled opens inside a root.
    abbrev pub IsContained : Text → Type 0
    IsContained candidate =
        (home_prefix candidate ≡ false)
        × SomeBelow roots (absolute_for platform input candidate)
        × All (OpensInside roots) (spellings platform input candidate)

    -- A command that is allowed.
    abbrev pub IsConfined : Type 0
    IsConfined =
        (input.bash_policy ≡ sandboxed) × (input.tool_input.dangerously_disable_sandbox ≡ false)

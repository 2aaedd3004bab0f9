-- ===== src/Chat/Saved.antt =====
-- What is saved of a turn that is over.
use agent_studio.Shared.{
  String, Bool, true, false, Option, none, some, List, [], ◌∷◌, ◌≡◌, refl, ap, All, Bool-cases, inl,
  inr,
}
use agent_studio.Chat.Blocks.{
  BackgroundShellStatus, shell_running, shell_completed, shell_failed, shell_stopped,
  ended_with_turn, ToolResultDetails, shell, other_details, SubagentStatus, child_running,
  child_completed, child_failed, child_stopped, StreamingBlock, text, tool, thinking, subagent,
  notice,
}
use agent_studio.Chat.Saving.{
  settled_background, settled_details, settled_option, SavedBlock, saved_text, saved_thinking,
  saved_notice, saved_subagent, saved_tool, is_completed, child_succeeded, ended_status,
  has_no_text, get_serializable_blocks_for_metadata,
}

abbrev pub is_running_shell : Option ToolResultDetails → Bool
is_running_shell (some (shell d)) = elim d.background [ some shell_running ↦ true | _ ↦ false ]
is_running_shell _ = false

abbrev pub is_running_child : SubagentStatus → Bool
is_running_child child_running = true
is_running_child _ = false

-- A saved block that says nothing that is still going on, and is worth saving.
abbrev pub IsOver : SavedBlock → Type 0
IsOver (saved_text s) = has_no_text s ≡ false
IsOver (saved_thinking s n) = has_no_text s ≡ false
IsOver (saved_notice n) = n.persist ≡ true
IsOver (saved_subagent s) =
    (is_running_child s.status ≡ false) × (child_succeeded s.status ≡ s.success)
IsOver (saved_tool t) = is_running_shell t.details ≡ false

-- The calls with their arguments, and whether they succeeded.
abbrev pub calls_of : List StreamingBlock → List (String × String × Bool)
calls_of [] = []
calls_of (tool t ∷ blocks) = (t.name, t.arguments, is_completed t.status) ∷ calls_of blocks
calls_of (b ∷ blocks) = calls_of blocks

abbrev pub saved_calls_of : List SavedBlock → List (String × String × Bool)
saved_calls_of [] = []
saved_calls_of (saved_tool t ∷ saved) = (t.name, t.arguments, t.success) ∷ saved_calls_of saved
saved_calls_of (b ∷ saved) = saved_calls_of saved

not_running : (o : Option ToolResultDetails) → is_running_shell (settled_option o) ≡ false
unfolding settled_details
not_running none = refl
not_running (some (other_details s)) = refl
not_running (some (shell d)) = background_settled d.background
  where
    background_settled :
        (o : Option BackgroundShellStatus)
        → (elim (settled_background o) [ some shell_running ↦ true | _ ↦ false ]) ≡ false
    background_settled none = refl
    background_settled (some shell_running) = refl
    background_settled (some shell_completed) = refl
    background_settled (some shell_failed) = refl
    background_settled (some shell_stopped) = refl
    background_settled (some ended_with_turn) = refl

child_over :
    (s : SubagentStatus)
    → (is_running_child (ended_status s) ≡ false)
      × (child_succeeded (ended_status s) ≡ child_succeeded s)
child_over child_running = (refl, refl)
child_over child_completed = (refl, refl)
child_over child_failed = (refl, refl)
child_over child_stopped = (refl, refl)

-- Whatever the blocks of a turn, what is saved of it has no command and no child that still runs, no
-- blank text and no passing notice; and it has every tool call, in order, with its outcome.
pub get_serializable_blocks_for_metadata-IsOver :
    (blocks : List StreamingBlock)
    → let saved = get_serializable_blocks_for_metadata blocks in
      All IsOver saved × (saved_calls_of saved ≡ calls_of blocks)
unfolding get_serializable_blocks_for_metadata
get_serializable_blocks_for_metadata-IsOver [] = (tt, refl)
get_serializable_blocks_for_metadata-IsOver (text t ∷ blocks) =
    let (h, k) = get_serializable_blocks_for_metadata-IsOver blocks in
    elim (Bool-cases (has_no_text t.content)) [
      | inl blank ↦ rw (blank, get_serializable_blocks_for_metadata) (h, k)
      | inr kept ↦ rw (kept, get_serializable_blocks_for_metadata) ((kept, h), k)
    ]
get_serializable_blocks_for_metadata-IsOver (thinking t ∷ blocks) =
    let (h, k) = get_serializable_blocks_for_metadata-IsOver blocks in
    elim (Bool-cases (has_no_text t.content)) [
      | inl blank ↦ rw (blank, get_serializable_blocks_for_metadata) (h, k)
      | inr kept ↦ rw (kept, get_serializable_blocks_for_metadata) ((kept, h), k)
    ]
get_serializable_blocks_for_metadata-IsOver (notice n ∷ blocks) =
    let (h, k) = get_serializable_blocks_for_metadata-IsOver blocks in
    elim (Bool-cases n.notice.persist) [
      | inl kept ↦ rw (kept, get_serializable_blocks_for_metadata) ((refl, h), k)
      | inr passing ↦ rw (passing, get_serializable_blocks_for_metadata) (h, k)
    ]
get_serializable_blocks_for_metadata-IsOver (subagent s ∷ blocks) =
    let (h, k) = get_serializable_blocks_for_metadata-IsOver blocks in ((child_over s.status, h), k)
get_serializable_blocks_for_metadata-IsOver (tool t ∷ blocks) =
    let (h, k) = get_serializable_blocks_for_metadata-IsOver blocks in
    ((not_running t.details, h), ap (λ rest. (t.name, t.arguments, is_completed t.status) ∷ rest) k)

-- ===== src/Chat/Deltas.antt =====
-- The frames of text and of reasoning. A typewriter shows a block's text; `target` is what it shows
-- in the end. The id of a new block, random in the source, is an argument.
use agent_studio.Shared.{
  ℕ, String, Bool, true, false, Option, none, some, List, [], ◌∷◌, ◌++◌, map, if◌then◌else◌, ltb,
  length, ◌==◌,
}
use agent_studio.Shared.Text.{Text}
use agent_studio.Chat.Blocks.{
  ThinkingBlock, StreamingBlock, text, thinking, collapse_tool, on_thinking, on_texts,
}

-- A change of the last block.
unfoldable pub on_last :
    (StreamingBlock → StreamingBlock) → List StreamingBlock → List StreamingBlock
on_last f [] = []
on_last f (b ∷ []) = f b ∷ []
on_last f (b ∷ c ∷ blocks) = b ∷ on_last f (c ∷ blocks)

unfoldable pub last_block : List StreamingBlock → Option StreamingBlock
last_block [] = none
last_block (b ∷ []) = some b
last_block (b ∷ c ∷ blocks) = last_block (c ∷ blocks)

abbrev pub is_text : Option StreamingBlock → Bool
is_text (some (text t)) = true
is_text _ = false

abbrev pub is_thinking : Option StreamingBlock → Bool
is_thinking (some (thinking t)) = true
is_thinking _ = false

abbrev pub expand : StreamingBlock → StreamingBlock
expand = on_thinking λ t. record t { expanded = true }

abbrev pub new_thinking : String → ThinkingBlock
new_thinking id = record { id = id; content = []; reasoning_tokens = none; expanded = true }

unfoldable pub append_thinking :
    List StreamingBlock → Text → Text → String → List StreamingBlock × Text
unfolding on_last last_block
append_thinking blocks target content id =
    if length content == 0
    then (blocks, target)
    else if is_thinking (last_block blocks)
    then (on_last expand blocks, target ++ content)
    else (blocks ++ thinking (new_thinking id) ∷ [], content)

abbrev pub stamp_here : StreamingBlock → List StreamingBlock → ℕ → Option (List StreamingBlock)
stamp_here (thinking t) bs tokens =
    some (thinking (record t { reasoning_tokens = some tokens }) ∷ bs)
stamp_here b bs tokens = none

-- The last thinking block that there is gets the count.
unfoldable pub stamp_last : List StreamingBlock → ℕ → Option (List StreamingBlock)
stamp_last [] tokens = none
stamp_last (b ∷ bs) tokens = elim (stamp_last bs tokens) [
  | some stamped ↦ some (b ∷ stamped)
  | none ↦ stamp_here b bs tokens
]

abbrev pub stamped_or : List StreamingBlock → Option (List StreamingBlock) → List StreamingBlock
stamped_or blocks none = blocks
stamped_or blocks (some stamped) = stamped

unfoldable pub set_latest_reasoning_tokens : List StreamingBlock → Option ℕ → List StreamingBlock
unfolding stamp_last
set_latest_reasoning_tokens blocks none = blocks
set_latest_reasoning_tokens blocks (some tokens) =
    if ltb 0 tokens then stamped_or blocks (stamp_last blocks tokens) else blocks

abbrev pub text_is : Text → StreamingBlock → StreamingBlock
text_is target = on_texts λ t. record t { content = target }

abbrev pub thinking_is : Text → StreamingBlock → StreamingBlock
thinking_is target = on_thinking λ t. record t { content = target }

unfoldable pub finalize_text : List StreamingBlock → Text → List StreamingBlock
unfolding on_last
finalize_text blocks target = if length target == 0 then blocks else on_last (text_is target) blocks

unfoldable pub finalize_thinking : List StreamingBlock → Text → List StreamingBlock
unfolding on_last
finalize_thinking blocks target =
    if length target == 0 then blocks else on_last (thinking_is target) blocks

-- `delta`.
unfoldable pub apply_delta_start : List StreamingBlock → String → List StreamingBlock
unfolding last_block
apply_delta_start blocks id =
    if is_text (last_block blocks)
    then blocks
    else map collapse_tool blocks ++ text (record { id = id; content = [] }) ∷ []

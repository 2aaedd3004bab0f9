-- ===== src/Chat/Opening.antt =====
-- The frames that open a card, delivered again by a resumed stream.
use agent_studio.Shared.{
  String, Bool, true, false, Option, none, some, List, [], ◌∷◌, ◌++◌, ◌≡◌, refl, ap, ◌∙◌, arith,
  map, any, str_eq_refl, opt_str_eq, Bool-cases, inl, inr,
}
use agent_studio.Chat.Blocks.{StreamingBlock, subagent, collapse_thinking}
use agent_studio.Chat.Children.{Target, is_target, started, apply_subagent_start}

any-last :
    (q : StreamingBlock → Bool) (bs : List StreamingBlock) (b : StreamingBlock)
    → q b ≡ true
    → any q (bs ++ b ∷ []) ≡ true
any-last q [] b h = ground (arith, h)
any-last q (c ∷ bs) b h = ground (arith, any-last q bs b h)

opt_str_eq_refl : (o : Option String) → opt_str_eq o o ≡ true
opt_str_eq_refl none = refl
opt_str_eq_refl (some s) = str_eq_refl s

start_adds :
    (blocks : List StreamingBlock) (id : String) (target : Target) (agent_name : String)
    (task : Option String)
    → any (is_target target) blocks ≡ false
    → apply_subagent_start blocks id target agent_name task
      ≡ map collapse_thinking blocks ++ subagent (started id target agent_name task) ∷ []
unfolding apply_subagent_start
start_adds blocks id target agent_name task absent = rw (absent, apply_subagent_start) refl

start_keeps :
    (blocks : List StreamingBlock) (id : String) (target : Target) (agent_name : String)
    (task : Option String)
    → any (is_target target) blocks ≡ true
    → apply_subagent_start blocks id target agent_name task ≡ blocks
unfolding apply_subagent_start
start_keeps blocks id target agent_name task there = rw (there, apply_subagent_start) refl

-- A child has a card after its start.
start_there :
    (blocks : List StreamingBlock) (id : String) (target : Target) (agent_name : String)
    (task : Option String)
    → any (is_target target) (apply_subagent_start blocks id target agent_name task) ≡ true
start_there blocks id target agent_name task = elim (Bool-cases (any (is_target target) blocks)) [
  | inl there ↦
      ap (any (is_target target)) (start_keeps blocks id target agent_name task there) ∙ there
  | inr absent ↦
      ap (any (is_target target)) (start_adds blocks id target agent_name task absent)
      ∙ any-last (is_target target) (map collapse_thinking blocks)
          (subagent (started id target agent_name task))
          (ground (arith, str_eq_refl target.agent_id, opt_str_eq_refl target.conversation_id))
]

-- A child whose start is delivered again keeps its one card.
pub apply_subagent_start_replayed :
    (blocks : List StreamingBlock) (id : String) (target : Target) (agent_name : String)
    (task : Option String)
    → let once = apply_subagent_start blocks id target agent_name task in
      (apply_subagent_start once id target agent_name task ≡ once)
      × (any (is_target target) once ≡ true)
apply_subagent_start_replayed blocks id target agent_name task =
    let once = apply_subagent_start blocks id target agent_name task in
    let there = start_there blocks id target agent_name task in
    (start_keeps once id target agent_name task there, there)

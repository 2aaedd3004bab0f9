-- ===== src/Chat/Keeping.antt =====
-- Changes of blocks that keep the caps of transcripts.
use agent_studio.Shared.{
  ℕ, Bool, true, false, Option, none, some, List, [], ◌∷◌, ◌++◌, subst, map, All, All-append,
  if◌then◌else◌, Bool-cases, Option-cases, inl, inr,
}
use agent_studio.Chat.Blocks.{
  TextBlock, ThinkingBlock, on_thinking, on_texts, ToolBlock, SubagentBlock, StreamingBlock, text,
  tool, thinking, subagent, notice, collapse, collapse_thinking, on_tools, on_first,
}
use agent_studio.Chat.Children.{Target, is_child, on_child}
use agent_studio.Chat.Deltas.{on_last, stamp_here, stamp_last, stamped_or}
use agent_studio.Chat.Caps.{IsCapped}

abbrev pub HasCaps : StreamingBlock → Type 0
HasCaps (subagent s) = IsCapped s.transcript
HasCaps b = Unit

abbrev pub Keeps : (StreamingBlock → StreamingBlock) → Type 0
Keeps f = (b : StreamingBlock) → HasCaps b → HasCaps (f b)

pub All-map :
    (f : StreamingBlock → StreamingBlock) (bs : List StreamingBlock)
    → Keeps f
    → All HasCaps bs
    → All HasCaps (map f bs)
All-map f [] k h = tt
All-map f (b ∷ bs) k (h, hs) = (k b h, All-map f bs k hs)

pub on_tools-Keeps : (f : ToolBlock → ToolBlock) → Keeps (on_tools f)
on_tools-Keeps f (subagent s) h = h
on_tools-Keeps f (tool t) h = tt
on_tools-Keeps f (text t) h = tt
on_tools-Keeps f (thinking t) h = tt
on_tools-Keeps f (notice t) h = tt

pub on_thinking-Keeps : (f : ThinkingBlock → ThinkingBlock) → Keeps (on_thinking f)
on_thinking-Keeps f (subagent s) h = h
on_thinking-Keeps f (tool t) h = tt
on_thinking-Keeps f (text t) h = tt
on_thinking-Keeps f (thinking t) h = tt
on_thinking-Keeps f (notice t) h = tt

pub on_texts-Keeps : (f : TextBlock → TextBlock) → Keeps (on_texts f)
on_texts-Keeps f (subagent s) h = h
on_texts-Keeps f (tool t) h = tt
on_texts-Keeps f (text t) h = tt
on_texts-Keeps f (thinking t) h = tt
on_texts-Keeps f (notice t) h = tt

pub collapse-Keeps : Keeps collapse
collapse-Keeps b h = on_tools-Keeps _ (collapse_thinking b) (on_thinking-Keeps _ b h)

pub on_child-Keeps :
    (target : Target) (f : SubagentBlock → SubagentBlock)
    → ((s : SubagentBlock) → IsCapped s.transcript → IsCapped (f s).transcript)
    → Keeps (on_child target f)
on_child-Keeps target f k (subagent s) h = elim (Bool-cases (is_child target s)) [
  | inl its ↦ rw its (k s h)
  | inr other ↦ rw other h
]
on_child-Keeps target f k (tool t) h = tt
on_child-Keeps target f k (text t) h = tt
on_child-Keeps target f k (thinking t) h = tt
on_child-Keeps target f k (notice t) h = tt

-- A new block without a transcript goes behind the others.
pub All-last :
    (bs : List StreamingBlock) (b : StreamingBlock)
    → All HasCaps bs
    → HasCaps b
    → All HasCaps (bs ++ b ∷ [])
All-last bs b h k = All-append HasCaps bs (b ∷ []) h (k, tt)

pub on_first-All :
    (p : StreamingBlock → Bool) (f : ToolBlock → ToolBlock) (bs : List StreamingBlock)
    → All HasCaps bs
    → All HasCaps (on_first p f bs)
unfolding on_first
on_first-All p f [] h = tt
on_first-All p f (b ∷ bs) (h, hs) = elim (Bool-cases (p b)) [
  | inl here ↦ rw (here, on_first) (on_tools-Keeps f b h, hs)
  | inr other ↦ rw (other, on_first) (h, on_first-All p f bs hs)
]

pub on_last-All :
    (f : StreamingBlock → StreamingBlock) (bs : List StreamingBlock)
    → Keeps f
    → All HasCaps bs
    → All HasCaps (on_last f bs)
unfolding on_last
on_last-All f [] k h = tt
on_last-All f (b ∷ []) k (h, u) = (k b h, tt)
on_last-All f (b ∷ c ∷ bs) k (h, hs) = (h, on_last-All f (c ∷ bs) k hs)

abbrev pub AllIf : Option (List StreamingBlock) → Type 0
AllIf none = Unit
AllIf (some bs) = All HasCaps bs

pub stamp_here-AllIf :
    (b : StreamingBlock) (bs : List StreamingBlock) (n : ℕ)
    → All HasCaps bs
    → AllIf (stamp_here b bs n)
stamp_here-AllIf (thinking t) bs n h = (tt, h)
stamp_here-AllIf (subagent s) bs n h = tt
stamp_here-AllIf (tool t) bs n h = tt
stamp_here-AllIf (text t) bs n h = tt
stamp_here-AllIf (notice t) bs n h = tt

pub stamp_last-AllIf : (bs : List StreamingBlock) (n : ℕ) → All HasCaps bs → AllIf (stamp_last bs n)
unfolding stamp_last
stamp_last-AllIf [] n h = tt
stamp_last-AllIf (b ∷ bs) n (h, hs) = elim (Option-cases (stamp_last bs n)) [
  | inr (stamped, found) ↦ rw (found, stamp_last) (h, subst AllIf found (stamp_last-AllIf bs n hs))
  | inl none_later ↦ rw (none_later, stamp_last) (stamp_here-AllIf b bs n hs)
]

pub stamped_or-All :
    (bs : List StreamingBlock) (o : Option (List StreamingBlock))
    → All HasCaps bs
    → AllIf o
    → All HasCaps (stamped_or bs o)
stamped_or-All bs none h k = h
stamped_or-All bs (some cs) h k = k

pub if-All :
    (b : Bool) (bs cs : List StreamingBlock)
    → All HasCaps bs
    → All HasCaps cs
    → All HasCaps (if b then bs else cs)
if-All true bs cs h k = h
if-All false bs cs h k = k

-- ===== src/Chat/Ended.antt =====
-- The card of a background command that has ended.
use agent_studio.Shared.{
  true, false, Option, none, some, List, [], ◌∷◌, ◌≡◌, refl, ap, ◌∙◌, map, str_eq, Bool-cases, inl,
  inr,
}
use agent_studio.Chat.Blocks.{
  ShellDetails, ToolResultDetails, shell, ToolBlock, StreamingBlock, text, thinking, subagent,
  notice, other_details, tool, on_tools,
}
use agent_studio.Chat.Shell.{
  OutputPayload, is_settled, take_output, output_to, apply_shell_output, DonePayload, finish_shell,
  ended_details, on_shell, done_to, apply_shell_task_done,
}

take_output_settled :
    (p : OutputPayload) (t : ToolBlock) (d : ShellDetails)
    → is_settled d.background ≡ true
    → take_output p t d ≡ t
unfolding take_output
take_output_settled p t d h = rw (h, take_output) refl

ended_by :
    (p : OutputPayload) (done : DonePayload) (t : ToolBlock) (o : Option ToolResultDetails)
    → is_settled done.status ≡ true
    → str_eq t.id p.id ≡ true
    → t.details ≡ o
    → output_to p (on_shell (finish_shell done) t o) ≡ on_shell (finish_shell done) t o
unfolding finish_shell
ended_by p done t (some (shell d)) h mine e =
    rw mine (take_output_settled p (finish_shell done t d) (ended_details done d) h)
ended_by p done t (some (other_details s)) h mine e = rw mine (rw e refl)
ended_by p done t none h mine e = rw mine (rw e refl)

ignored_by :
    (p : OutputPayload) (done : DonePayload) (t : ToolBlock)
    → is_settled done.status ≡ true
    → p.id ≡ done.id
    → output_to p (done_to done t) ≡ done_to done t
ignored_by p done t h same = elim (Bool-cases (str_eq t.id done.id)) [
  | inr other ↦
      let still : str_eq t.id p.id ≡ false = ap (str_eq t.id) same ∙ other in
      rw other (rw still refl)
  | inl its ↦
      let mine : str_eq t.id p.id ≡ true = ap (str_eq t.id) same ∙ its in
      rw its (ended_by p done t t.details h mine refl)
]

ignored_everywhere :
    (blocks : List StreamingBlock) (done : DonePayload) (p : OutputPayload)
    → is_settled done.status ≡ true
    → p.id ≡ done.id
    → map (on_tools (output_to p)) (map (on_tools (done_to done)) blocks)
      ≡ map (on_tools (done_to done)) blocks
ignored_everywhere [] done p h same = refl
ignored_everywhere (tool t ∷ blocks) done p h same =
    rw (ignored_by p done t h same, ignored_everywhere blocks done p h same) refl
ignored_everywhere (text t ∷ blocks) done p h same =
    rw (ignored_everywhere blocks done p h same) refl
ignored_everywhere (thinking t ∷ blocks) done p h same =
    rw (ignored_everywhere blocks done p h same) refl
ignored_everywhere (subagent t ∷ blocks) done p h same =
    rw (ignored_everywhere blocks done p h same) refl
ignored_everywhere (notice t ∷ blocks) done p h same =
    rw (ignored_everywhere blocks done p h same) refl

-- Once a background command has ended, no output of it changes its card.
pub shell_output-done_ignored :
    (blocks : List StreamingBlock) (done : DonePayload) (p : OutputPayload)
    → is_settled done.status ≡ true
    → p.id ≡ done.id
    → let ended = apply_shell_task_done blocks done in apply_shell_output ended p ≡ ended
unfolding apply_shell_output apply_shell_task_done
shell_output-done_ignored blocks done p h same =
    rw (h, apply_shell_task_done) (ignored_everywhere blocks done p h same)

-- ===== src/Engine/Admission.antt =====
-- src/lib/engine/delegation-gate.ts: the input that a child runs with, calls that are refused, and
-- slots that come back.
use agent_studio.Shared.{
  ℕ, ◌<◌, String, Bool, true, false, not, ◌&&◌, ◌||◌, [], Option, none, some, ◌≡◌, refl, ap, sym,
  ◌∙◌, inl, inr, Bool-cases, arith, leb, str_eq, eq_iff, if◌then◌else◌, length, or_else, is_some,
}
use agent_studio.Shared.Text.{Text}
use agent_studio.Engine.Slots.{
  get, put, delete, has, get-put, get-delete, get-delete_same, get-delete_other, get-put_other,
  length-delete_lt,
}
use agent_studio.Engine.Delegation.{
  conclude_call, ChildBudgetVerdict, Object, Value, boolean, DelegationGateOptions,
  DelegationRequest, admit, refuse, CheckEnd, answered, allowed, refused, bounded_budget_check,
  Live, begin_admission, finish_admission, admit_call, settle, sanitize_delegation_input,
  concurrent_limit, is_nested,
}
use agent_studio.Engine.Slotted.{begin_cases, Reach-IsSlotted}
use agent_studio.Engine.Turns.{Turn, Reach}
use agent_studio.Engine.Slots.{length_same}

-- The field of an input as the child sees it.
abbrev pub field_for_child : Bool → String → Option Value → Option Value
field_for_child parent_is_claude k v =
    if str_eq "run_in_background" k
    then some (boolean false)
    else if str_eq "mode" k || str_eq "isolation" k || (str_eq "model" k && not parent_is_claude)
    then none
    else v

-- A child runs in the foreground, with no isolation or mode of its own, and with no model where the
-- parent is not on Claude; every other field is what the call gave, none where it gave no object.
pub sanitize_delegation_input-get :
    (parent_is_claude : Bool) (input : Option Object) (k : String)
    → get k (sanitize_delegation_input parent_is_claude input)
      ≡ field_for_child parent_is_claude k (get k (or_else input []))
unfolding sanitize_delegation_input
sanitize_delegation_input-get true input k =
    let i = or_else input [] in
    rw
      (
        get-put "run_in_background" k (boolean false) (delete "mode" (delete "isolation" i)),
        get-delete "mode" k (delete "isolation" i),
        get-delete "isolation" k i,
      )
      (ground arith)
sanitize_delegation_input-get false input k =
    let i = or_else input [] in
    rw
      (
        get-put "run_in_background" k (boolean false)
            (delete "model" (delete "mode" (delete "isolation" i))),
        get-delete "model" k (delete "mode" (delete "isolation" i)),
        get-delete "mode" k (delete "isolation" i),
        get-delete "isolation" k i,
      )
      (ground arith)

get_none : {V : Type 0} (o : Option V) → is_some o ≡ false → o ≡ none
get_none none h = refl
get_none (some v) h = cc h

lt_not_leb : (a b : ℕ) → a < b → leb b a ≡ false
lt_not_leb a b h = ground arith

module _ (o : DelegationGateOptions) where
  given_back :
      (r : DelegationRequest) (v : ChildBudgetVerdict) (live : Live) (reason : Text) (j : String)
      → has r.tool_use_id live ≡ false
      → (finish_admission o r v (put r.tool_use_id none live)).0 ≡ refuse reason
      → get j (finish_admission o r v (put r.tool_use_id none live)).1 ≡ get j live
  unfolding finish_admission
  given_back r allowed live reason j h e = absurd (cc e)
  given_back r (refused _) live reason j h e = elim (Bool-cases (str_eq r.tool_use_id j)) [
    | inl same ↦
        get-delete_same r.tool_use_id j (put r.tool_use_id none live) same
        ∙ sym
            (ap (λ (k : String). get k live) (sym ((eq_iff r.tool_use_id j).0 same)) ∙ get_none _ h)
    | inr other ↦
        get-delete_other r.tool_use_id j (put r.tool_use_id none live) other
        ∙ get-put_other r.tool_use_id j live none other
  ]

  admitted_with_room :
      (r : DelegationRequest) (live : Live)
      → is_nested r.caller_agent_id ≡ false
      → length live < concurrent_limit o
      → (admit_call o r (answered allowed) live).0
        ≡ admit (sanitize_delegation_input o.parent_is_claude r.tool_input)
  unfolding admit_call begin_admission bounded_budget_check
  admitted_with_room r live n room = elim (Bool-cases o.checks_budget) [
    | inl c ↦ elim (Bool-cases (has r.tool_use_id live)) [
      | inl old ↦ rw (n, old, c) refl
      | inr first ↦ rw (n, first, lt_not_leb _ _ room, c) refl
    ]
    | inr c ↦ elim (Bool-cases (has r.tool_use_id live)) [
      | inl old ↦ rw (n, old, c) refl
      | inr first ↦ rw (n, first, lt_not_leb _ _ room, c) refl
    ]
  ]

  -- What `admit` leaves behind a refusal, for a call that held no slot: every slot as it was.
  pub admit_call-refused :
      (r : DelegationRequest) (end : CheckEnd) (live : Live) (reason : Text)
      → has r.tool_use_id live ≡ false
      → (admit_call o r end live).0 ≡ refuse reason
      → (j : String) → get j (admit_call o r end live).1 ≡ get j live
  unfolding admit_call
  admit_call-refused r end live reason h e j = elim (begin_cases o r live h) [
    | inl (_, b) ↦ ap (λ x. get j (conclude_call o r end x).1) b
    | inr (_, inl (key, b)) ↦
        ap (λ x. get j (conclude_call o r end x).1) b
        ∙ given_back r (bounded_budget_check end) live reason j h
            (sym (ap (λ x. (conclude_call o r end x).0) b) ∙ e)
    | inr (_, inr b) ↦ absurd (cc (sym (ap (λ x. (conclude_call o r end x).0) b) ∙ e))
  ]

  -- In every state that a turn can reach, where no hook fires again for a call that is being checked or
  -- whose child runs, and neither a finish nor the turn's end falls on a call that is being checked:
  -- once one of the calls that hold slots is settled, a call that no child makes and whose budget is
  -- allowed is admitted, with its sanitized input.
  pub settled-admit_call :
      (t : Turn) (id : String) (r : DelegationRequest)
      → Reach o t
      → has id t.live ≡ true
      → is_nested r.caller_agent_id ≡ false
      → (admit_call o r (answered allowed) (settle id t.live)).0
        ≡ admit (sanitize_delegation_input o.parent_is_claude r.tool_input)
  settled-admit_call t id r reach h n =
      let i = Reach-IsSlotted o reach in
      admitted_with_room r (settle id t.live) n (
        unfold settle in
        omega (arith, length-delete_lt id t.live h, length_same t.live t.phases i.same, i.bounded))

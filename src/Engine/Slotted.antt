-- ===== src/Engine/Slotted.antt =====
-- src/lib/engine/delegation-gate.ts in every interleaving of a turn: the cap on the children that run
-- at once.
use agent_studio.Shared.{
  ℕ, ◌+◌, ◌<◌, String, true, false, List, Option, none, some, ◌≡◌, refl, ap, sym, subst, ◌∙◌, inl,
  inr, ◌⊎◌, Bool-cases, arith, leb, str_eq, str_eq_refl, length, or_else,
}
use agent_studio.Shared.Text.{Text}
use agent_studio.Engine.Slots.{
  get, put, delete, keys, has, get-put, get-put_same, get-put_other, get-delete_same,
  get-delete_other, length-put, length-delete_le, same_keys-put, same_keys-delete, has_same,
  length_same,
}
use agent_studio.Engine.Delegation.{
  DelegationGateOptions, DelegationRequest, Object, admit, refuse, ChildBudgetVerdict, allowed,
  refused, bounded_budget_check, Live, Begun, answered_now, checking, begin_admission,
  finish_admission, settle, admitted_input, sanitize_delegation_input, concurrent_limit, is_nested,
  nested_delegation_reason, cap_reached_reason, agent_key_of,
}
use agent_studio.Engine.Turns.{
  IsSlotted, Phase, Reach, Step, Turn, begin, check_ends, here, idle, next, over, pending,
  phases_after_begin, phases_after_finish, running, settled,
}

the_request : {q r : DelegationRequest} → some (running q) ≡ some (running r) → q ≡ r
the_request e = cc e

has-put : {V : Type 0} (id : String) (v : V) (m : List (String × V)) → has id (put id v m) ≡ true
has-put id v m = rw (get-put id id v m, str_eq_refl id) refl

not_leb : (a b : ℕ) → leb a b ≡ false → b < a
not_leb a b h = ground arith

module _ (o : DelegationGateOptions) where
  -- What a hook begins with, for a call that holds no slot.
  pub begin_cases :
      (r : DelegationRequest) (live : Live)
      → has r.tool_use_id live ≡ false
      → ((reason : Text) × (begin_admission o r live ≡ (answered_now (refuse reason), live)))
        ⊎ ((length live < concurrent_limit o)
            × (((key : Option Text) × (begin_admission o r live
                    ≡ (checking key, put r.tool_use_id none live)))
                ⊎ (begin_admission o r live ≡ (
                  answered_now (admit (sanitize_delegation_input o.parent_is_claude r.tool_input)),
                  put r.tool_use_id
                      (some (sanitize_delegation_input o.parent_is_claude r.tool_input))
                      (put r.tool_use_id none live),
                ))))
  unfolding begin_admission
  begin_cases r live h = elim (Bool-cases (is_nested r.caller_agent_id)) [
    | inl n ↦ inl (nested_delegation_reason, rw n refl)
    | inr n ↦ elim (Bool-cases (leb (concurrent_limit o) (length live))) [
      | inl full ↦ inl (cap_reached_reason (concurrent_limit o), rw (n, h, full) refl)
      | inr room ↦ inr (
        not_leb _ _ room,
        elim (Bool-cases o.checks_budget) [
          | inl c ↦ inl (agent_key_of r.tool_input, rw (n, h, room, c) refl)
          | inr c ↦ inr (rw (n, h, room, c) refl)
        ],
      )
    ]
  ]

  idle-IsSlotted : IsSlotted o (idle o)
  unfolding keys get
  idle-IsSlotted = record { same = refl; bounded = omega arith; inputs = λ id r e. cc e }

  has_pending :
      (id : String) (ps : List (String × Phase)) → get id ps ≡ some pending → has id ps ≡ true
  has_pending id ps e = rw e refl

  length-put_new :
      {V : Type 0} (id : String) (v : V) (m : List (String × V))
      → has id m ≡ false
      → length (put id v m) ≡ length m + 1
  length-put_new id v m h = length-put id v m ∙ (rw h refl)

  length-put_old :
      {V : Type 0} (id : String) (v : V) (m : List (String × V))
      → has id m ≡ true
      → length (put id v m) ≡ length m
  length-put_old id v m h = length-put id v m ∙ (rw h refl)

  abbrev reserved : String → Turn → Turn
  reserved id t = record { live = put id none t.live; phases = put id pending t.phases }

  abbrev input_of : DelegationRequest → Object
  input_of r = sanitize_delegation_input o.parent_is_claude r.tool_input

  abbrev child_started : DelegationRequest → Turn → Turn
  child_started r t = record {
    live = put r.tool_use_id (some (input_of r)) t.live;
    phases = put r.tool_use_id (running r) t.phases;
  }

  abbrev dropped : String → Turn → Turn
  dropped id t = record { live = delete id t.live; phases = delete id t.phases }

  reserved_inputs :
      (id : String) (t : Turn) (j : String) (r : DelegationRequest)
      → IsSlotted o t
      → get j (reserved id t).phases ≡ some (running r)
      → admitted_input j (reserved id t).live ≡ some (input_of r)
  unfolding admitted_input
  reserved_inputs id t j r i e = elim (Bool-cases (str_eq id j)) [
    | inl same ↦ absurd (cc (sym (get-put_same id j t.phases pending same) ∙ e))
    | inr other ↦
        ap (λ (x : Option (Option Object)). or_else x none) (get-put_other id j t.live none other)
        ∙ i.inputs j r (sym (get-put_other id j t.phases pending other) ∙ e)
  ]

  started_inputs :
      (req : DelegationRequest) (t : Turn) (j : String) (r : DelegationRequest)
      → IsSlotted o t
      → get j (child_started req t).phases ≡ some (running r)
      → admitted_input j (child_started req t).live ≡ some (input_of r)
  unfolding admitted_input
  started_inputs req t j r i e = elim (Bool-cases (str_eq req.tool_use_id j)) [
    | inl same ↦
        ap (λ (x : Option (Option Object)). or_else x none)
          (get-put_same req.tool_use_id j t.live (some (input_of req)) same)
        ∙ ap (λ (q : DelegationRequest). some (input_of q))
            (the_request (sym (get-put_same req.tool_use_id j t.phases (running req) same) ∙ e))
    | inr other ↦
        ap (λ (x : Option (Option Object)). or_else x none)
          (get-put_other req.tool_use_id j t.live (some (input_of req)) other)
        ∙ i.inputs j r (sym (get-put_other req.tool_use_id j t.phases (running req) other) ∙ e)
  ]

  dropped_inputs :
      (id : String) (t : Turn) (j : String) (r : DelegationRequest)
      → IsSlotted o t
      → get j (dropped id t).phases ≡ some (running r)
      → admitted_input j (dropped id t).live ≡ some (input_of r)
  unfolding admitted_input
  dropped_inputs id t j r i e = elim (Bool-cases (str_eq id j)) [
    | inl same ↦ absurd (cc (sym (get-delete_same id j t.phases same) ∙ e))
    | inr other ↦
        ap (λ (x : Option (Option Object)). or_else x none) (get-delete_other id j t.live other)
        ∙ i.inputs j r (sym (get-delete_other id j t.phases other) ∙ e)
  ]

  reserved-IsSlotted :
      (id : String) (t : Turn)
      → has id t.phases ≡ false
      → length t.live < concurrent_limit o
      → IsSlotted o t
      → IsSlotted o (reserved id t)
  reserved-IsSlotted id t h room i = record {
    same = same_keys-put t.live t.phases i.same id none pending;
    bounded =
        omega
          (arith, length-put_new id pending t.phases h, length_same t.live t.phases i.same, room);
    inputs = λ j r e. reserved_inputs id t j r i e;
  }

  child_started-IsSlotted :
      (r : DelegationRequest) (t : Turn)
      → has r.tool_use_id t.phases ≡ true
      → IsSlotted o t
      → IsSlotted o (child_started r t)
  child_started-IsSlotted r t h i = record {
    same = same_keys-put t.live t.phases i.same r.tool_use_id (some (input_of r)) (running r);
    bounded = omega (arith, length-put_old r.tool_use_id (running r) t.phases h, i.bounded);
    inputs = λ j q e. started_inputs r t j q i e;
  }

  dropped-IsSlotted : (id : String) (t : Turn) → IsSlotted o t → IsSlotted o (dropped id t)
  dropped-IsSlotted id t i = record {
    same = same_keys-delete t.live t.phases i.same id;
    bounded = omega (arith, length-delete_le id t.phases, i.bounded);
    inputs = λ j r e. dropped_inputs id t j r i e;
  }

  begin-IsSlotted :
      (r : DelegationRequest) (t : Turn)
      → has r.tool_use_id t.phases ≡ false
      → IsSlotted o t
      → IsSlotted o (record {
        live = (begin_admission o r t.live).1;
        phases = phases_after_begin r (begin_admission o r t.live).0 t.phases;
      })
  begin-IsSlotted r t h i =
      let id = r.tool_use_id in
      let none_live = has_same t.live t.phases i.same id ∙ h in
      let change = λ (x : Begun × Live).
        IsSlotted o (record { live = x.1; phases = phases_after_begin r x.0 t.phases }) in
      elim (begin_cases r t.live none_live) [
        | inl (reason, e) ↦ subst change (sym e) i
        | inr (room, inl (key, e)) ↦ subst change (sym e) (reserved-IsSlotted id t h room i)
        | inr (room, inr e) ↦ subst change (sym e) (
            child_started-IsSlotted r (reserved id t) (has-put id pending t.phases)
              (reserved-IsSlotted id t h room i))
      ]

  check_ends-IsSlotted :
      (r : DelegationRequest) (v : ChildBudgetVerdict) (t : Turn)
      → get r.tool_use_id t.phases ≡ some pending
      → IsSlotted o t
      → IsSlotted o (record {
        live = (finish_admission o r v t.live).1;
        phases = phases_after_finish r (finish_admission o r v t.live).0 t.phases;
      })
  unfolding finish_admission
  check_ends-IsSlotted r allowed t e i =
      child_started-IsSlotted r t (has_pending r.tool_use_id t.phases e) i
  check_ends-IsSlotted r (refused reason) t e i = dropped-IsSlotted r.tool_use_id t i

  pub Step-IsSlotted : {t u : Turn} → Step o t u → IsSlotted o t → IsSlotted o u
  Step-IsSlotted {t} (begin r h) i = begin-IsSlotted r t h i
  Step-IsSlotted {t} (check_ends r end e) i =
      check_ends-IsSlotted r (bounded_budget_check end) t e i
  Step-IsSlotted {t} (settled id h) i = unfold settle in dropped-IsSlotted id t i
  Step-IsSlotted (over h) i = idle-IsSlotted

  -- In every state that a turn can reach, whatever its hooks wait for and in whatever order their
  -- checks end, where no hook fires again for a call that is being checked or whose child runs, and
  -- neither a finish nor the turn's end falls on a call that is being checked: the children that run and
  -- the calls that are checked are together at most the cap, every one of them and nothing else holds a
  -- slot, and a child runs with its sanitized input.
  pub Reach-IsSlotted : {t : Turn} → Reach o t → IsSlotted o t
  Reach-IsSlotted here = idle-IsSlotted
  Reach-IsSlotted (next r s) = Step-IsSlotted s (Reach-IsSlotted r)

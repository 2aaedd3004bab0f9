-- ===== src/Engine/Turns.antt =====
-- A turn of src/lib/engine/delegation-gate.ts: its hooks, checks and children in any interleaving.
use agent_studio.Shared.{◌≤◌, String, Bool, true, false, List, [], Option, some, ◌≡◌, length}
use agent_studio.Engine.Slots.{get, put, delete, keys, has}
use agent_studio.Engine.Delegation.{
  DelegationGateOptions, DelegationRequest, DelegationAdmission, admit, refuse, CheckEnd,
  bounded_budget_check, Live, Begun, answered_now, checking, begin_admission, finish_admission,
  settle, admitted_input, sanitize_delegation_input, concurrent_limit,
}

-- Where a call of the turn is: its hook waits for the budget check, or it is admitted and its child
-- has not finished.
pub data Phase : Type 0 where
  pending : Phase
  running : DelegationRequest → Phase

pub record Turn : Type 0 where
  pub live : Live
  pub phases : List (String × Phase)

abbrev pub is_pending : Option Phase → Bool
is_pending (some pending) = true
is_pending _ = false

abbrev pub phases_after_begin :
    DelegationRequest → Begun → List (String × Phase) → List (String × Phase)
phases_after_begin r (checking key) ps = put r.tool_use_id pending ps
phases_after_begin r (answered_now (admit input)) ps =
    put r.tool_use_id (running r) (put r.tool_use_id pending ps)
phases_after_begin r (answered_now (refuse reason)) ps = ps

abbrev pub phases_after_finish :
    DelegationRequest → DelegationAdmission → List (String × Phase) → List (String × Phase)
phases_after_finish r (admit input) ps = put r.tool_use_id (running r) ps
phases_after_finish r (refuse reason) ps = delete r.tool_use_id ps

module _ (o : DelegationGateOptions) where
  -- A hook begins for a call that has none, and ends as its check ends; a child that does not wait for
  -- a check finishes; the turn ends while no hook waits.
  pub data Step (t : Turn) : Turn → Type 0 where
    begin :
        (r : DelegationRequest)
        → has r.tool_use_id t.phases ≡ false
        → Step t (record {
          live = (begin_admission o r t.live).1;
          phases = phases_after_begin r (begin_admission o r t.live).0 t.phases;
        })
    check_ends :
        (r : DelegationRequest) (end : CheckEnd)
        → get r.tool_use_id t.phases ≡ some pending
        → Step t (record {
          live = (finish_admission o r (bounded_budget_check end) t.live).1;
          phases =
              phases_after_finish r
                (finish_admission o r (bounded_budget_check end) t.live).0
                t.phases;
        })
    settled :
        (id : String)
        → is_pending (get id t.phases) ≡ false
        → Step t (record { live = settle id t.live; phases = delete id t.phases })
    over :
        ((id : String) → is_pending (get id t.phases) ≡ false)
        → Step t (record { live = []; phases = [] })

  abbrev pub idle : Turn
  idle = record { live = []; phases = [] }

  pub data Reach : Turn → Type 0 where
    here : Reach idle
    next : {t u : Turn} → Reach t → Step t u → Reach u

  -- Every child that runs holds a slot with the input that it was admitted with, and every hook that
  -- waits holds one; there are no other slots, and no more than the cap.
  pub record IsSlotted (t : Turn) : Type 0 where
    pub same : keys t.live ≡ keys t.phases
    pub bounded : length t.phases ≤ concurrent_limit o
    pub inputs :
        (id : String) (r : DelegationRequest)
        → get id t.phases ≡ some (running r)
        → admitted_input id t.live
          ≡ some (sanitize_delegation_input o.parent_is_claude r.tool_input)

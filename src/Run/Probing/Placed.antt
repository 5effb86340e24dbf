-- ===== src/Run/Probing/Placed.antt =====
-- The state in which `step_probe` leaves a run.
use nguyen_dinh_b.Prelude.{Bool, ◌&&◌, ◌≡◌, ◌≢◌, ◌⊎◌, true, false, Option, List, [], if◌then◌else◌}
use nguyen_dinh_b.Json.{Json, Fields, get_null, truthy}
use nguyen_dinh_b.Python.{Result, ok, PyText}
use nguyen_dinh_b.Allowlist.{Allowlist}
use nguyen_dinh_b.Probe.{HttpRequest}
use nguyen_dinh_b.Approval.{ApprovalDecision}
use nguyen_dinh_b.Run.{RunRecord, RunState, returns, probing, rejected}
use nguyen_dinh_b.Run.Probing.{Probing, sent_by, StepContext, is_denial}

-- The proposal was accepted and has a request.
abbrev pub proposes : Fields → Bool
proposes fs = truthy (get_null "accepted" fs) && truthy (get_null "probe" fs)

-- Where the run stands after the step, by whether something was proposed: as before if nothing was; else
-- no request was made, and the run is rejected if the operator has refused and probing if not, or one
-- was made, and it is probing.
abbrev pub IsPlaced :
    Bool → Option ApprovalDecision → RunState → List HttpRequest → RunState → Type 0
IsPlaced asks decision before made state =
    ((asks ≡ false) × (made ≡ []) × (state ≡ before))
    ⊎ ((asks ≡ true) × (made ≡ []) × (state ≡ (if is_denial decision then rejected else probing)))
    ⊎ ((asks ≡ true) × (made ≢ []) × (state ≡ probing))

-- The same of a program that may return.
abbrev IsPlacing : Bool → Option ApprovalDecision → RunState → Probing → Type 0
IsPlacing asks decision before p =
    (after : RunRecord)
    → p.outcome ≡ returns after
    → IsPlaced asks decision before (sent_by p.deeds) after.state

module _ ⦃py : PyText⦄ (ctx : StepContext) where
  -- where `decided` stands, with the decision
  abbrev pub HasPlace : Fields → Result (Option ApprovalDecision) → RunState → Probing → Type 0
  HasPlace fs m before p =
      (after : RunRecord)
      → p.outcome ≡ returns after
      → (decision : Option ApprovalDecision) × (m ≡ ok decision)
        × IsPlaced (proposes fs) decision before (sent_by p.deeds) after.state

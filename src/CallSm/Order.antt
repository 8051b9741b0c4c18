-- ===== src/CallSm/Order.antt =====
-- The rank of app/models/enums.py orders the transitions of app/state_machines/call_sm.py.
use smart_dialerss.Prelude.{◌<◌, ◌≡◌, ◌↔◌, true, arith}
use smart_dialerss.Enums.{CallState, call_state_eq}
use smart_dialerss.CallSm.{EventApplicability, rank, can_transition, should_apply_event}

-- Every transition raises the rank, so that no call returns to a state that it has left.
pub can_transition-rank :
    (current target : CallState) → can_transition current target ≡ true → rank current < rank target
unfolding can_transition rank
can_transition-rank current target h = ground arith

-- An event is applied exactly if the table has the transition: the two guards before the look-up
-- (terminal, stale) refuse no transition of the table.
pub should_apply-iff-can_transition :
    (current target : CallState)
    → (should_apply_event current target ≡ EventApplicability.apply)
      ↔ (can_transition current target ≡ true)
unfolding should_apply_event can_transition
should_apply-iff-can_transition current target = ground arith

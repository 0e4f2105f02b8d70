-- ===== src/KillSwitch.antt =====
-- The kill switch of crates/trading/src/risk/kill_switch.rs. Its two locks are taken together, so each
-- operation is one step (a check takes them in turn, here at one instant); what it does outside
-- itself, after the latch is set, is a list of effects, of which `cancel_all` is the start of the
-- hook's task. A failure of the store or of the bus is only logged, so it does not show here.
pub mod Latch
mod Tests
use Prim.Native.String.{String}
use hype_edge.Common.{
  Bool, true, false, ◌&&◌, Option, none, some, List, [], ◌∷◌, ◌++◌, if◌then◌else◌,
}
use hype_edge.Common.Result.{Result, ok, err}

pub record KillSwitch : Type 0 where
  pub active : Bool
  pub reason : Option String
  pub kill_switch_enabled : Bool
  pub has_cancel_all : Bool
  pub has_state_store : Bool

-- A transition of the stored state, with its reason and whether the switch is active, the hook that
-- cancels all orders, and the event on the bus.
pub data Effect : Type 0 where
  persist : String → Option String → Bool → String → Effect
  cancel_all : Effect
  publish : String → Effect

pub data KillSwitchError : Type 0 where
  kill_switch_triggered : Option String → KillSwitchError

unfoldable pub new : Bool → KillSwitch
new enabled = record {
  active = false;
  reason = none;
  kill_switch_enabled = enabled;
  has_cancel_all = false;
  has_state_store = false;
}

unfoldable pub with_cancel_all : KillSwitch → KillSwitch
with_cancel_all k = record k { has_cancel_all = true }

unfoldable pub with_state_store : KillSwitch → KillSwitch
with_state_store k = record k { has_state_store = true }

unfoldable pub trigger_effects : KillSwitch → String → List Effect
trigger_effects k reason =
    (if k.has_state_store then persist "halted" (some reason) true "kill_switch" ∷ [] else [])
    ++ (if k.has_cancel_all then cancel_all ∷ [] else [])
    ++ publish reason ∷ []

unfoldable pub trigger : KillSwitch → String → KillSwitch × List Effect
unfolding trigger_effects
trigger k reason =
    if k.active
    then (k, [])
    else (record k { active = true; reason = some reason }, trigger_effects k reason)

unfoldable pub reset : KillSwitch → KillSwitch × List Effect
reset k =
    if k.active
    then (
      record k { active = false; reason = none },
      if k.has_state_store then persist "normal" none false "api_reset" ∷ [] else [],
    )
    else (k, [])

unfoldable pub check : KillSwitch → Result KillSwitchError (Unit {0})
check k = if k.active && k.kill_switch_enabled then err (kill_switch_triggered k.reason) else ok tt

unfoldable pub restore_active : KillSwitch → Option String → KillSwitch
restore_active k reason = record k { active = true; reason = reason }

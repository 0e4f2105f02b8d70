-- ===== src/KillSwitch/Tests.antt =====
-- A switch with a hook and a store that is triggered twice.
use hype_edge.Common.{◌≡◌, refl, true, false, none, some, [], ◌∷◌}
use hype_edge.Common.Result.{err}
use hype_edge.KillSwitch.{
  KillSwitch, persist, cancel_all, publish, kill_switch_triggered, trigger, trigger_effects, reset,
  check,
}
use hype_edge.KillSwitch.Latch.{triggers, HaltsOnce, triggers_once}

abbrev switch : KillSwitch
switch = record {
  active = false;
  reason = none;
  kill_switch_enabled = true;
  has_cancel_all = true;
  has_state_store = true;
}

effects_of_two_triggers :
    (triggers switch ("loss" ∷ "operator" ∷ [])).1
    ≡ persist "halted" (some "loss") true "kill_switch" ∷ cancel_all ∷ publish "loss" ∷ []
unfolding triggers trigger trigger_effects
effects_of_two_triggers = refl

triggers_once_example :
    ((triggers switch ("loss" ∷ "operator" ∷ [])).0
      ≡ record switch { active = true; reason = some "loss" })
    × HaltsOnce switch "loss" (triggers switch ("loss" ∷ "operator" ∷ [])).1
    × (check (triggers switch ("loss" ∷ "operator" ∷ [])).0
        ≡ err (kill_switch_triggered (some "loss")))
    × (reset (triggers switch ("loss" ∷ "operator" ∷ [])).0
        ≡ (switch, persist "normal" none false "api_reset" ∷ []))
triggers_once_example = triggers_once switch "loss" ("operator" ∷ []) refl

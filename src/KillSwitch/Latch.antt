-- ===== src/KillSwitch/Latch.antt =====
-- The kill switch latches, crates/trading/src/risk/kill_switch.rs.
use Prim.Native.String.{String}
use hype_edge.Common.{
  ℕ, suc, ◌≡◌, ◌<◌, refl, ◌∙◌, ap, true, false, none, some, List, [], ◌∷◌, ◌++◌, arith,
  if◌then◌else◌,
}
use hype_edge.Common.Result.{ok, err}
use hype_edge.KillSwitch.{
  KillSwitch, Effect, persist, cancel_all, publish, trigger, trigger_effects, reset, check,
  kill_switch_triggered,
}

-- Triggers one after the other, with all their effects.
unfoldable pub triggers : KillSwitch → List String → KillSwitch × List Effect
unfolding trigger
triggers k [] = (k, [])
triggers k (r ∷ rs) =
    let (k', effects) = trigger k r in let (k'', more) = triggers k' rs in (k'', effects ++ more)

active_triggers : (k : KillSwitch) (rs : List String) → k.active ≡ true → triggers k rs ≡ (k, [])
unfolding triggers
active_triggers k [] h = refl
active_triggers k (r ∷ rs) h = ground (arith, active_triggers k rs h)

append_nil : (es : List Effect) → es ++ [] ≡ es
append_nil [] = refl
append_nil (e ∷ es) = ap (λ (l : List Effect). e ∷ l) (append_nil es)

trigger-inactive :
    (k : KillSwitch) (r : String)
    → k.active ≡ false
    → trigger k r ≡ (record k { active = true; reason = some r }, trigger_effects k r)
unfolding trigger
trigger-inactive k r h = ground arith

triggers-cons :
    (k k' k'' : KillSwitch) (r : String) (rs : List String) (es fs : List Effect)
    → trigger k r ≡ (k', es)
    → triggers k' rs ≡ (k'', fs)
    → triggers k (r ∷ rs) ≡ (k'', es ++ fs)
unfolding triggers
triggers-cons k k' k'' r rs es fs h e = rw h (rw e refl)

once :
    (k : KillSwitch) (r : String) (rs : List String)
    → k.active ≡ false
    → triggers k (r ∷ rs) ≡ (record k { active = true; reason = some r }, trigger_effects k r)
once k r rs h =
    triggers-cons k latched latched r rs (trigger_effects k r) [] (trigger-inactive k r h)
      (active_triggers latched rs refl)
    ∙ ap (λ (es : List Effect). (latched, es)) (append_nil (trigger_effects k r))
  where
    latched : KillSwitch
    latched = record k { active = true; reason = some r }

-- The effects of each kind, whatever stands between them.
abbrev pub persisted : List Effect → List Effect
persisted [] = []
persisted (persist state reason active source ∷ es) =
    persist state reason active source ∷ persisted es
persisted (cancel_all ∷ es) = persisted es
persisted (publish reason ∷ es) = persisted es

abbrev pub cancellations : List Effect → ℕ
cancellations [] = 0
cancellations (persist state reason active source ∷ es) = cancellations es
cancellations (cancel_all ∷ es) = suc (cancellations es)
cancellations (publish reason ∷ es) = cancellations es

abbrev pub published : List Effect → List String
published [] = []
published (persist state reason active source ∷ es) = published es
published (cancel_all ∷ es) = published es
published (publish reason ∷ es) = reason ∷ published es

abbrev stage : Effect → ℕ
stage (persist state reason active source) = 0
stage cancel_all = 1
stage (publish reason) = 2

-- First the store, then the start of the hook, then the bus.
abbrev pub IsStaged : List Effect → Type 0
IsStaged [] = Unit
IsStaged (e ∷ []) = Unit
IsStaged (e ∷ e' ∷ es) = (stage e < stage e') × IsStaged (e' ∷ es)

-- What the effects of halting for a reason are.
abbrev pub HaltsOnce : KillSwitch → String → List Effect → Type 0
HaltsOnce k r es =
    (persisted es
      ≡ (if k.has_state_store then persist "halted" (some r) true "kill_switch" ∷ [] else []))
    × (cancellations es ≡ (if k.has_cancel_all then 1 else 0))
    × (published es ≡ r ∷ [])
    × IsStaged es

trigger_effects-HaltsOnce : (k : KillSwitch) (r : String) → HaltsOnce k r (trigger_effects k r)
unfolding trigger_effects
trigger_effects-HaltsOnce k r = ground arith

-- An inactive kill switch that is triggered one or more times is active with the first reason.
-- Over all the triggers, the halted state is persisted once, with the first reason, if there is
-- a store and never otherwise; the hook that cancels all orders is started once if there is one;
-- the first reason, and nothing else, is published; and these come in this order. An order check
-- fails with the first reason if the switch is enabled and passes otherwise, and one reset
-- clears the switch and persists the normal state, once, if there is a store.
pub triggers_once :
    (k : KillSwitch) (r : String) (rs : List String)
    → k.active ≡ false
    → ((triggers k (r ∷ rs)).0 ≡ record k { active = true; reason = some r })
      × HaltsOnce k r (triggers k (r ∷ rs)).1
      × (check (triggers k (r ∷ rs)).0
          ≡ (if k.kill_switch_enabled then err (kill_switch_triggered (some r)) else ok tt))
      × (reset (triggers k (r ∷ rs)).0 ≡ (
        record k { active = false; reason = none },
        if k.has_state_store then persist "normal" none false "api_reset" ∷ [] else [],
      ))
unfolding check reset
triggers_once k r rs h = rw (once k r rs h) (refl, trigger_effects-HaltsOnce k r, refl, refl)

-- ===== src/DispatchGuard/Admission.antt =====
-- What the dispatch guard lets through.
use text.Mathlib.TextEquality.{eq_iff}
use hype_edge.Common.{◌≡◌, ◌↔◌, ◌⊎◌, true, arith}
use hype_edge.Common.Int.{◌<ℤ◌, eq_ℤ→eq, eq_ℤ-refl}
use hype_edge.DispatchGuard.{
  ChildActionType, cancel, allow, DispatchGuardContext, evaluate_dispatch_guard,
}

-- Every admission fact holds.
pub record IsAdmitted (c : DispatchGuardContext) : Type 0 where
  pub market : c.market_fresh ≡ true
  pub account : c.account_fresh ≡ true
  pub user_stream : c.user_stream_fresh ≡ true
  pub postgres : c.postgres_fresh ≡ true
  pub safety : c.safety_allows_place ≡ true
  pub lifecycle : c.lifecycle_allows_place ≡ true
  pub budget : c.budget_allows_place ≡ true
  pub reservation : c.reservation_valid ≡ true
  pub alo : c.alo_valid ≡ true

-- The plan, the configuration, the session and the connection are still those that the child was
-- planned for.
pub record IsCurrent (c : DispatchGuardContext) : Type 0 where
  pub session : c.expected_session_id ≡ c.active_session_id
  pub config_version : c.expected_config_version ≡ c.active_config_version
  pub plan_revision : c.expected_plan_revision ≡ c.active_plan_revision
  pub connection : c.expected_connection_generation ≡ c.active_connection_generation

module _ (a : ChildActionType) (c : DispatchGuardContext) where
  guard_sound :
      evaluate_dispatch_guard a c ≡ allow
      → (a ≡ cancel) ⊎ ((c.now <ℤ c.deadline) × IsCurrent c × IsAdmitted c)
  unfolding evaluate_dispatch_guard
  guard_sound h = ground (
    arith,
    eq_iff c.expected_session_id c.active_session_id,
    eq_ℤ→eq c.expected_config_version c.active_config_version,
    eq_ℤ→eq c.expected_plan_revision c.active_plan_revision,
    eq_ℤ→eq c.expected_connection_generation c.active_connection_generation,
  )

  guard_complete :
      (a ≡ cancel) ⊎ ((c.now <ℤ c.deadline) × IsCurrent c × IsAdmitted c)
      → evaluate_dispatch_guard a c ≡ allow
  unfolding evaluate_dispatch_guard
  guard_complete h = ground (
    arith,
    eq_iff c.expected_session_id c.active_session_id,
    eq_ℤ-refl c.active_config_version,
    eq_ℤ-refl c.active_plan_revision,
    eq_ℤ-refl c.active_connection_generation,
  )

  -- The guard allows a child exactly when it is a cancel, or when the deadline is still ahead,
  -- the session, configuration version, plan revision and connection are those expected, and all
  -- nine admission facts hold.
  pub guard_allows_iff :
      (evaluate_dispatch_guard a c ≡ allow)
      ↔ ((a ≡ cancel) ⊎ ((c.now <ℤ c.deadline) × IsCurrent c × IsAdmitted c))
  guard_allows_iff = (guard_sound, guard_complete)

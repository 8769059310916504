-- ===== src/Domain/Policy/Sets.antt =====
-- The four sets of action kinds.
use ai_coding_agent_harness.Base.{ℕ, ◌+◌, ◌≡◌, refl, Bool, true, false}
use ai_coding_agent_harness.Domain.Actions.{
  PolicyActionKind, allow_actions, approval_actions, unsupported_actions, hard_deny_actions,
}

abbrev bit : Bool → ℕ
bit true = 1
bit false = 0

-- Every action kind is in exactly one of the four sets.
pub one_set :
    (k : PolicyActionKind)
    → bit (hard_deny_actions k)
        + bit (unsupported_actions k)
        + bit (approval_actions k)
        + bit (allow_actions k)
      ≡ 1
unfolding allow_actions approval_actions unsupported_actions hard_deny_actions
one_set PolicyActionKind.inspect_repository = refl
one_set _ = refl

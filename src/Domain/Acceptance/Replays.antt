-- ===== src/Domain/Acceptance/Replays.antt =====
-- A confirmation that is sent again is answered as a replay.
use ai_coding_agent_harness.Base.{
  reverse, find_first-here, sym, reverse-snoc, find_first, inl, inr, exact, Option-cases,
  Bool-cases, some, Object, ◌≡◌, refl, true, ◌==◌, text_comparable, arith, same_iff, ◌∙◌,
}
use ai_coding_agent_harness.Domain.Models.{ContractVersion}
use ai_coding_agent_harness.Domain.AcceptanceModels.{AcceptanceCondition, AcceptanceContract}
use ai_coding_agent_harness.Domain.Acceptance.{
  replayed_update, some_holds, prior_event, answer_to, apply_user_confirmation,
  AcceptanceUpdateResult, invalid_update, AcceptanceHistoryEvent, command_outcome,
  UserConfirmationCommand, updated_contract,
}
use ai_coding_agent_harness.Domain.Acceptance.Updates.{command_answer_cases}

prior_event-updated :
    (command : UserConfirmationCommand) (contract : AcceptanceContract) (c : AcceptanceCondition)
    (v : ContractVersion)
    → prior_event
        (updated_contract contract (command_outcome contract command c v) v)
        command.idempotency_key
      ≡ some (command_outcome contract command c v).event
unfolding prior_event updated_contract command_outcome find_first
prior_event-updated command contract c v =
    rw (reverse-snoc contract.history (command_outcome contract command c v).event) (
      find_first-here (λ e. some_holds (λ k. k == command.idempotency_key) e.idempotency_key)
        (command_outcome contract command c v).event (reverse contract.history)
        ((same_iff command.idempotency_key command.idempotency_key).1 refl))

digest_of_update :
    (command : UserConfirmationCommand) (contract : AcceptanceContract) (c : AcceptanceCondition)
    (v : ContractVersion)
    → some_holds
        (λ d. d == command.request_digest)
        (command_outcome contract command c v).event.request_digest
      ≡ true
unfolding command_outcome
digest_of_update command contract c v =
    (same_iff command.request_digest command.request_digest).1 refl

-- The answer to a command under whose key the latest event has its digest.
replays :
    (command : UserConfirmationCommand) (contract : AcceptanceContract)
    (again : Object ContractVersion) (prior : AcceptanceHistoryEvent)
    → prior_event contract command.idempotency_key ≡ some prior
    → some_holds (λ d. d == command.request_digest) prior.request_digest ≡ true
    → apply_user_confirmation (exact contract) (exact command) again
      ≡ some (replayed_update contract)
unfolding apply_user_confirmation answer_to
replays command contract again prior seen same = simp (seen, same)

-- A confirmation that was accepted is answered as a replay when it is sent again, whatever version
-- comes with it, and the contract stays as it is.
pub confirmation_replay :
    (command : UserConfirmationCommand) (contract : AcceptanceContract)
    (new_version again : Object ContractVersion) {r : AcceptanceUpdateResult}
    → apply_user_confirmation (exact contract) (exact command) new_version ≡ some r
    → r.accepted ≡ true
    → apply_user_confirmation (exact r.contract) (exact command) again
      ≡ some (replayed_update r.contract)
unfolding apply_user_confirmation answer_to invalid_update replayed_update
confirmation_replay command contract new_version again {r} h accepted =
    elim (Option-cases (prior_event contract command.idempotency_key)) [
      | inr (prior, seen) ↦
          elim (Bool-cases (some_holds (λ d. d == command.request_digest) prior.request_digest)) [
            | inl same ↦
                let kept : r.contract ≡ contract = ground arith in
                rw kept (replays command contract again prior seen same)
            | inr differs ↦ absurd (ground arith)
          ]
      | inl fresh ↦
          elim (command_answer_cases command contract new_version (sym (simp fresh) ∙ h)) [
            | inl (refused, same) ↦ absurd (ground arith)
            | inr changes ↦
                let outcome = command_outcome contract command changes.condition changes.version in
                rw changes.updated (
                  replays command (updated_contract contract outcome changes.version) again
                    outcome.event
                    (prior_event-updated command contract changes.condition changes.version)
                    (digest_of_update command contract changes.condition changes.version))
          ]
    ]

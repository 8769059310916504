-- ===== src/Domain/StateMachine/Replay.antt =====
-- Idempotency: a request that was answered is answered again from its record, and never applied
-- twice.
use ai_coding_agent_harness.Base.{
  sym, ◌∙◌, refl, ◌≡◌, ◌≢◌, false, none, some, arith, text_equals_iff,
}
use ai_coding_agent_harness.Domain.Enums.{IdempotencyStatus}
use ai_coding_agent_harness.Domain.Models.{IdempotencyRecord, TransitionCommand, TransitionResult}
use ai_coding_agent_harness.Domain.StateMachine.{
  transition, checked_transition, table_transition, cancel, block, fail, idempotency_replay,
  replay_of,
}
use ai_coding_agent_harness.Domain.StateMachine.Branches.{unseen-no_replay}
use ai_coding_agent_harness.Domain.StateMachine.Spec.{IsUnseen}

-- The record of a fresh answer: what was asked and what came out.
abbrev Records : TransitionCommand → TransitionResult → Type 0
Records c r =
    (r.idempotency_record
      ≡ some (record {
        key = c.idempotency.key;
        request_digest = c.idempotency.request_digest;
        source = r.source;
        target = r.target;
        trigger = r.audit.trigger;
        permitted = r.permitted;
        reason = r.reason;
      }))
    × (r.audit ≡ record {
      source = r.source;
      target = r.target;
      trigger = r.audit.trigger;
      permitted = r.permitted;
      reason = r.reason;
    })

cancel-Records : (c : TransitionCommand) → Records c (cancel c)
unfolding cancel
cancel-Records c = ground arith

block-Records : (c : TransitionCommand) → Records c (block c)
unfolding block
block-Records c = ground arith

fail-Records : (c : TransitionCommand) → Records c (fail c)
unfolding fail
fail-Records c = ground arith

table_transition-Records : (c : TransitionCommand) → Records c (table_transition c)
unfolding table_transition
table_transition-Records c = ground arith

checked-Records : (c : TransitionCommand) → Records c (checked_transition c)
unfolding checked_transition
checked-Records c =
    ground (arith, cancel-Records c, block-Records c, fail-Records c, table_transition-Records c)

fresh-Records : (c : TransitionCommand) → idempotency_replay c ≡ none → Records c (transition c)
unfolding transition
fresh-Records c e = ground (arith, checked-Records c)

transition-replay_of :
    (c : TransitionCommand) (prior : IdempotencyRecord)
    → c.prior_idempotency ≡ some prior
    → prior.key ≡ c.idempotency.key
    → prior.request_digest ≡ c.idempotency.request_digest
    → transition c ≡ replay_of prior
unfolding transition idempotency_replay
transition-replay_of c prior e k d = ground (
  arith,
  text_equals_iff prior.key c.idempotency.key,
  text_equals_iff prior.request_digest c.idempotency.request_digest,
)

replay_of_record :
    (c : TransitionCommand) (r : TransitionResult) {prior : IdempotencyRecord}
    → Records c r
    → r.idempotency_record ≡ some prior
    → replay_of prior ≡ record r {
      should_apply = false;
      changed = false;
      lease_acquisition_required = false;
      agent_loop_resume_permitted = false;
      idempotency_status = IdempotencyStatus.replayed;
    }
unfolding replay_of
replay_of_record c r h e = ground arith

-- What is sent again under the same key and digest, whatever else it says, is answered by the
-- first answer, marked as a replay: nothing is applied or changed, and no lease or agent loop
-- is asked for.
pub transition-transition :
    (c again : TransitionCommand)
    → IsUnseen c.prior_idempotency c.idempotency.key
    → again.idempotency ≡ c.idempotency
    → again.prior_idempotency ≡ (transition c).idempotency_record
    → transition again ≡ record (transition c) {
      should_apply = false;
      changed = false;
      lease_acquisition_required = false;
      agent_loop_resume_permitted = false;
      idempotency_status = IdempotencyStatus.replayed;
    }
transition-transition c again u same recorded =
    let h = fresh-Records c (unseen-no_replay c.prior_idempotency c refl u) in
    transition-replay_of again _ (recorded ∙ h.0) (ground arith) (ground arith)
    ∙ replay_of_record c (transition c) h h.0

conflict_answer :
    (c : TransitionCommand) (prior : IdempotencyRecord)
    → c.prior_idempotency ≡ some prior
    → prior.key ≡ c.idempotency.key
    → prior.request_digest ≢ c.idempotency.request_digest
    → let r = transition c in
      (r.permitted ≡ false)
      × (r.should_apply ≡ false)
      × (r.changed ≡ false)
      × (r.target ≡ c.current_state)
      × (r.idempotency_status ≡ IdempotencyStatus.conflict)
      × (r.idempotency_record ≡ some prior)
unfolding transition idempotency_replay
conflict_answer c prior e k d = ground (
  arith,
  text_equals_iff prior.key c.idempotency.key,
  text_equals_iff prior.request_digest c.idempotency.request_digest,
)

-- A key is taken by its first request. What is sent under the same key with another digest, whatever
-- else it says, is a conflict that changes nothing and hands the record of the first request on,
-- so that a first request which is sent again after it is still answered by the first answer,
-- marked as a replay.
pub transition-conflict :
    (c reused again : TransitionCommand)
    → IsUnseen c.prior_idempotency c.idempotency.key
    → reused.idempotency.key ≡ c.idempotency.key
    → reused.idempotency.request_digest ≢ c.idempotency.request_digest
    → reused.prior_idempotency ≡ (transition c).idempotency_record
    → again.idempotency ≡ c.idempotency
    → again.prior_idempotency ≡ (transition reused).idempotency_record
    → ((transition reused).idempotency_status ≡ IdempotencyStatus.conflict)
      × ((transition reused).permitted ≡ false)
      × ((transition reused).should_apply ≡ false)
      × ((transition reused).changed ≡ false)
      × ((transition reused).target ≡ reused.current_state)
      × ((transition reused).idempotency_record ≡ (transition c).idempotency_record)
      × (transition again ≡ record (transition c) {
        should_apply = false;
        changed = false;
        lease_acquisition_required = false;
        agent_loop_resume_permitted = false;
        idempotency_status = IdempotencyStatus.replayed;
      })
transition-conflict c reused again unseen key digest recorded same kept =
    let h = fresh-Records c (unseen-no_replay c.prior_idempotency c refl unseen) in
    let (refused, quiet, still, target, status, record_kept) =
      conflict_answer reused _ (recorded ∙ h.0) (sym key) (λ e. digest (sym e)) in
    (
      status,
      refused,
      quiet,
      still,
      target,
      record_kept ∙ sym h.0,
      transition-transition c again unseen same (kept ∙ record_kept ∙ sym h.0),
    )

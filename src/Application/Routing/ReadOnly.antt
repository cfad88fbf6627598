-- ===== src/Application/Routing/ReadOnly.antt =====
-- The checks of a command write nothing, and nothing but a handler writes the inbox before its end.
use hibiki.Prelude.{ℕ, refl, List, Bool, true, false, not, Option, none, some, ◌==◌, eq_option}
use hibiki.Domain.Errors.{ErrorClass, Code}
use hibiki.Domain.Guards.{Operation}
use hibiki.Persistence.Models.{Store, InboxRow, IdempotencyRow}
use hibiki.Persistence.Session.Frame.{
  Keeps, bind-Keeps, gets-Keeps, pure-Keeps, fail_if-Keeps, modify-Keeps,
}
use hibiki.Application.Routing.{
  Payload, decision_task, run_task, workspace_task, effect_task, follow_key, follow_unless,
  follow_keys, agree, command_task_id, is_create_task,
}
use hibiki.Application.Runs.{differs}
use hibiki.Application.Routing.Idempotency.{
  IdempotencyKey, check_idempotency, or_legacy, adopt_legacy, adopt, replay_row, stored_fields,
  success_of, set_task_id,
}

module _ {ℓ} {C : Type ℓ} (g : Store → C) where
  agree-Keeps : (owner supplied : Option ℕ) → Keeps g (agree owner supplied)
  agree-Keeps none supplied = pure-Keeps g supplied
  agree-Keeps (some t) supplied =
      bind-Keeps g _ _
        (fail_if-Keeps g (differs supplied t) ErrorClass.authorization Code.authorization_denied)
        (λ _. pure-Keeps g (some t))

  follow_key-Keeps :
      (k : Option ℕ) (task_of : ℕ → Store → Option ℕ) (supplied : Option ℕ)
      → Keeps g (follow_key k task_of supplied)
  follow_key-Keeps none task_of supplied = pure-Keeps g supplied
  follow_key-Keeps (some k) task_of supplied =
      bind-Keeps g _ _ (gets-Keeps g (task_of k)) (λ owner. agree-Keeps owner supplied)

  follow_keys-Keeps : (p : Payload) → Keeps g (follow_keys p)
  follow_keys-Keeps p =
      bind-Keeps g _ _ (follow_key-Keeps p.decision_id decision_task p.task_id) (λ t1.
        bind-Keeps g _ _ (follow_key-Keeps p.run_id run_task t1) (λ t2.
          bind-Keeps g _ _ (follow_key-Keeps p.workspace_id workspace_task t2)
            (λ t3. follow_key-Keeps p.effect_id effect_task t3)))

  follow_unless-Keeps : (b : Bool) (p : Payload) → Keeps g (follow_unless b p)
  follow_unless-Keeps true p = pure-Keeps g none
  follow_unless-Keeps false p = follow_keys-Keeps p

  pub command_task_id-Keeps :
      (operation : Operation) (p : Payload) → Keeps g (command_task_id operation p)
  unfolding command_task_id
  command_task_id-Keeps operation p = follow_unless-Keeps (is_create_task operation) p

  replay_row-Keeps :
      (payload_hash : ℕ) (row : Option IdempotencyRow) → Keeps g (replay_row payload_hash row)
  replay_row-Keeps payload_hash none = pure-Keeps g none
  replay_row-Keeps payload_hash (some row) =
      bind-Keeps g _ _
        (fail_if-Keeps g (not (row.payload_hash == payload_hash)) ErrorClass.idempotency_conflict
          Code.idempotency_conflict)
        (λ _. pure-Keeps g (some (success_of row.result_data)))

abbrev pub inbox_of : Store → List InboxRow
inbox_of s = s.inbox

adopt-Keeps :
    (k : IdempotencyKey) (row : IdempotencyRow) (b : Bool) → Keeps inbox_of (adopt k row b)
adopt-Keeps k row false = pure-Keeps inbox_of none
adopt-Keeps k row true =
    bind-Keeps inbox_of _ _ (modify-Keeps inbox_of _ (λ s. refl))
      (λ _. pure-Keeps inbox_of (some (set_task_id k.task_id row)))

adopt_legacy-Keeps :
    (fields : ℕ → Payload) (k : IdempotencyKey) (o : Option IdempotencyRow)
    → Keeps inbox_of (adopt_legacy fields k o)
adopt_legacy-Keeps fields k none = pure-Keeps inbox_of none
adopt_legacy-Keeps fields k (some row) =
    bind-Keeps inbox_of _ _
      (command_task_id-Keeps inbox_of k.operation (stored_fields fields row.result_data))
      (λ target. adopt-Keeps k row (eq_option target k.task_id))

or_legacy-Keeps :
    (fields : ℕ → Payload) (k : IdempotencyKey) (o : Option IdempotencyRow) (tid : Option ℕ)
    → Keeps inbox_of (or_legacy fields k o tid)
or_legacy-Keeps fields k (some row) tid = pure-Keeps inbox_of (some row)
or_legacy-Keeps fields k none none = pure-Keeps inbox_of none
or_legacy-Keeps fields k none (some _) =
    bind-Keeps inbox_of _ _ (gets-Keeps inbox_of _) (λ o. adopt_legacy-Keeps fields k o)

pub check_idempotency-Keeps :
    (fields : ℕ → Payload) (k : IdempotencyKey) (payload_hash : ℕ)
    → Keeps inbox_of (check_idempotency fields k payload_hash)
unfolding check_idempotency
check_idempotency-Keeps fields k payload_hash =
    bind-Keeps inbox_of _ _ (gets-Keeps inbox_of _) (λ found.
      bind-Keeps inbox_of _ _ (or_legacy-Keeps fields k found k.task_id)
        (λ row. replay_row-Keeps inbox_of payload_hash row))

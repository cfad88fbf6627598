-- ===== src/Application/Routing/Idempotency.antt =====
-- service.py: the results that are kept under an idempotency key of the client. `fields` stands for
-- json.loads on the text of a result, and tells the identifiers that it holds.
use hibiki.Prelude.{
  ℕ, Bool, true, false, not, ◌&&◌, Option, none, some, List, [], ◌∷◌, ◌++◌, str_eq, ◌==◌, eq_option,
  if◌then◌else◌,
}
use hibiki.Domain.Errors.{ErrorClass, Code}
use hibiki.Domain.Guards.{Operation}
use hibiki.Persistence.Models.{IdempotencyRow}
use hibiki.Persistence.Session.{M, gets, modify, fail, fail_if, pure, ◌>>=◌, ◌>>◌}
use hibiki.Application.Routing.{Payload, Answer, command_task_id, operation_name}

-- The columns that a key is unique in: who asks, for which task, which operation, and the key.
pub record IdempotencyKey : Type 0 where
  pub principal_id : ℕ
  pub task_id : Option ℕ
  pub operation : Operation
  pub key : ℕ

abbrev pub has_key : IdempotencyKey → IdempotencyRow → Bool
has_key k row =
    row.principal_id == k.principal_id
    && eq_option row.task_id k.task_id
    && str_eq row.operation_type (operation_name k.operation)
    && row.idempotency_key == k.key

abbrev pub find_idempotency : IdempotencyKey → List IdempotencyRow → Option IdempotencyRow
find_idempotency k [] = none
find_idempotency k (row ∷ rows) = if has_key k row then some row else find_idempotency k rows

-- `legacy.task_id = tid` on the row that the query finds first.
abbrev pub adopt_row : IdempotencyKey → Option ℕ → List IdempotencyRow → List IdempotencyRow
adopt_row k tid [] = []
adopt_row k tid (row ∷ rows) =
    let rest = adopt_row k tid rows in
    if has_key k row then record row { task_id = tid } ∷ rows else row ∷ rest

abbrev pub without_task : IdempotencyKey → IdempotencyKey
without_task k = record k { task_id = none }

abbrev pub set_task_id : Option ℕ → IdempotencyRow → IdempotencyRow
set_task_id tid row = record row { task_id = tid }

-- The identifiers of a stored result; an empty one holds none.
abbrev pub stored_fields : (ℕ → Payload) → Option ℕ → Payload
stored_fields fields (some d) = fields d
stored_fields fields none = record {
  task_id = none;
  decision_id = none;
  run_id = none;
  workspace_id = none;
  effect_id = none;
  fencing_epoch = none;
}

abbrev pub adopt : IdempotencyKey → IdempotencyRow → Bool → M (Option IdempotencyRow)
adopt k row false = pure none
adopt k row true = do
  modify (λ s. record s { idempotency = adopt_row (without_task k) k.task_id s.idempotency })
  pure (some (set_task_id k.task_id row))

-- A row of the empty namespace is adopted if its recorded target belongs to the task.
abbrev pub adopt_legacy :
    (ℕ → Payload) → IdempotencyKey → Option IdempotencyRow → M (Option IdempotencyRow)
adopt_legacy fields k none = pure none
adopt_legacy fields k (some row) = do
  target ← command_task_id k.operation (stored_fields fields row.result_data)
  adopt k row (eq_option target k.task_id)

abbrev pub or_legacy :
    (ℕ → Payload) → IdempotencyKey → Option IdempotencyRow → Option ℕ → M (Option IdempotencyRow)
or_legacy fields k (some row) tid = pure (some row)
or_legacy fields k none none = pure none
or_legacy fields k none (some _) = do
  legacy ← gets (λ s. find_idempotency (without_task k) s.idempotency)
  adopt_legacy fields k legacy

abbrev pub success_of : Option ℕ → Answer
success_of d = record { succeeded = true; result_data = d; error_code = none; replayed = true }

abbrev pub replay_row : ℕ → Option IdempotencyRow → M (Option Answer)
replay_row payload_hash none = pure none
replay_row payload_hash (some row) = do
  fail_if (not (row.payload_hash == payload_hash)) ErrorClass.idempotency_conflict
      Code.idempotency_conflict
  pure (some (success_of row.result_data))

-- A create_task has no task id, so its key never asks for a legacy row.
unfoldable pub check_idempotency : (ℕ → Payload) → IdempotencyKey → ℕ → M (Option Answer)
unfolding command_task_id
check_idempotency fields k payload_hash = do
  found ← gets (λ s. find_idempotency k s.idempotency)
  row ← or_legacy fields k found k.task_id
  replay_row payload_hash row

abbrev pub idempotency_row : IdempotencyKey → ℕ → Answer → IdempotencyRow
idempotency_row k payload_hash a = record {
  principal_id = k.principal_id;
  task_id = k.task_id;
  operation_type = operation_name k.operation;
  idempotency_key = k.key;
  payload_hash = payload_hash;
  result_data = a.result_data;
}

abbrev pub add_key : IdempotencyRow → Option IdempotencyRow → M (Unit {0})
add_key row (some _) = fail ErrorClass.integrity Code.unique_constraint
add_key row none = modify (λ s. record s { idempotency = s.idempotency ++ (row ∷ []) })

-- The key is unique in its table.
abbrev pub store_key : Bool → IdempotencyKey → IdempotencyRow → M (Unit {0})
store_key false k row = pure tt
store_key true k row = do taken ← gets (λ s. find_idempotency k s.idempotency); add_key row taken

unfoldable pub store_idempotency : IdempotencyKey → ℕ → Answer → M (Unit {0})
store_idempotency k payload_hash a = store_key a.succeeded k (idempotency_row k payload_hash a)

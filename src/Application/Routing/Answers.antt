-- ===== src/Application/Routing/Answers.antt =====
-- What a command that returns leaves in the inbox, and what the inbox and the keys answer.
use hibiki.Prelude.{
  ℕ, ◌≡◌, refl, sym, ap, ◌∙◌, inl, inr, true, false, Option, none, some, [], ◌∷◌, ◌++◌, arith, ◌==◌,
  Option-cases, Bool-cases, if◌then◌else◌,
}
use mathlib.Core.Path.{subst}
use hibiki.Domain.Errors.{DomainError, ok, err}
use hibiki.Domain.Guards.{Operation}
use hibiki.Domain.Types.{AuthContext}
use hibiki.Persistence.Models.{Store, InboxRow, IdempotencyRow}
use hibiki.Persistence.Session.{M, done, raised, pure, ◌>>=◌, run}
use hibiki.Persistence.Session.Frame.{
  Keeps, Ensures, bind-Ensures, Ensures-done, bind-eq, bind-raised,
}
use hibiki.Application.Routing.ReadOnly.{inbox_of, check_idempotency-Keeps}
use hibiki.Application.Routing.{
  Payload, Delivery, has_clash, Answer, answer_of, or_else, command_task_id, authorize_run_command,
  find_inbox, inbox_row, replay_of, store_inbox,
}
use hibiki.Application.Routing.Idempotency.{
  IdempotencyKey, stored_fields, find_idempotency, success_of, check_idempotency, store_idempotency,
}
use hibiki.Application.Routing.Execute.{
  Handlers, scope, execute_in_tx, check_inbox, call_handler, run_handler, after_replay, after_inbox,
  key_of,
}
use hibiki.Application.Routing.Stored.{
  IsNew, IsAnswered, IsStored, inbox_conflict, idempotency_conflict, store_inbox-Ensures,
  store_idempotency-Keeps,
}

pub check_inbox-new :
    (auth : AuthContext) (d : Delivery) (s : Store)
    → find_inbox auth.actor_id d.message_id s.inbox ≡ none
    → check_inbox auth d.message_id d.payload_hash s ≡ done none s
unfolding check_inbox
check_inbox-new auth d s n = ground arith

pub check_inbox-same :
    (auth : AuthContext) (d : Delivery) (row : InboxRow) (s : Store)
    → find_inbox auth.actor_id d.message_id s.inbox ≡ some row
    → (row.payload_hash == d.payload_hash) ≡ true
    → check_inbox auth d.message_id d.payload_hash s ≡ done (some (replay_of row)) s
unfolding check_inbox
check_inbox-same auth d row s f same = ground arith

pub check_inbox-other :
    (auth : AuthContext) (d : Delivery) (row : InboxRow) (s : Store)
    → find_inbox auth.actor_id d.message_id s.inbox ≡ some row
    → (row.payload_hash == d.payload_hash) ≡ false
    → check_inbox auth d.message_id d.payload_hash s ≡ raised inbox_conflict s
unfolding check_inbox
check_inbox-other auth d row s f other = ground arith

pub rolled_back :
    {A : Type 0} (m : M A) (s : Store) (e : DomainError) (s' : Store)
    → m s ≡ raised e s'
    → run m s ≡ (err e, s)
unfolding run
rolled_back m s e s' h = ap (λ x. elim x [ done a s' ↦ (ok a, s') | raised e s' ↦ (err e, s) ]) h

check_idempotency-found :
    (fields : ℕ → Payload) (k : IdempotencyKey) (payload_hash : ℕ) (row : IdempotencyRow)
    (s : Store)
    → find_idempotency k s.idempotency ≡ some row
    → check_idempotency fields k payload_hash s ≡ (
        if row.payload_hash == payload_hash
        then done (some (success_of row.result_data)) s
        else raised idempotency_conflict s)
unfolding check_idempotency
check_idempotency-found fields k payload_hash row s f = ground arith

-- Authorized, against the database as it is now.
abbrev pub IsAdmitted : AuthContext → Operation → Payload → Option ℕ → Store → Type 0
IsAdmitted auth operation p task_id s =
    (command_task_id operation p s ≡ done task_id s)
    × (authorize_run_command auth operation p s ≡ done tt s)

module _ (hs : Handlers) (auth : AuthContext) (operation : Operation) (p : Payload)
    (d : Delivery) where
  abbrev KeepsInbox : Type 0
  KeepsInbox = Keeps inbox_of (call_handler (hs.handler_of operation) auth p)

  -- The last two statements: the answer is stored and handed back.
  stored_answer :
      (a : Answer) (task_id : Option ℕ) (s : Store)
      → IsNew auth d s
      → Ensures (IsAnswered auth d) ((store_inbox auth task_id operation d a >>= λ _. pure a) s)
  stored_answer a task_id s n =
      bind-Ensures (IsAnswered auth d) (store_inbox auth task_id operation d a) _ s (λ _ s1 e.
        Ensures-done (IsStored auth d a) (store_inbox auth task_id operation d a) s tt s1
          (store_inbox-Ensures auth task_id operation d a s n) e)

  run_handler-Ensures :
      KeepsInbox
      → (task_id : Option ℕ) (s : Store) → IsNew auth d s
      → Ensures (IsAnswered auth d) (run_handler hs auth operation p d task_id s)
  unfolding run_handler
  run_handler-Ensures keeps task_id s n =
      bind-Ensures (IsAnswered auth d) (call_handler (hs.handler_of operation) auth p) _ s
        (λ r s1 e.
          let a = answer_of r in
          let stored = or_else task_id (stored_fields hs.fields a.result_data).task_id in
          let k = key_of auth operation stored d in
          bind-Ensures (IsAnswered auth d) (store_idempotency k d.payload_hash a) _ s1 (λ _ s2 f.
            stored_answer a (scope operation stored) s2 (
              ap (find_inbox auth.actor_id d.message_id)
                (store_idempotency-Keeps k d.payload_hash a s1 tt s2 f ∙ keeps s r s1 e)
              ∙ n)))

  after_replay-Ensures :
      KeepsInbox
      → (task_id : Option ℕ) (replay : Option Answer) (s : Store) → IsNew auth d s
      → Ensures (IsAnswered auth d) (after_replay hs auth operation p d task_id replay s)
  unfolding after_replay
  after_replay-Ensures keeps task_id none s n = run_handler-Ensures keeps task_id s n
  after_replay-Ensures keeps task_id (some a) s n = stored_answer a task_id s n

  after_inbox-Ensures :
      KeepsInbox
      → (task_id : Option ℕ) (s : Store) → IsNew auth d s
      → Ensures (IsAnswered auth d) (after_inbox hs auth operation p d task_id none s)
  unfolding after_inbox
  after_inbox-Ensures keeps task_id s n =
      let k = key_of auth operation task_id d in
      bind-Ensures (IsAnswered auth d) (check_idempotency hs.fields k d.payload_hash) _ s
        (λ replay s1 e. after_replay-Ensures keeps task_id replay s1 (
          ap (find_inbox auth.actor_id d.message_id)
            (check_idempotency-Keeps hs.fields k d.payload_hash s replay s1 e)
          ∙ n))

  -- The part of `_execute_in_tx` that follows the authorization.
  abbrev deduplicated : Option ℕ → M Answer
  deduplicated task_id =
      check_inbox auth d.message_id d.payload_hash >>= after_inbox hs auth operation p d task_id

  deduplicated-Ensures :
      KeepsInbox
      → (task_id : Option ℕ) (s : Store) → Ensures (IsAnswered auth d) (deduplicated task_id s)
  unfolding after_inbox
  deduplicated-Ensures keeps task_id s =
      let check = check_inbox auth d.message_id d.payload_hash in
      let next = after_inbox hs auth operation p d task_id in
      let goal = Ensures (IsAnswered auth d) in
      elim (Option-cases (find_inbox auth.actor_id d.message_id s.inbox)) [
        | inl n ↦
            subst goal (sym (bind-eq check next s none s (check_inbox-new auth d s n)))
              (after_inbox-Ensures keeps task_id s n)
        | inr (row, f) ↦ elim (Bool-cases (row.payload_hash == d.payload_hash)) [
          | inl same ↦
              subst goal
                (sym (
                  bind-eq check next s (some (replay_of row)) s
                    (check_inbox-same auth d row s f same)))
                (row, f, same, refl)
          | inr other ↦
              subst goal
                (sym (
                  bind-raised check next s inbox_conflict s
                    (check_inbox-other auth d row s f other)))
                tt
        ]
      ]

  pub execute_in_tx-Ensures :
      KeepsInbox → (s : Store) → Ensures (IsAnswered auth d) (execute_in_tx hs auth operation p d s)
  unfolding execute_in_tx
  execute_in_tx-Ensures keeps s =
      bind-Ensures (IsAnswered auth d) (command_task_id operation p) _ s (λ task_id s1 _.
        bind-Ensures (IsAnswered auth d) (authorize_run_command auth operation p) _ s1
          (λ _ s2 _. deduplicated-Ensures keeps task_id s2))

  pub execute_in_tx-admitted :
      (task_id : Option ℕ) (s : Store)
      → IsAdmitted auth operation p task_id s
      → execute_in_tx hs auth operation p d s ≡ deduplicated task_id s
  unfolding execute_in_tx
  execute_in_tx-admitted task_id s (t, a) =
      bind-eq (command_task_id operation p) _ s task_id s t
      ∙ bind-eq (authorize_run_command auth operation p) (λ _. deduplicated task_id) s tt s a

-- An answer that is stored without a clash is the only change.
abbrev pub with_answer : AuthContext → Option ℕ → Operation → Delivery → Answer → Store → Store
with_answer auth task_id operation d a s = record s {
  inbox = s.inbox ++ (inbox_row auth task_id operation d a ∷ []);
}

store_inbox-eq :
    (auth : AuthContext) (task_id : Option ℕ) (operation : Operation) (d : Delivery) (a : Answer)
    (s : Store)
    → IsNew auth d s
    → has_clash (inbox_row auth task_id operation d a) s.inbox ≡ false
    → store_inbox auth task_id operation d a s ≡ done tt (with_answer auth task_id operation d a s)
unfolding store_inbox
store_inbox-eq auth task_id operation d a s n c = ground arith

pub key_answer :
    (hs : Handlers) (auth : AuthContext) (operation : Operation) (p : Payload) (d : Delivery)
    (task_id : Option ℕ) (row : IdempotencyRow) (s : Store)
    → IsNew auth d s
    → find_idempotency (key_of auth operation task_id d) s.idempotency ≡ some row
    → has_clash (inbox_row auth task_id operation d (success_of row.result_data)) s.inbox ≡ false
    → after_inbox hs auth operation p d task_id none s ≡ (
        if row.payload_hash == d.payload_hash
        then done
            (success_of row.result_data)
            (with_answer auth task_id operation d (success_of row.result_data) s)
        else raised idempotency_conflict s)
unfolding after_inbox after_replay
key_answer hs auth operation p d task_id row s n f c = ground (
  arith,
  check_idempotency-found hs.fields (key_of auth operation task_id d) d.payload_hash row s f,
  store_inbox-eq auth task_id operation d (success_of row.result_data) s n c,
)

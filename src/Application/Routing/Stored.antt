-- ===== src/Application/Routing/Stored.antt =====
-- An answer that is stored is found again, and a key that is stored leaves the inbox alone.
use hibiki.Prelude.{
  ℕ, ◌≡◌, refl, sym, ap, ◌∙◌, Bool, true, false, Option, none, some, List, [], ◌∷◌, ◌++◌, arith,
  ◌==◌,
}
use mathlib.Core.Path.{subst}
use hibiki.Domain.Errors.{DomainError, ErrorClass, Code}
use hibiki.Domain.Guards.{Operation}
use hibiki.Domain.Types.{AuthContext}
use hibiki.Persistence.Models.{Store, InboxRow, IdempotencyRow}
use hibiki.Persistence.Session.{gets, fail_if}
use hibiki.Persistence.Session.Frame.{
  Keeps, bind-Keeps, pure-Keeps, gets-Keeps, fail-Keeps, fail_if-Keeps, modify-Keeps, Ensures,
  bind-Ensures,
}
use hibiki.Application.Routing.ReadOnly.{inbox_of}
use hibiki.Application.Routing.{
  Delivery, add_inbox, append_inbox, has_clash, Answer, find_inbox, inbox_row, replay_of,
  is_message, store_inbox,
}
use hibiki.Application.Routing.Idempotency.{
  IdempotencyKey, find_idempotency, add_key, store_key, idempotency_row, store_idempotency,
}

-- A row that is added answers for its message.
find_inbox-add :
    (actor_id message_id : ℕ) (row : InboxRow) (rows : List InboxRow)
    → find_inbox actor_id message_id rows ≡ none
    → is_message actor_id message_id row ≡ true
    → find_inbox actor_id message_id (rows ++ (row ∷ [])) ≡ some row
find_inbox-add actor_id message_id row [] h m = ground arith
find_inbox-add actor_id message_id row (r ∷ rows) h m =
    ground (arith, find_inbox-add actor_id message_id row rows)

abbrev pub inbox_conflict : DomainError
inbox_conflict = record { class = ErrorClass.idempotency_conflict; code = Code.inbox_conflict }

abbrev pub idempotency_conflict : DomainError
idempotency_conflict = record {
  class = ErrorClass.idempotency_conflict;
  code = Code.idempotency_conflict;
}

abbrev pub as_replay : Answer → Answer
as_replay a = record a { replayed = true }

-- The inbox has an answer for the message, for the same payload, and it is this one.
abbrev pub IsAnswered : AuthContext → Delivery → Answer → Store → Type 0
IsAnswered auth d a s =
    (row : InboxRow) × (find_inbox auth.actor_id d.message_id s.inbox ≡ some row)
    × ((row.payload_hash == d.payload_hash) ≡ true)
    × (replay_of row ≡ as_replay a)

-- No answer is kept for the message.
abbrev pub IsNew : AuthContext → Delivery → Store → Type 0
IsNew auth d s = find_inbox auth.actor_id d.message_id s.inbox ≡ none

-- The same, after a statement without a value.
abbrev pub IsStored : AuthContext → Delivery → Answer → Unit {0} → Store → Type 0
IsStored auth d a _ s = IsAnswered auth d a s

add_inbox-Ensures :
    (auth : AuthContext) (task_id : Option ℕ) (operation : Operation) (d : Delivery) (a : Answer)
    (s : Store)
    → IsNew auth d s
    → Ensures (IsStored auth d a) (add_inbox (inbox_row auth task_id operation d a) none s)
add_inbox-Ensures auth task_id operation d a s n =
    let row = inbox_row auth task_id operation d a in
    bind-Ensures (IsStored auth d a) (gets (λ s. has_clash row s.inbox)) _ s (λ clash s1 e.
      bind-Ensures (IsStored auth d a) (fail_if clash ErrorClass.integrity Code.unique_constraint)
        (λ _. append_inbox row) s1
        (λ _ s2 f. (
          row,
          find_inbox-add auth.actor_id d.message_id row s2.inbox
              (ap (find_inbox auth.actor_id d.message_id) (
                  fail_if-Keeps inbox_of clash ErrorClass.integrity Code.unique_constraint s1 tt s2
                    f
                  ∙ gets-Keeps inbox_of (λ s. has_clash row s.inbox) s clash s1 e)
                ∙ n)
              (ground arith),
          ground arith,
          refl,
        )))

pub store_inbox-Ensures :
    (auth : AuthContext) (task_id : Option ℕ) (operation : Operation) (d : Delivery) (a : Answer)
    (s : Store)
    → IsNew auth d s
    → Ensures (IsStored auth d a) (store_inbox auth task_id operation d a s)
unfolding store_inbox
store_inbox-Ensures auth task_id operation d a s n =
    let row = inbox_row auth task_id operation d a in
    let good = Ensures (IsStored auth d a) in
    subst (λ o. good (add_inbox row o s)) (sym n) (add_inbox-Ensures auth task_id operation d a s n)

add_key-Keeps :
    (row : IdempotencyRow) (taken : Option IdempotencyRow) → Keeps inbox_of (add_key row taken)
add_key-Keeps row (some _) = fail-Keeps inbox_of ErrorClass.integrity Code.unique_constraint
add_key-Keeps row none = modify-Keeps inbox_of _ (λ s. refl)

store_key-Keeps :
    (b : Bool) (k : IdempotencyKey) (row : IdempotencyRow) → Keeps inbox_of (store_key b k row)
store_key-Keeps false k row = pure-Keeps inbox_of tt
store_key-Keeps true k row =
    bind-Keeps inbox_of _ _ (gets-Keeps inbox_of (λ s. find_idempotency k s.idempotency))
      (add_key-Keeps row)

pub store_idempotency-Keeps :
    (k : IdempotencyKey) (payload_hash : ℕ) (a : Answer)
    → Keeps inbox_of (store_idempotency k payload_hash a)
unfolding store_idempotency
store_idempotency-Keeps k payload_hash a =
    store_key-Keeps a.succeeded k (idempotency_row k payload_hash a)

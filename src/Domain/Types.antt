-- ===== src/Domain/Types.antt =====
-- src/hibiki/domain/types.py. Identifiers are only compared, so they are numbers.
use hibiki.Prelude.{ℕ, Bool, true, false, ◌||◌, Option}
use hibiki.Domain.Enums.{ActorType}

-- `task_interrupt` is the scope "task:interrupt".
pub data Scope : Type 0 where
  task_interrupt : Scope
  other : ℕ → Scope

pub record AuthContext : Type 0 where
  pub principal_id : ℕ
  pub actor_id : ℕ
  pub actor_type : ActorType
  pub scopes : Scope → Bool
  pub bound_task_id : Option ℕ
  pub bound_run_id : Option ℕ
  pub bound_fencing_epoch : Option ℕ
  pub bound_grant_epoch : Option ℕ

abbrev pub is_human_type : ActorType → Bool
is_human_type ActorType.human = true
is_human_type _ = false

abbrev pub is_internal_type : ActorType → Bool
is_internal_type ActorType.internal = true
is_internal_type _ = false

abbrev pub is_human : AuthContext → Bool
is_human auth = is_human_type auth.actor_type

abbrev pub has_scope : AuthContext → Scope → Bool
has_scope auth scope = auth.scopes scope || is_human auth

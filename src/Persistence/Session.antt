-- ===== src/Persistence/Session.antt =====
-- src/hibiki/persistence/session.py: a transaction runs a function on a session, commits what it
-- wrote if it returns, and rolls everything back if it raises. What a session has written before a
-- raise is kept in the model, so that the rollback is visible.
pub mod Frame
use hibiki.Prelude.{ℕ, Bool, true, false, Option, none, some}
use hibiki.Domain.Errors.{DomainError, Result, ok, err, ErrorClass, Code}
use hibiki.Persistence.Models.{Store}

-- What the agent adapter's `inspect` reports of a run.
pub record Inspection : Type 0 where
  pub alive : Bool
  pub writer_alive : Bool

-- What a transaction reads from outside the database: the clock, the adapter, and `new_id`.
pub record Env : Type 0 where
  pub now : ℕ
  pub inspect : ℕ → Inspection
  pub container_alive : ℕ → Bool
  pub new_id : ℕ → ℕ

pub data Step {ℓ} (A : Type ℓ) : Type ℓ where
  done : A → Store → Step A
  raised : DomainError → Store → Step A

abbrev pub M {ℓ} : Type ℓ → Type ℓ
M A = Store → Step A

infixl 5 ◌>>=◌ ◌>>◌
abbrev pub ◌>>=◌ {ℓ κ} : {A : Type ℓ} {B : Type κ} → M A → (A → M B) → M B
◌>>=◌ m f s = elim (m s) [ done a s' ↦ f a s' | raised e s' ↦ raised e s' ]

abbrev pub ◌>>◌ {ℓ κ} : {A : Type ℓ} {B : Type κ} → M A → M B → M B
m >> k = m >>= λ _. k

abbrev pub pure {ℓ} : {A : Type ℓ} → A → M A
pure a s = done a s

abbrev pub gets {ℓ} : {A : Type ℓ} → (Store → A) → M A
gets f s = done (f s) s

abbrev pub modify : (Store → Store) → M (Unit {0})
modify f s = done tt (f s)

abbrev pub lift {ℓ} : {A : Type ℓ} → Result A → M A
lift (ok a) s = done a s
lift (err e) s = raised e s

abbrev pub fail {ℓ} : {A : Type ℓ} → ErrorClass → Code → M A
fail c k s = raised (record { class = c; code = k }) s

abbrev pub fail_if : Bool → ErrorClass → Code → M (Unit {0})
fail_if true c k = fail c k
fail_if false c k = pure tt

-- The row, or the error that the caller raises for None.
abbrev pub require {ℓ} : {A : Type ℓ} → Option A → ErrorClass → Code → M A
require none c k = fail c k
require (some a) c k = pure a

-- SerialSessionExecutor.run, under its lock: no other transaction runs in between.
unfoldable pub run {ℓ} : {A : Type ℓ} → M A → Store → Result A × Store
run m s = elim (m s) [ done a s' ↦ (ok a, s') | raised e s' ↦ (err e, s) ]

-- What a command hands back: its data, or a failure that is committed all the same.
pub data CommandResult {ℓ} (A : Type ℓ) : Type ℓ where
  success : A → CommandResult A
  failure : Code → CommandResult A

-- ===== src/Domain/Transitions/Laws.antt =====
-- What the four tables of domain/transitions.py make impossible, for single events and for whole
-- sequences of events.
use hibiki.Prelude.{
  ℕ, ◌+◌, ◌≤◌, ◌≡◌, refl, ◌↔◌, suc, ◌⊎◌, ◌≢◌, inl, inr, Bool, true, false, ◌||◌, Option, none, some,
  List, [], ◌∷◌, arith, Option-cases,
}
use hibiki.Domain.Enums.{TaskState, WorkUnitStatus, AgentRunStatus, SideEffectState}
use hibiki.Domain.Errors.{ok, raise, ErrorClass, Code}
use hibiki.Domain.Transitions.{
  TaskEvent, RunEvent, SideEffectEvent, WorkUnitEvent, task_transitions, run_transitions,
  side_effect_transitions, transition_task, transition_run, transition_work_unit, is_terminal_task,
  is_terminal_run, is_terminal_work_unit,
}

-- The state after a sequence of events, if every one of them is accepted.
abbrev pub follow {ℓ κ} : {S : Type ℓ} {E : Type κ} → (S → E → Option S) → S → List E → Option S
follow table s [] = some s
follow table s (e ∷ es) = elim (table s e) [ none ↦ none | some t ↦ follow table t es ]

-- A terminal task, run or work unit refuses every event, also one that no table names.
pub terminal_refuses :
    (s : TaskState) (e : TaskEvent) (r : AgentRunStatus) (f : RunEvent) (w : WorkUnitStatus)
    (g : WorkUnitEvent)
    → is_terminal_task s ≡ true
    → is_terminal_run r ≡ true
    → is_terminal_work_unit w ≡ true
    → (transition_task s e ≡ raise ErrorClass.invalid_transition Code.invalid_transition)
      × (transition_run r f ≡ raise ErrorClass.invalid_transition Code.invalid_transition)
      × (transition_work_unit w g ≡ raise ErrorClass.invalid_transition Code.invalid_transition)
terminal_refuses s e r f w g hs hr hw = (ground arith, ground arith, ground arith)

-- COMPLETED is entered by final.accepted from WAITING_HUMAN and in no other way, and ABORTED by
-- cancellation.settled from CANCELLING and in no other way.
pub task_endings :
    (s : TaskState) (e : TaskEvent)
    → ((transition_task s e ≡ ok TaskState.completed)
        ↔ ((s ≡ TaskState.waiting_human) × (e ≡ TaskEvent.final_accepted)))
      × ((transition_task s e ≡ ok TaskState.aborted)
          ↔ ((s ≡ TaskState.cancelling) × (e ≡ TaskEvent.cancellation_settled)))
task_endings s e = ((λ h. ground arith, λ h. ground arith), (λ h. ground arith, λ h. ground arith))

abbrev pub is_doomed : TaskState → Bool
is_doomed TaskState.cancelling = true
is_doomed TaskState.aborted = true
is_doomed _ = false

doomed_step :
    (s : TaskState) (e : TaskEvent) (t : TaskState)
    → is_doomed s ≡ true
    → task_transitions s e ≡ some t
    → is_doomed t ≡ true
doomed_step s e t d h = ground arith

-- A task that is being cancelled can only end as ABORTED: whatever events are accepted after, its
-- state is CANCELLING or ABORTED.
pub cancelling_is_final :
    (s t : TaskState) (es : List TaskEvent)
    → is_doomed s ≡ true
    → follow task_transitions s es ≡ some t
    → is_doomed t ≡ true
cancelling_is_final s t [] d h = ground arith
cancelling_is_final s t (e ∷ es) d h = elim (Option-cases (task_transitions s e)) [
  | inl n ↦ ground arith
  | inr (u, p) ↦ cancelling_is_final u t es (doomed_step s e u d p) (rw (p, follow) at h)
]

abbrev pub length {ℓ} : {A : Type ℓ} → List A → ℕ
length [] = 0
length (_ ∷ xs) = suc (length xs)

-- How many transitions a run can still make.
abbrev run_rank : AgentRunStatus → ℕ
run_rank AgentRunStatus.created = 2
run_rank AgentRunStatus.running = 1
run_rank _ = 0

run_step_rank :
    (s t : AgentRunStatus) (e : RunEvent)
    → run_transitions s e ≡ some t
    → run_rank t + 1 ≤ run_rank s
run_step_rank s t e h = ground arith

run_length :
    (s t : AgentRunStatus) (es : List RunEvent)
    → follow run_transitions s es ≡ some t
    → length es + run_rank t ≤ run_rank s
run_length s t [] h = ground arith
run_length s t (e ∷ es) h = elim (Option-cases (run_transitions s e)) [
  | inl n ↦ ground arith
  | inr (u, p) ↦ omega (arith, run_step_rank s u e p, run_length u t es (rw (p, follow) at h))
]

abbrev pub includes {ℓ} : {A : Type ℓ} → (A → Bool) → List A → Bool
includes p [] = false
includes p (x ∷ xs) = p x || includes p xs

abbrev pub is_authorizing : SideEffectEvent → Bool
is_authorizing SideEffectEvent.approve = true
is_authorizing SideEffectEvent.preauthorize = true
is_authorizing _ = false

abbrev pub is_claim : SideEffectEvent → Bool
is_claim SideEffectEvent.claim_dispatch = true
is_claim _ = false

-- The states in which the effect may have reached the outside world.
abbrev pub was_sent : SideEffectState → Bool
was_sent SideEffectState.succeeded = true
was_sent SideEffectState.failed_confirmed = true
was_sent SideEffectState.unknown = true
was_sent _ = false

abbrev is_unclaimed : SideEffectState → Bool
is_unclaimed SideEffectState.proposed = true
is_unclaimed SideEffectState.waiting_approval = true
is_unclaimed SideEffectState.authorized = true
is_unclaimed SideEffectState.cancelled = true
is_unclaimed _ = false

abbrev is_unauthorized : SideEffectState → Bool
is_unauthorized SideEffectState.proposed = true
is_unauthorized SideEffectState.waiting_approval = true
is_unauthorized SideEffectState.cancelled = true
is_unauthorized _ = false

claim_step :
    (s t : SideEffectState) (e : SideEffectEvent)
    → is_unclaimed s ≡ true
    → side_effect_transitions s e ≡ some t
    → (is_claim e ≡ true) ⊎ (is_unclaimed t ≡ true)
claim_step s t e u h = ground arith

authorize_step :
    (s t : SideEffectState) (e : SideEffectEvent)
    → is_unauthorized s ≡ true
    → side_effect_transitions s e ≡ some t
    → (is_authorizing e ≡ true) ⊎ (is_unauthorized t ≡ true)
authorize_step s t e u h = ground arith

sent_was_claimed :
    (s t : SideEffectState) (es : List SideEffectEvent)
    → is_unclaimed s ≡ true
    → follow side_effect_transitions s es ≡ some t
    → was_sent t ≡ true
    → includes is_claim es ≡ true
sent_was_claimed s t [] u h w = ground arith
sent_was_claimed s t (e ∷ es) u h w = elim (Option-cases (side_effect_transitions s e)) [
  | inl n ↦ ground arith
  | inr (v, p) ↦ ground (arith, claim_step s v e u p, sent_was_claimed v t es)
]

sent_was_authorized_from :
    (s t : SideEffectState) (es : List SideEffectEvent)
    → is_unauthorized s ≡ true
    → follow side_effect_transitions s es ≡ some t
    → was_sent t ≡ true
    → includes is_authorizing es ≡ true
sent_was_authorized_from s t [] u h w = ground arith
sent_was_authorized_from s t (e ∷ es) u h w = elim (Option-cases (side_effect_transitions s e)) [
  | inl n ↦ ground arith
  | inr (v, p) ↦ ground (arith, authorize_step s v e u p, sent_was_authorized_from v t es)
]

-- In the transition table of side effects, a sequence of accepted events from PROPOSED ends in
-- SUCCEEDED, FAILED_CONFIRMED or UNKNOWN only if it includes an approval or a preauthorization, and a
-- claim for dispatch. (It says nothing of states that are assigned without an event.)
pub sent_was_authorized :
    (t : SideEffectState) (es : List SideEffectEvent)
    → follow side_effect_transitions SideEffectState.proposed es ≡ some t
    → was_sent t ≡ true
    → (includes is_authorizing es ≡ true) × (includes is_claim es ≡ true)
sent_was_authorized t es h w = (
  sent_was_authorized_from SideEffectState.proposed t es refl h w,
  sent_was_claimed SideEffectState.proposed t es refl h w,
)

-- From CREATED a run accepts at most two events, and one that has accepted two is terminal.
pub run_lifetime :
    (t : AgentRunStatus) (es : List RunEvent)
    → follow run_transitions AgentRunStatus.created es ≡ some t
    → (length es ≤ 2) × ((length es ≢ 2) ⊎ (is_terminal_run t ≡ true))
run_lifetime t es h = ground (arith, run_length AgentRunStatus.created t es h)

-- ===== src/Application/Usage/Laws.antt =====
-- Model calls are never spent past a limit.
use hibiki.Prelude.{ℕ, suc, ◌+◌, ◌≤◌, ◌<◌, ◌≡◌, some, get}
use hibiki.Persistence.Models.{Store, TaskRow}
use hibiki.Persistence.Session.{CommandResult, success, failure}
use hibiki.Application.Base.{contract_of}
use hibiki.Application.Usage.{Calls, contract_limit, Usage}

-- The calls that a report is about: an absent number and 0 count as one call. (A number below 0 is
-- refused.)
abbrev pub reported : Calls → ℕ
reported (Calls.number (suc k)) = suc k
reported _ = 1

-- What a command that returns has done: it spent so many calls within both limits, or it wrote
-- nothing.
abbrev pub IsWithin : ℕ → ℕ → TaskRow → Store → CommandResult Usage → Store → Type 0
IsWithin calls task_id t s (success u) s' =
    (u.model_calls_used ≡ t.model_calls_used + calls)
    × (get task_id s'.tasks ≡ some (record t { model_calls_used = t.model_calls_used + calls }))
    × (t.model_calls_used < u.model_calls_used)
    × (0 < t.model_call_limit → u.model_calls_used ≤ t.model_call_limit)
    × (let c =
          contract_limit (contract_of task_id s.contracts t.contract_version) t.model_call_limit in
        0 < c → u.model_calls_used ≤ c)
IsWithin calls task_id t s (failure e) s' = s' ≡ s

-- ===== src/Domain/Defaults.antt =====
-- src/hibiki/domain/defaults.py: the limits that the modelled commands read.
use hibiki.Prelude.{ℕ, List, [], ◌∷◌}

pub record SystemDefaults : Type 0 where
  pub global_run_concurrency : ℕ
  pub per_task_run_concurrency : ℕ
  pub max_work_unit_attempts : ℕ
  pub max_task_model_calls : ℕ
  pub lease_seconds : ℕ
  pub retry_backoff_seconds : List ℕ
  pub decision_ttl_hours : ℕ
  pub side_effect_approval_ttl_minutes : ℕ

abbrev pub defaults : SystemDefaults
defaults = record {
  global_run_concurrency = 4;
  per_task_run_concurrency = 2;
  max_work_unit_attempts = 3;
  max_task_model_calls = 200;
  lease_seconds = 30;
  retry_backoff_seconds = 2 ∷ 5 ∷ [];
  decision_ttl_hours = 24;
  side_effect_approval_ttl_minutes = 15;
}

-- ===== src/Saves/Batch.antt =====
-- switch_app/source/application/plan_save_backups.c: the plans of a list of saves.
use transferencia_switch.Base.{
  ℕ, ◌+◌, Bool, true, false, Option, none, some, List, [], ◌∷◌, ◌++◌, length, leb, ◌==◌,
  if◌then◌else◌,
}
use transferencia_switch.Base.Bytes.{Bytes}
use transferencia_switch.Domain.Status.{Status, ts_ok, ts_invalid_argument, ts_buffer_too_small}
use transferencia_switch.Saves.Plan.{SaveBackupPlan, Outcome, refused, planned, create}

-- `TsSaveBackupCandidate`
pub record SaveBackupCandidate : Type 0 where
  pub application_id : ℕ
  pub user_id_low : ℕ
  pub user_id_high : ℕ

-- `TsSaveBackupPlanningSummary`, with the plans written so far.
pub record Summary : Type 0 where
  pub requested_count : ℕ
  pub planned_count : ℕ
  pub failed_count : ℕ
  pub first_error : Status
  pub plans : List SaveBackupPlan

abbrev first : Status → Status → Status
first ts_ok status = status
first error status = error

abbrev pub count_failure : Status → Summary → Summary
count_failure status summary = record summary {
  failed_count = summary.failed_count + 1;
  first_error = first summary.first_error status;
}

abbrev pub add_outcome : Outcome → Summary → Summary
add_outcome (refused status) summary = count_failure status summary
add_outcome (planned plan) summary = record summary {
  planned_count = summary.planned_count + 1;
  plans = summary.plans ++ plan ∷ [];
}

abbrev pub create_candidate : Option Bytes → SaveBackupCandidate → Outcome
create_candidate date candidate =
    create candidate.application_id candidate.user_id_low candidate.user_id_high date

-- One round of the loop.
abbrev pub plan_one : Option Bytes → ℕ → SaveBackupCandidate → Summary → Summary
plan_one date capacity candidate summary =
    if leb capacity summary.planned_count
    then count_failure ts_buffer_too_small summary
    else add_outcome (create_candidate date candidate) summary

unfoldable pub plan_all : Option Bytes → ℕ → List SaveBackupCandidate → Summary → Summary
plan_all date capacity [] summary = summary
plan_all date capacity (candidate ∷ candidates) summary =
    plan_all date capacity candidates (plan_one date capacity candidate summary)

abbrev pub empty_summary : ℕ → Summary
empty_summary count = record {
  requested_count = count;
  planned_count = 0;
  failed_count = 0;
  first_error = ts_ok;
  plans = [];
}

abbrev is_none : Option Bytes → Bool
is_none none = true
is_none (some _) = false

-- `ts_plan_save_backups`, where the candidates, the plans and the summary are not null.
unfoldable pub plan_save_backups : List SaveBackupCandidate → Option Bytes → ℕ → Status × Summary
plan_save_backups candidates date plan_capacity =
    let summary = empty_summary (length candidates) in
    if is_none date
    then (
      ts_invalid_argument,
      record summary { failed_count = length candidates; first_error = ts_invalid_argument },
    )
    else let done = plan_all date plan_capacity candidates summary in
      (if done.failed_count == 0 then ts_ok else done.first_error, done)

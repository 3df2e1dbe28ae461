-- ===== src/Saves/Planned.antt =====
-- What the batch planner plans.
use transferencia_switch.Base.{
  ℕ, zero, suc, ◌+◌, ◌≤◌, ◌≡◌, refl, sym, ◌∙◌, Option, some, List, [], ◌∷◌, ◌++◌, length,
  length-append, take, leb, arith, if_cases,
}
use mathlib.Core.List.{append_assoc, append-nil}
use transferencia_switch.Base.Bytes.{Bytes}
use transferencia_switch.Domain.Status.{ts_buffer_too_small}
use transferencia_switch.Saves.Plan.{SaveBackupPlan, Outcome, refused, planned}
use transferencia_switch.Saves.Batch.{
  SaveBackupCandidate, Summary, count_failure, add_outcome, create_candidate, plan_one, plan_all,
  empty_summary, plan_save_backups,
}

abbrev cons_planned : Outcome → List SaveBackupPlan → List SaveBackupPlan
cons_planned (refused status) plans = plans
cons_planned (planned plan) plans = plan ∷ plans

-- The plans of the candidates that can be planned, in their order and without a limit.
abbrev pub all_plans : Option Bytes → List SaveBackupCandidate → List SaveBackupPlan
all_plans date [] = []
all_plans date (candidate ∷ candidates) =
    cons_planned (create_candidate date candidate) (all_plans date candidates)

-- The counts of a summary after `done` candidates, with room for `capacity` plans.
record Counts (capacity done : ℕ) (s : Summary) : Type 0 where
  total : s.planned_count + s.failed_count ≡ done
  room : s.planned_count ≤ capacity
  written : length s.plans ≡ s.planned_count

outcome-Counts :
    (capacity done : ℕ) (o : Outcome) (s : Summary)
    → suc s.planned_count ≤ capacity
    → Counts capacity done s
    → Counts capacity (suc done) (add_outcome o s)
outcome-Counts capacity done (refused status) s more c = record {
  total = omega (arith, c.total);
  room = omega (arith, more);
  written = c.written;
}
outcome-Counts capacity done (planned plan) s more c = record {
  total = omega (arith, c.total);
  room = omega (arith, more);
  written = omega (arith, length-append s.plans (plan ∷ []), c.written);
}

plan_one-Counts :
    (date : Option Bytes) (capacity done : ℕ) (candidate : SaveBackupCandidate) (s : Summary)
    → Counts capacity done s
    → Counts capacity (suc done) (plan_one date capacity candidate s)
plan_one-Counts date capacity done candidate s c =
    if_cases (Counts capacity (suc done)) (leb capacity s.planned_count) _ _
      (λ _. record { total = omega (arith, c.total); room = c.room; written = c.written })
      (λ e. outcome-Counts capacity done (create_candidate date candidate) s (ground (arith, e)) c)

plan_all-Counts :
    (date : Option Bytes) (capacity done total : ℕ) (candidates : List SaveBackupCandidate)
    (s : Summary)
    → done + length candidates ≡ total
    → Counts capacity done s
    → Counts capacity total (plan_all date capacity candidates s)
unfolding plan_all
plan_all-Counts date capacity done total [] s e c = record {
  total = omega (arith, e, c.total);
  room = c.room;
  written = c.written;
}
plan_all-Counts date capacity done total (candidate ∷ candidates) s e c =
    plan_all-Counts date capacity (suc done) total candidates (plan_one date capacity candidate s)
      (omega (arith, e)) (plan_one-Counts date capacity done candidate s c)

-- Without room nothing is planned any more.
plan_all-full :
    (date : Option Bytes) (capacity : ℕ) (candidates : List SaveBackupCandidate) (s : Summary)
    → capacity ≤ s.planned_count
    → (plan_all date capacity candidates s).plans ≡ s.plans
unfolding plan_all
plan_all-full date capacity [] s full = refl
plan_all-full date capacity (candidate ∷ candidates) s full =
    if_cases (λ (s' : Summary). (plan_all date capacity candidates s').plans ≡ s.plans)
      (leb capacity s.planned_count) _ _
      (λ _. plan_all-full date capacity candidates (count_failure ts_buffer_too_small s) full)
      (λ e. absurd (ground (arith, e, full)))

outcome-plans :
    (room : ℕ) (date : Option Bytes) (capacity : ℕ) (o : Outcome)
    (candidates : List SaveBackupCandidate) (s : Summary)
    → suc room + s.planned_count ≡ capacity
    → ((k : ℕ) (s' : Summary)
        → k + s'.planned_count ≡ capacity
        → (plan_all date capacity candidates s').plans
          ≡ s'.plans ++ take k (all_plans date candidates))
    → (plan_all date capacity candidates (add_outcome o s)).plans
      ≡ s.plans ++ take (suc room) (cons_planned o (all_plans date candidates))
outcome-plans room date capacity (refused status) candidates s e recur =
    recur (suc room) (count_failure status s) e
outcome-plans room date capacity (planned plan) candidates s e recur =
    recur room (add_outcome (planned plan) s) (omega (arith, e))
    ∙ append_assoc s.plans (plan ∷ []) (take room (all_plans date candidates))

plan_all-plans :
    (date : Option Bytes) (capacity room : ℕ) (candidates : List SaveBackupCandidate) (s : Summary)
    → room + s.planned_count ≡ capacity
    → (plan_all date capacity candidates s).plans ≡ s.plans ++ take room (all_plans date candidates)
unfolding plan_all
plan_all-plans date capacity zero candidates s e =
    plan_all-full date capacity candidates s (omega (arith, e)) ∙ sym (append-nil s.plans)
plan_all-plans date capacity (suc room) [] s e = sym (append-nil s.plans)
plan_all-plans date capacity (suc room) (candidate ∷ candidates) s e =
    if_cases
      (λ (s' : Summary).
        (plan_all date capacity candidates s').plans
        ≡ s.plans ++ take (suc room) (all_plans date (candidate ∷ candidates)))
      (leb capacity s.planned_count) _ _ (λ full. absurd (ground (arith, full, e)))
      (λ _.
        outcome-plans room date capacity (create_candidate date candidate) candidates s e
          (λ k s'. plan_all-plans date capacity k candidates s'))

-- What the planner promises: every candidate is counted once, the plans are the first ones, as many
-- as there is room for, of those that the candidates have, and the count of them is right.
pub record Promises (candidates : List SaveBackupCandidate) (date : Bytes) (capacity : ℕ)
    (s : Summary) : Type 0 where
  pub requested : s.requested_count ≡ length candidates
  pub total : s.planned_count + s.failed_count ≡ length candidates
  pub plans_eq : s.plans ≡ take capacity (all_plans (some date) candidates)
  pub counted : s.planned_count ≡ length s.plans

added-requested :
    (o : Outcome) (s : Summary) → (add_outcome o s).requested_count ≡ s.requested_count
added-requested (refused status) s = refl
added-requested (planned plan) s = refl

plan_all-requested :
    (date : Option Bytes) (capacity : ℕ) (candidates : List SaveBackupCandidate) (s : Summary)
    → (plan_all date capacity candidates s).requested_count ≡ s.requested_count
unfolding plan_all
plan_all-requested date capacity [] s = refl
plan_all-requested date capacity (candidate ∷ candidates) s =
    plan_all-requested date capacity candidates (plan_one date capacity candidate s)
    ∙ if_cases (λ (s' : Summary). s'.requested_count ≡ s.requested_count)
        (leb capacity s.planned_count) _ _ (λ _. refl)
        (λ _. added-requested (create_candidate date candidate) s)

-- With a date, ts_plan_save_backups counts every candidate once, as planned or as failed, and
-- writes the first plans that there is room for, of those that the candidates have, in their order.
pub plan_save_backups-Promises :
    (candidates : List SaveBackupCandidate) (date : Bytes) (capacity : ℕ)
    → Promises candidates date capacity (plan_save_backups candidates (some date) capacity).1
unfolding plan_save_backups
plan_save_backups-Promises candidates date capacity =
    let begin = empty_summary (length candidates) in
    let c =
      plan_all-Counts (some date) capacity 0 (length candidates) candidates begin (omega arith)
        (record { total = omega arith; room = omega arith; written = refl }) in
    record {
      requested = plan_all-requested (some date) capacity candidates begin;
      total = c.total;
      plans_eq = plan_all-plans (some date) capacity capacity candidates begin (omega arith);
      counted = sym c.written;
    }

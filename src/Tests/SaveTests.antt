-- ===== src/Tests/SaveTests.antt =====
-- Two saves and room for one plan.
use transferencia_switch.Base.{ℕ, some, List, [], ◌∷◌}
use transferencia_switch.Base.Bytes.{Bytes, codes}
use transferencia_switch.Saves.Batch.{SaveBackupCandidate, plan_save_backups}
use transferencia_switch.Saves.Planned.{Promises, plan_save_backups-Promises}

abbrev day : Bytes
day = codes "2024-05-31"

abbrev title : ℕ
title = 7

abbrev saves : List SaveBackupCandidate
saves =
    record { application_id = title; user_id_low = 1; user_id_high = 2 }
    ∷ record { application_id = 8; user_id_low = 1; user_id_high = 2 }
    ∷ []

plan_save_backups-Promises_example : Promises saves day 1 (plan_save_backups saves (some day) 1).1
plan_save_backups-Promises_example = plan_save_backups-Promises saves day 1

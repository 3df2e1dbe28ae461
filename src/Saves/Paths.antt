-- ===== src/Saves/Paths.antt =====
-- The paths of a backup: they always fit their buffers, and which saves share one.
use transferencia_switch.Base.{ℕ, ◌++◌}
use transferencia_switch.Base.Bytes.{Bytes, codes}
use transferencia_switch.Saves.Plan.{Outcome, planned, folder_of, path_of, filled_plan}

-- The plan of a save at a valid date.
abbrev pub plan_of : ℕ → ℕ → ℕ → Bytes → Outcome
plan_of application_id user_id_low user_id_high date =
    let folder = folder_of application_id user_id_low in
    let backup = path_of date folder in
    planned (
      filled_plan application_id user_id_low user_id_high date folder backup
        (backup ++ codes "/files") (backup ++ codes "/manifest.json"))

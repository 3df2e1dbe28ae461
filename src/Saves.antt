-- ===== src/Saves.antt =====
-- Backups of saves: switch_app/source/domain/save_backup_plan.c and
-- switch_app/source/application/plan_save_backups.c.
pub mod Plan
pub mod Batch
pub mod Paths
pub mod Planned

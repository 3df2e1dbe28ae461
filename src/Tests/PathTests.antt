-- ===== src/Tests/PathTests.antt =====
-- Concrete paths for domain/safe_path.c.
use transferencia_switch.Base.{◌≡◌, ◌↔◌, true, some}
use transferencia_switch.Base.Bytes.{Bytes, codes}
use transferencia_switch.Domain.SafePath.{is_safe_direct_child}
use transferencia_switch.Domain.SafePath.Sound.{
  IsName, IsDirectChild, last, is_safe_direct_child_iff,
}

abbrev sd_root : Bytes
sd_root = codes "sdmc:/"

abbrev games : Bytes
games = codes "sdmc:/games"

abbrev candidate : Bytes
candidate = codes "sdmc:/games/a.nsp"

is_safe_direct_child_iff_example :
    (is_safe_direct_child (some sd_root) (some games) (some candidate) ≡ true) ↔ (
      (last sd_root ≡ b'/')
      × ((name : Bytes) × IsName name × IsDirectChild sd_root games name candidate))
is_safe_direct_child_iff_example = is_safe_direct_child_iff sd_root games candidate

-- ===== src/Install/Services.antt =====
-- The services of the console that sd_install_receiver.cpp calls through libnx: content storage,
-- content meta database, and the cipher of NCA headers. They are not part of the repository, so
-- they are a parameter: `W` is the state behind them, a result is the code that libnx returns
-- (0 is success), and a query leaves the state alone.
use transferencia_switch.Base.{ℕ, Bool, ◌==◌}
use transferencia_switch.Base.Bytes.{Bytes}

-- NcmContentMetaKey
pub record MetaKey : Type 0 where
  pub id : ℕ
  pub version : ℕ
  pub type : ℕ
  pub install_type : ℕ

pub record Services (W : Type 0) : Type 0 where
  pub content_has : Bytes → W → ℕ × Bool
  -- The size as the bit pattern of an `int64_t`.
  pub content_size : Bytes → W → ℕ × ℕ
  pub delete_place_holder : Bytes → W → ℕ × W
  pub create_place_holder : Bytes → Bytes → ℕ → W → ℕ × W
  pub write_place_holder : Bytes → ℕ → Bytes → W → ℕ × W
  pub flush_place_holder : W → ℕ × W
  pub register : Bytes → Bytes → W → ℕ × W
  pub delete_content : Bytes → W → ℕ × W
  pub open_database : W → ℕ × W
  pub remove_key : MetaKey → W → ℕ × W
  pub commit_database : W → ℕ × W
  pub close_database : W → W
  -- The header key and a header of 0x4000 bytes, sector by sector of 0x200 bytes.
  pub xts_decrypt : Bytes → Bytes → Bytes
  pub xts_encrypt : Bytes → Bytes → Bytes

abbrev pub succeeded : ℕ → Bool
succeeded result = result == 0

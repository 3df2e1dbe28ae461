-- ===== src/Remote/Requests.antt =====
-- The use cases on remote files: switch_app/source/application/list_remote_files.c and
-- probe_remote_file.c. They reach the peer through ports; pointers are not null.
pub mod Composed
use transferencia_switch.Base.{ℕ, Option, none, some, [], ◌∷◌, length, leb, ◌==◌, if◌then◌else◌}
use transferencia_switch.Base.Bytes.{Bytes}
use transferencia_switch.Domain.Status.{
  Status, ts_ok, ts_invalid_argument, ts_buffer_too_small, ts_protocol_error,
}
use transferencia_switch.Domain.Catalog.{FileCatalog, parse, NameResult, copy_name}
use transferencia_switch.Remote.Runs.{Answer, failed, done}
use transferencia_switch.Remote.Transport.{Transport, Adapter}
use transferencia_switch.Remote.Client.{fetch_catalog, read_file_range, file_name_capacity}

-- `TsRemoteCatalogPort`, with the context that its functions share: what fetch received.
pub record RemoteCatalogPort (X : Type 0) : Type 0 where
  pub fetch : ℕ → X → Answer Bytes × X

-- `TsRemoteFilePort`
pub record RemoteFilePort (X : Type 0) : Type 0 where
  pub read_range : Bytes → ℕ → ℕ → ℕ → X → Answer Bytes × X

-- `TsFileProbe`
pub record FileProbe : Type 0 where
  pub name : Bytes
  pub first_byte : ℕ

-- The ports that ts_dbi_catalog_adapter_init and ts_dbi_file_adapter_init fill.
abbrev pub dbi_catalog_port : {X : Type 0} → Transport X → RemoteCatalogPort (Adapter X)
dbi_catalog_port transport = record {
  fetch = λ capacity adapter. fetch_catalog transport capacity adapter;
}

abbrev pub dbi_file_port : {X : Type 0} → Transport X → RemoteFilePort (Adapter X)
dbi_file_port transport = record {
  read_range = λ name offset size capacity adapter.
      read_file_range transport name offset size capacity adapter;
}

module _ {X : Type 0} where
  abbrev pub listed : ℕ → Answer Bytes × X → (Status × Option FileCatalog) × X
  listed capacity (failed status, x) = ((status, none), x)
  listed capacity (done received, x) =
      if leb capacity (length received)
      then ((ts_buffer_too_small, none), x)
      else (parse (some received), x)

  -- `ts_list_remote_files`: the status, the catalog that was parsed, and the context of the port.
  unfoldable pub list_remote_files : RemoteCatalogPort X → ℕ → X → (Status × Option FileCatalog) × X
  list_remote_files port capacity x =
      if capacity == 0
      then ((ts_invalid_argument, none), x)
      else listed capacity (port.fetch capacity x)

  -- The byte that was received; the buffer has room for one.
  abbrev pub probed : Bytes → Answer Bytes × X → (Status × Option FileProbe) × X
  probed name (failed status, x) = ((status, none), x)
  probed name (done (byte ∷ []), x) = ((ts_ok, some (record { name = name; first_byte = byte })), x)
  probed name (done [], x) = ((ts_protocol_error, none), x)
  probed name (done (byte ∷ more ∷ bytes), x) = ((ts_protocol_error, none), x)

  abbrev pub probe_named : RemoteFilePort X → NameResult → X → (Status × Option FileProbe) × X
  probe_named port (status, none) x = ((status, none), x)
  probe_named port (status, some name) x = probed name (port.read_range name 0 1 1 x)

  -- `ts_probe_remote_file`: the status, the probe if it is TS_OK, and the context of the port.
  unfoldable pub probe_remote_file :
      RemoteFilePort X → FileCatalog → ℕ → X → (Status × Option FileProbe) × X
  probe_remote_file port catalog file_index x =
      probe_named port (copy_name catalog file_index file_name_capacity) x

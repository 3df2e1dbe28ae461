-- ===== src/Tests/RemoteTests.antt =====
-- A transport over two lists of bytes that moves one byte at a time, and a peer that serves a
-- catalog or a byte of a file.
use transferencia_switch.Base.{
  ℕ, ◌+◌, ◌<◌, ◌≤◌, ◌≡◌, ◌↔◌, refl, true, false, some, [], ◌∷◌, ◌++◌, length, take, drop, arith,
  inl, inr, sym,
}
use mathlib.Core.List.{append-nil}
use transferencia_switch.Base.Bytes.{Bytes, codes, same}
use transferencia_switch.Base.Words.{u16_at, u32_at, u64_at}
use transferencia_switch.Domain.Status.{Status, ts_ok, ts_transport_error}
use transferencia_switch.Domain.Catalog.{FileCatalog, newline, copy_name, find_name, strip_cr}
use transferencia_switch.Domain.Catalog.Counted.{AllAllowed, catalog_of}
use transferencia_switch.Remote.Transport.{Transport, Adapter}
use transferencia_switch.Remote.Runs.{done, is_done}
use transferencia_switch.Remote.Codec.{
  dbi_response, dbi_ack, dbi_list, dbi_file_range, write_u32_le, le_bytes, make_header,
  validate_header, file_request,
}
use transferencia_switch.Remote.Codec.RoundTrip.{make_header_lem, file_request_lem}
use transferencia_switch.Remote.Exact.{read_rounds, read_exact, write_rounds, write_exact}
use transferencia_switch.Remote.Exact.Streams.{
  StreamLaws, Reads, Writes, read_exact-Reads, write_exact-Writes,
}
use transferencia_switch.Remote.Exact.Reliable.{ReliableLaws, read_exact_served}
use transferencia_switch.Remote.Client.{
  adapter_init, disconnect, ensure_connected, fetch_catalog, range_exchange, read_file_range,
  adapter_close, file_name_capacity,
}
use transferencia_switch.Remote.Client.Connected.{
  fetch_catalog-connected, read_file_range-connected, adapter_close-connected,
}
use transferencia_switch.Remote.Client.Wire.{CatalogWire, fetch_catalog-Wire}
use transferencia_switch.Remote.Client.Range.{RangeWire, read_file_range-Wire}
use transferencia_switch.Remote.Client.Served.{fetch_catalog_served}
use transferencia_switch.Remote.Requests.{
  FileProbe, dbi_catalog_port, dbi_file_port, list_remote_files, probe_remote_file,
}
use transferencia_switch.Remote.Requests.Composed.{list_remote_files_served, probe_remote_file-Wire}

record Pipe : Type 0 where
  pub input : Bytes
  pub output : Bytes

abbrev pipe_read : Bytes → Bytes → Status × Bytes × Pipe
pipe_read [] output = (ts_transport_error, [], record { input = []; output = output })
pipe_read (byte ∷ input) output = (ts_ok, byte ∷ [], record { input = input; output = output })

abbrev pipe_write : Bytes → Pipe → Status × ℕ × Pipe
pipe_write [] pipe = (ts_ok, 0, pipe)
pipe_write (byte ∷ bytes) pipe = (ts_ok, 1, record pipe { output = pipe.output ++ byte ∷ [] })

abbrev wire : Transport Pipe
wire = record {
  is_null = false;
  is_complete = true;
  connect = λ pipe. (ts_ok, pipe);
  close = λ pipe. pipe;
  read = λ size pipe. pipe_read pipe.input pipe.output;
  write = λ bytes pipe. pipe_write bytes pipe;
}

pipe_takes :
    (input output : Bytes)
    → (pipe_read input output).0 ≡ ts_ok
    → input ≡ (pipe_read input output).1 ++ (pipe_read input output).2.input
pipe_takes [] output e = cc
pipe_takes (byte ∷ input) output e = refl

pipe_keeps : (input output : Bytes) → (pipe_read input output).2.output ≡ output
pipe_keeps [] output = refl
pipe_keeps (byte ∷ input) output = refl

pipe_adds :
    (bytes : Bytes) (pipe : Pipe)
    → (pipe_write bytes pipe).2.output ≡ pipe.output ++ take (pipe_write bytes pipe).1 bytes
pipe_adds [] pipe = sym (append-nil pipe.output)
pipe_adds (byte ∷ bytes) pipe = refl

pipe_stays : (bytes : Bytes) (pipe : Pipe) → (pipe_write bytes pipe).2.input ≡ pipe.input
pipe_stays [] pipe = refl
pipe_stays (byte ∷ bytes) pipe = refl

wire_stream : StreamLaws wire (λ pipe. pipe.input) (λ pipe. pipe.output)
wire_stream = record {
  read_takes = λ size pipe ok fits. pipe_takes pipe.input pipe.output ok;
  read_keeps = λ size pipe. pipe_keeps pipe.input pipe.output;
  write_adds = λ bytes pipe ok fits. pipe_adds bytes pipe;
  write_keeps = λ bytes pipe. pipe_stays bytes pipe;
  connect_keeps = λ pipe. (refl, refl);
}

gives :
    (size : ℕ) (input output : Bytes)
    → 0 < size
    → 0 < length input
    → ((pipe_read input output).0 ≡ ts_ok)
      × (1 ≤ length (pipe_read input output).1)
      × (length (pipe_read input output).1 ≤ size)
gives size [] output more some_left = absurd (omega (arith, some_left))
gives size (byte ∷ input) output more some_left = (refl, omega arith, omega (arith, more))

takes :
    (bytes : Bytes) (pipe : Pipe)
    → 0 < length bytes
    → ((pipe_write bytes pipe).0 ≡ ts_ok)
      × (1 ≤ (pipe_write bytes pipe).1)
      × ((pipe_write bytes pipe).1 ≤ length bytes)
takes [] pipe more = absurd (omega (arith, more))
takes (byte ∷ bytes) pipe more = (refl, omega arith, omega arith)

wire_reliable : ReliableLaws wire (λ pipe. pipe.input)
wire_reliable = record {
  reads = λ size pipe more some_left. gives size pipe.input pipe.output more some_left;
  writes = λ bytes pipe more. takes bytes pipe more;
  connects = λ pipe. refl;
}

abbrev names : Bytes
names = codes "a.nsp" ++ newline ∷ codes "b"

abbrev server : Adapter Pipe
server =
    adapter_init
      (record { input = make_header dbi_response dbi_list 7 ++ (names ++ []); output = [] })

make_header_lem_example :
    (length (make_header 1 3 7) ≡ 16)
    × (u32_at (make_header 1 3 7 ++ names) 4 ≡ 1)
    × (u32_at (make_header 1 3 7 ++ names) 8 ≡ 3)
    × (u32_at (make_header 1 3 7 ++ names) 12 ≡ 7)
    × ((validate_header (make_header 1 3 7 ++ names) 1 3 ≡ ts_ok)
        ↔ ((dbi_response ≡ dbi_response) × (dbi_list ≡ dbi_list)))
make_header_lem_example = make_header_lem 1 3 7 1 3 names (omega arith) (omega arith) (omega arith)

file_request_lem_example :
    (length (file_request 9 513 names) ≡ 16 + length names)
    × (u32_at (file_request 9 513 names) 0 ≡ 9)
    × (u64_at (file_request 9 513 names) 4 ≡ 513)
    × (u32_at (file_request 9 513 names) 12 ≡ length names)
    × (drop 16 (file_request 9 513 names) ≡ names)
file_request_lem_example = file_request_lem 9 513 names (omega arith) (omega arith) (omega arith)

abbrev stream : Pipe
stream = record { input = names; output = [] }

read_exact-Reads_example :
    Reads wire
      (λ pipe. pipe.input)
      (λ pipe. pipe.output)
      wire_stream
      3
      stream
      (read_exact wire 3 stream)
read_exact-Reads_example =
    read_exact-Reads wire (λ pipe. pipe.input) (λ pipe. pipe.output) wire_stream 3 stream

read_exact_served_example :
    (y : Pipe) × (read_exact wire 5 stream ≡ (done (codes "a.nsp"), y))
    × (y.input ≡ newline ∷ codes "b")
read_exact_served_example =
    read_exact_served wire (λ pipe. pipe.input) (λ pipe. pipe.output) wire_stream wire_reliable
      stream (codes "a.nsp") (newline ∷ codes "b") refl

write_exact-Writes_example :
    Writes wire
      (λ pipe. pipe.input)
      (λ pipe. pipe.output)
      wire_stream
      names
      stream
      (write_exact wire names stream)
write_exact-Writes_example =
    write_exact-Writes wire (λ pipe. pipe.input) (λ pipe. pipe.output) wire_stream names stream

fetch_catalog-connected_example :
    (fetch_catalog wire 100 server).1.connected ≡ is_done (fetch_catalog wire 100 server).0
fetch_catalog-connected_example = fetch_catalog-connected wire 100 server refl (omega arith)

read_file_range-connected_example :
    (read_file_range wire names 0 1 1 server).1.connected
    ≡ is_done (read_file_range wire names 0 1 1 server).0
read_file_range-connected_example = read_file_range-connected wire names 0 1 1 server refl

adapter_close-connected_example :
    (adapter_close wire (record server { connected = true })).1.connected ≡ false
adapter_close-connected_example =
    adapter_close-connected wire (record server { connected = true }) refl

fetch_catalog_served_example :
    ((fetch_catalog wire 100 server).0 ≡ done names)
    × ((fetch_catalog wire 100 server).1.context.input ≡ [])
fetch_catalog_served_example =
    fetch_catalog_served wire (λ pipe. pipe.input) (λ pipe. pipe.output) wire_stream wire_reliable
      100 server names [] refl refl (omega arith) (omega arith) refl

catalog_answered : (fetch_catalog wire 100 server).0 ≡ done names
catalog_answered =
    (fetch_catalog_served wire (λ pipe. pipe.input) (λ pipe. pipe.output) wire_stream wire_reliable
      100 server names [] refl refl (omega arith) (omega arith) refl).0

names_allowed : AllAllowed names
names_allowed =
    (inr refl, (inr refl, (inr refl, (inr refl, (inr refl, (inl refl, (inr refl, tt)))))))

fetch_catalog-Wire_example :
    CatalogWire wire
      (λ pipe. pipe.input)
      (λ pipe. pipe.output)
      wire_stream
      100
      server.context
      names
      (fetch_catalog wire 100 server).1.context
fetch_catalog-Wire_example =
    fetch_catalog-Wire wire (λ pipe. pipe.input) (λ pipe. pipe.output) wire_stream 100 server names
      catalog_answered

abbrev two_files : FileCatalog
two_files = catalog_of names

list_remote_files_served_example :
    (list_remote_files (dbi_catalog_port wire) 100 server).0 ≡ (ts_ok, some two_files)
list_remote_files_served_example =
    list_remote_files_served wire (λ pipe. pipe.input) (λ pipe. pipe.output) wire_stream
      wire_reliable 100 server names [] refl refl (omega arith) (omega arith) names_allowed refl

-- A peer that serves the first byte of a file.
abbrev prober : Adapter Pipe
prober = adapter_init (record {
  input =
      make_header dbi_ack dbi_file_range 21 ++ make_header dbi_response dbi_file_range 1 ++ 7 ∷ [];
  output = [];
})

byte_answered : (read_file_range wire (codes "a.nsp") 0 1 1 prober).0 ≡ done (7 ∷ [])
unfolding read_file_range ensure_connected range_exchange read_exact read_rounds write_exact
    write_rounds make_header write_u32_le le_bytes file_request validate_header u32_at u16_at same
    disconnect
byte_answered = refl

read_file_range-Wire_example :
    RangeWire wire
      (λ pipe. pipe.input)
      (λ pipe. pipe.output)
      wire_stream
      (codes "a.nsp")
      0
      1
      prober.context
      (7 ∷ [])
      (read_file_range wire (codes "a.nsp") 0 1 1 prober).1.context
read_file_range-Wire_example =
    read_file_range-Wire wire (λ pipe. pipe.input) (λ pipe. pipe.output) wire_stream (codes "a.nsp")
      0 1 1 prober (7 ∷ []) byte_answered

abbrev first_probe : FileProbe
first_probe = record { name = codes "a.nsp"; first_byte = 7 }

probed_first :
    (probe_remote_file (dbi_file_port wire) two_files 0 prober).0 ≡ (ts_ok, some first_probe)
unfolding probe_remote_file copy_name find_name strip_cr read_file_range ensure_connected
    range_exchange read_exact read_rounds write_exact write_rounds make_header write_u32_le le_bytes
    file_request validate_header u32_at u16_at same disconnect
probed_first = refl

probe_remote_file-Wire_example :
    (copy_name two_files 0 file_name_capacity ≡ (ts_ok, some (codes "a.nsp")))
    × RangeWire wire
        (λ pipe. pipe.input)
        (λ pipe. pipe.output)
        wire_stream
        (codes "a.nsp")
        0
        1
        prober.context
        (7 ∷ [])
        (probe_remote_file (dbi_file_port wire) two_files 0 prober).1.context
probe_remote_file-Wire_example =
    probe_remote_file-Wire wire (λ pipe. pipe.input) (λ pipe. pipe.output) wire_stream two_files 0
      prober first_probe probed_first

-- ===== src/Domain/Status.antt =====
-- switch_app/include/transfer_switch/domain/status.h and switch_app/source/domain/status.c.
use transferencia_switch.Base.{String, Bool, true, false}

-- `TsStatus`
pub data Status : Type 0 where
  ts_ok ts_invalid_argument ts_invalid_catalog ts_buffer_too_small ts_transport_error
        ts_protocol_error :
      Status

-- `ts_status_message`; its `default` is for numbers that are no status.
unfoldable pub status_message : Status → String
status_message ts_ok = "operación completada"
status_message ts_invalid_argument = "argumento inválido"
status_message ts_invalid_catalog = "lista de archivos inválida"
status_message ts_buffer_too_small = "la lista supera el límite disponible"
status_message ts_transport_error = "error de comunicación USB"
status_message ts_protocol_error = "respuesta incompatible del programa del PC"

-- `status == TS_OK`
abbrev pub is_ok : Status → Bool
is_ok ts_ok = true
is_ok ts_invalid_argument = false
is_ok ts_invalid_catalog = false
is_ok ts_buffer_too_small = false
is_ok ts_transport_error = false
is_ok ts_protocol_error = false

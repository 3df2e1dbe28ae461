-- ===== src/Install/Cnmt.antt =====
-- readCnmt of sd_install_receiver.cpp: the content metadata inside an NCA.
use transferencia_switch.Base.{
  ℕ, not, ◌||◌, Option, none, some, List, [], ◌∷◌, ◌++◌, length, take, ltb, ◌==◌, if◌then◌else◌,
}
use transferencia_switch.Base.Bytes.{Bytes, codes, lower}
use transferencia_switch.Install.Names.{ends_with}
use transferencia_switch.Install.Header.{max_header_size}
use transferencia_switch.Install.Services.{succeeded}
use transferencia_switch.Install.MetaServices.{MetaServices}
use transferencia_switch.Install.Sink.{Sink, Detail, text, coded, cnmt_not_opened, fail_with}

-- `sizeof(PackagedContentMetaHeader)`
abbrev pub packaged_header_size : ℕ
packaged_header_size = 32

-- The first name of a batch that ends in `.cnmt`.
unfoldable pub first_cnmt : List Bytes → Option Bytes
first_cnmt [] = none
first_cnmt (candidate ∷ names) =
    if ends_with (lower candidate) (codes ".cnmt") then some candidate else first_cnmt names

abbrev or_later : Option Bytes → Option Bytes → Option Bytes
or_later (some name) later = some name
or_later none later = later

-- The loop over the directory, by the batches that are left.
unfoldable pub find_cnmt : List (ℕ × List Bytes) → Option Bytes
find_cnmt [] = none
find_cnmt ((result, names) ∷ batches) =
    let later = or_later (first_cnmt names) (find_cnmt batches) in
    if not (succeeded result) || length names == 0 then none else later

-- The bytes of a file, or how it could not be read.
pub data Read : Type 0 where
  bytes_of : Bytes → Read
  unread : Detail → Read

module _ {W : Type 0} (meta : MetaServices W) where
  abbrev read_whole : Bytes → Bytes → ℕ → W → Read
  read_whole path name size w =
      let (result, bytes) = meta.read_file path name size w in
      if not (succeeded result) || not (length bytes == size)
      then unread (coded "lectura CNMT incompleta" result)
      else bytes_of bytes

  abbrev read_opened : Bytes → Bytes → W → Read
  read_opened path name w =
      let (result, size) = meta.get_file_size path name w in
      if not (succeeded result) || ltb size packaged_header_size || ltb max_header_size size
      then unread (text "tamano CNMT invalido")
      else read_whole path name size w

  -- The file is opened by its path from the root and, if that fails, by its name.
  abbrev open_and_read : Bytes → Bytes → W → Read
  open_and_read path candidate w =
      let rooted = codes "/" ++ candidate in
      if succeeded (meta.open_file path rooted w)
      then read_opened path rooted w
      else let result = meta.open_file path candidate w in
        if succeeded result
        then read_opened path candidate w
        else unread (cnmt_not_opened (take 32 rooted) result)

  abbrev read_found : Bytes → Option Bytes → W → Read
  read_found path none w = unread (text "CNMT interno no encontrado")
  read_found path (some candidate) w = open_and_read path candidate w

  unfoldable pub cnmt_bytes : Bytes → W → Read
  cnmt_bytes id w =
      let (found, path) = meta.get_path id w in
      if not (succeeded found)
      then unread (coded "no se encontro ruta CNMT" found)
      else if not (succeeded (meta.open_file_system path w))
      then unread (coded "no se pudo abrir filesystem CNMT" (meta.open_file_system path w))
      else if not (succeeded (meta.open_directory path w))
      then unread (coded "no se pudo listar CNMT" (meta.open_directory path w))
      else read_found path (find_cnmt (meta.read_directory path w)) w

  abbrev pub read_result : Read → Sink W → Option Bytes × Sink W
  read_result (unread detail) s = (none, (fail_with detail s).1)
  read_result (bytes_of bytes) s = (some bytes, s)

  -- `readCnmt`
  unfoldable pub read_cnmt : Bytes → Sink W → Option Bytes × Sink W
  read_cnmt id s = read_result (cnmt_bytes id s.world) s

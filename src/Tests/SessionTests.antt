-- ===== src/Tests/SessionTests.antt =====
-- Metadata services beside the shelf, and a package from its opening to its end.
use transferencia_switch.Base.{
  get_or, take, drop, some, ◌≡◌, refl, Bool, true, ◌||◌, List, [], ◌∷◌, ◌++◌, arith, inl, inr,
}
use transferencia_switch.Base.Bytes.{Bytes, codes, same}
use transferencia_switch.Base.Words.{u16_at, u32_at, u64_at}
use transferencia_switch.Install.Header.{member}
use transferencia_switch.Install.Sink.{empty, Sink, nsp, new_sink}
use transferencia_switch.Install.Stream.{write}
use transferencia_switch.Install.Stream.Total.{IsReady, write-returns}
use transferencia_switch.Install.Rollback.{close_place_holder, abort}
use transferencia_switch.Install.Undo.{IsFresh}
use transferencia_switch.Install.Undo.Rollbacks.{left_over}
use transferencia_switch.Install.Session.{Session, begun, wrote, abort-Session}
use transferencia_switch.Install.MetaServices.{NcmLayout, MetaServices}
use transferencia_switch.Install.Finish.{finish}
use transferencia_switch.Install.Finish.Tracks.{MetaLaws}
use transferencia_switch.Install.Finish.Settled.{IsSettled, finish-Session}
use transferencia_switch.Tests.Shelf.{
  shelf, shelf_laws, stuck_shelf, stuck_shelf_laws, id_one, id_old, one_file,
}
use transferencia_switch.Install.Session.{Session, begun, wrote, abort-Session}
use transferencia_switch.Install.Services.{MetaKey}
use transferencia_switch.Install.MetaServices.{NcmLayout, MetaServices}
use transferencia_switch.Install.Meta.{
  read_packaged_header, find_entry_size, is_supported, concat, select, built, build_install_meta,
}
use transferencia_switch.Install.Meta.Complete.{IsComplete, build_install_meta-IsComplete}
use transferencia_switch.Install.Setup.{SetupServices, Factory, open_sink}
use transferencia_switch.Install.Setup.Prepared.{SetupLaws}
use transferencia_switch.Install.Setup.Opened.{Opened, open_sink-Opened}
use transferencia_switch.Install.Finish.{finish}
use transferencia_switch.Install.Finish.Tracks.{MetaLaws}
use transferencia_switch.Install.Finish.Settled.{IsSettled, finish-Session}

-- Records of 24 bytes, each with an id of three, and metadata that cannot be read.
abbrev shelf_layout : NcmLayout
shelf_layout = record {
  application_type = 0x80;
  patch_type = 0x81;
  add_on_type = 0x82;
  legal_information = 5;
  packaged_content_size = 24;
  meta_info_size = 16;
  patch_extended_size = 24;
  content_type = λ bytes. get_or bytes 23 0;
  content_id = λ bytes. take 3 bytes;
  content_size = λ bytes. 0;
  content_info = λ bytes. take 24 bytes;
  install_header = λ extended contents metas attributes. contents ∷ metas ∷ [];
  meta_content_info = λ id size. id;
  extended_data_size = λ bytes. 0;
}

abbrev shelf_meta : MetaServices (List Bytes)
shelf_meta = record {
  get_path = λ id w. (0, id);
  open_file_system = λ path w. 0;
  open_directory = λ path w. 0;
  read_directory = λ path w. [];
  open_file = λ path name w. 0;
  get_file_size = λ path name w. (0, 0);
  read_file = λ path name size w. (0, []);
  open_es = λ w. (0, w);
  import_ticket = λ ticket certificate w. (0, w);
  set_meta = λ key bytes w. (0, w);
  push_application_record = λ key id w. (0, w);
}

shelf_meta_laws : MetaLaws shelf_meta member
shelf_meta_laws = record {
  open_es_keeps = λ j w. refl;
  import_ticket_keeps = λ ticket certificate j w. refl;
  set_meta_keeps = λ key bytes j w. refl;
  push_application_record_keeps = λ key id j w. refl;
}

abbrev shelf_setup : SetupServices (List Bytes)
shelf_setup = record {
  ncm_initialize = λ w. (0, w);
  open_content_storage = λ w. (0, w);
  ns_initialize = λ w. (0, w);
  get_application_manager = λ w. (0, w);
  spl_crypto_initialize = λ w. (0, w);
  spl_initialize = λ w. (0, w);
  generate_aes_kek = λ source generation option w. (0, source);
  generate_aes_key = λ kek source w. (0, source);
}

shelf_setup_laws : SetupLaws shelf_setup member
shelf_setup_laws = record {
  ncm_initialize_keeps = λ j w. refl;
  open_content_storage_keeps = λ j w. refl;
  ns_initialize_keeps = λ j w. refl;
  get_application_manager_keeps = λ j w. refl;
  spl_crypto_initialize_keeps = λ j w. refl;
  spl_initialize_keeps = λ j w. refl;
}

abbrev factory : Factory
factory = record { storage_id = 7; detail = empty }

open_sink-Opened_example :
    Opened shelf shelf_setup member shelf_setup_laws
      (id_old ∷ [])
      7
      (some (codes "/a/b.xci"))
      0x200000
      factory
      (open_sink shelf shelf_setup 7 (some (codes "/a/b.xci")) 0x200000 factory (id_old ∷ []))
open_sink-Opened_example =
    open_sink-Opened shelf shelf_setup member shelf_setup_laws (id_old ∷ []) 7
      (some (codes "/a/b.xci")) 0x200000 factory

-- The content id that the name of the one file spells.
abbrev file_id : Bytes
file_id = 0 ∷ 1 ∷ 2 ∷ 3 ∷ 4 ∷ 5 ∷ 6 ∷ 7 ∷ 8 ∷ 9 ∷ 10 ∷ 11 ∷ 12 ∷ 13 ∷ 14 ∷ 15 ∷ []

abbrev opened_nsp : Sink (List Bytes)
opened_nsp = record (new_sink (codes "a.nsp") 81 nsp (id_old ∷ [])) { content_storage_open = true }

opened_nsp-IsFresh : IsFresh opened_nsp
opened_nsp-IsFresh = record {
  nothing_registered = refl;
  no_entry = refl;
  is_open = refl;
  not_aborted = refl;
  not_finished = refl;
}

abbrev whole_package : Bytes
whole_package = one_file ++ 1 ∷ 2 ∷ 3 ∷ 4 ∷ []

-- What the write of the whole package returns.
abbrev package_written :
    (b : Bool × Sink (List Bytes)) × (write shelf whole_package opened_nsp ≡ some b) × IsReady b.1
package_written = write-returns shelf whole_package opened_nsp (inr (inr (inl (refl, omega arith))))

abbrev arrived : Sink (List Bytes)
arrived = package_written.0.1

package_session : Session shelf opened_nsp arrived
package_session = wrote opened_nsp arrived whole_package package_written.0.0 begun package_written.1

-- The same package where no content can be deleted.
abbrev stuck_written :
    (b : Bool × Sink (List Bytes)) × (write stuck_shelf whole_package opened_nsp ≡ some b)
    × IsReady b.1
stuck_written =
    write-returns stuck_shelf whole_package opened_nsp (inr (inr (inl (refl, omega arith))))

abbrev stuck : Sink (List Bytes)
stuck = stuck_written.0.1

stuck_session : Session stuck_shelf opened_nsp stuck
stuck_session = wrote opened_nsp stuck whole_package stuck_written.0.0 begun stuck_written.1

abort-Session_example : member file_id (abort stuck_shelf stuck).world ≡ (
    member file_id opened_nsp.world
    || left_over stuck_shelf file_id (close_place_holder stuck_shelf stuck))
abort-Session_example =
    abort-Session stuck_shelf member opened_nsp stuck file_id stuck_shelf_laws opened_nsp-IsFresh
      stuck_session

finish-Session_example :
    IsSettled shelf_layout shelf shelf_meta member
      (λ j. member j opened_nsp.world)
      shelf_laws
      shelf_meta_laws
      id_old
      (finish shelf_layout shelf shelf_meta arrived)
finish-Session_example =
    finish-Session shelf_layout shelf shelf_meta member opened_nsp arrived id_old shelf_laws
      shelf_meta_laws opened_nsp-IsFresh package_session

-- Metadata of an application with one content, which is on the shelf.
abbrev packaged : Bytes
packaged =
    (1 ∷ 0 ∷ 0 ∷ 0 ∷ 0 ∷ 0 ∷ 0 ∷ 0 ∷ 2 ∷ 0 ∷ 0 ∷ 0 ∷ 0x80 ∷ 0 ∷ 0 ∷ 0 ∷ 1 ∷ 0 ∷ 0 ∷ 0 ∷ 0 ∷ 0 ∷ 0
      ∷ 0 ∷ 0 ∷ 0 ∷ 0 ∷ 0 ∷ 0 ∷ 0 ∷ 0 ∷ 0 ∷ [])
    ++ (1 ∷ 2 ∷ 3 ∷ 0 ∷ 0 ∷ 0 ∷ 0 ∷ 0 ∷ 0 ∷ 0 ∷ 0 ∷ 0 ∷ 0 ∷ 0 ∷ 0 ∷ 0 ∷ 0 ∷ 0 ∷ 0 ∷ 0 ∷ 0 ∷ 0 ∷ 0
        ∷ 1 ∷ [])

abbrev stored : Sink (List Bytes)
stored = new_sink (codes "a.nsp") 81 nsp (id_one ∷ [])

abbrev stored_meta : Bytes × MetaKey
stored_meta =
    (2 ∷ 0 ∷ 9 ∷ drop 32 packaged, record { id = 1; version = 2; type = 0x80; install_type = 0 })

meta_built : (build_install_meta shelf_layout shelf packaged id_old stored).0 ≡ some stored_meta
unfolding build_install_meta built select concat is_supported read_packaged_header find_entry_size
    member same u16_at u32_at u64_at
meta_built = refl

build_install_meta-IsComplete_example :
    IsComplete shelf_layout shelf packaged id_old stored stored_meta
build_install_meta-IsComplete_example =
    build_install_meta-IsComplete shelf_layout shelf packaged id_old stored stored_meta meta_built

-- ===== src/Conf/Examples/Updating.antt =====
-- Runs of the transaction of internal/conf/update.go, and its theorems at a concrete file.
use arupa.Base.{
  ℕ, ◌<◌, length, ◌≡◌, refl, sym, ap, ◌∙◌, false, List, [], ◌∷◌, Option, none, some, GoString,
  string_eq,
}
use arupa.Base.{◌==◌, ==_self, if◌then◌else◌, bool_eq}
use arupa.Strings.{bytes, trim_space, to_lower, to_upper, lower_byte, upper_byte}
use arupa.Service.Filepath.{split_slash}
use arupa.Conf.Types.{no_config, no_log, no_api}
use arupa.Conf.Keys.{validate_toml_keys, valid_toml_key}
use arupa.Conf.Validate.{validate_config, is_level, is_format}
use arupa.Conf.Pointer.{parse_pointer}
use arupa.Conf.Editor.{new_editor}
use arupa.Conf.Editor.Request.{Value, OperationType, Operation, is_nil}
use arupa.Conf.Editor.Apply.{apply_operations}
use arupa.Conf.Store.{
  File, Creation, Disk, Decoded, Library, ConfigState, update, publish, read_config, decode_config,
  commit, base_of, edit_and_commit, load_config,
}
use arupa.Conf.Store.Place.{config_at, place}
use arupa.Conf.Store.Equal.{deep_equal}
use arupa.Conf.Heap.{read_cell}
use arupa.Conf.Store.Load.{LoadOutcome, load_config-Outcome}
use arupa.Conf.Store.Memory.{update-memory}
use arupa.Conf.Store.Atomic.{Outcome, update-Outcome}

-- A file that holds nothing but the address to listen on.
abbrev decoded : GoString → Decoded
decoded source = record {
  config = record no_config { listen = source };
  keys = (bytes "Listen" ∷ []) ∷ [];
  undecoded = [];
}

abbrev new_text : Value → Option GoString
new_text (Value.text s) = some s
new_text _ = none

abbrev lib : Library GoString
lib = record {
  decode = λ source. some (decoded source);
  parse_document = λ source. some source;
  edit_document = λ op segments document. new_text op.value;
  document_bytes = λ document. document;
  stat_fails = λ path disk. false;
  create_file = λ path disk. Creation.created (λ p. if p == path then File.content [] else disk p);
  replace_file = λ path source disk. some (λ p. if p == path then File.content source else disk p);
}

replaces :
    (path source : GoString) (disk disk' : Disk)
    → lib.replace_file path source disk ≡ some disk'
    → disk' path ≡ File.content source
replaces path source disk disk' q =
    ap (λ (d : Disk). d path) (sym (inner q)) ∙ rw (==_self path) refl
  where
    inner : {a b : Disk} → ◌≡◌ {A = Option Disk} (some a) (some b) → a ≡ b
    inner q = cc

abbrev disk : Disk
disk path = File.content (bytes ":80")

abbrev state : ConfigState
state = record {
  path = bytes "arupa.toml";
  current = record {
    listen = bytes ":80";
    tls = false;
    log = no_log;
    api = no_api;
    users = none;
    groups = none;
    route_allow = none;
    service_dir = [];
    service_temp_dir = [];
    services = none;
    pages = none;
  };
  groups_by_user = [];
  heap = record { strings = []; slices = []; services = [] };
}

abbrev operations : List Operation
operations =
    record { kind = OperationType.set; path = bytes "/Listen"; value = Value.text (bytes ":81") }
    ∷ []

update_test : (update lib operations disk state).0.current.listen ≡ bytes ":81"
unfolding update publish read_config decode_config commit base_of edit_and_commit place config_at
    deep_equal validate_config validate_toml_keys valid_toml_key is_level is_format trim_space
    to_lower to_upper lower_byte upper_byte string_eq bool_eq apply_operations new_editor
    parse_pointer split_slash is_nil
update_test = refl

update-Outcome_example : Outcome lib state disk (update lib operations disk state)
update-Outcome_example = update-Outcome lib replaces operations disk state

-- Memory with a map of users that nothing of the update concerns.
abbrev with_users : ConfigState
with_users = record state {
  heap = record { strings = ((bytes "ann", bytes "hash") ∷ []) ∷ []; slices = []; services = [] };
}

update-memory_example :
    (let after = (update lib operations disk with_users).0.heap in
      ((a : ℕ)
        → a < length with_users.heap.strings
        → read_cell a after.strings ≡ read_cell a with_users.heap.strings)
      × ((a : ℕ)
          → a < length with_users.heap.slices
          → read_cell a after.slices ≡ read_cell a with_users.heap.slices)
      × ((a : ℕ)
          → a < length with_users.heap.services
          → read_cell a after.services ≡ read_cell a with_users.heap.services))
update-memory_example = update-memory lib operations disk with_users

load_config-Outcome_example :
    LoadOutcome lib
      (bytes "other.toml")
      disk
      state
      (load_config lib (bytes "other.toml") disk state)
load_config-Outcome_example = load_config-Outcome lib (bytes "other.toml") disk state

-- ===== src/Conf/Editor/Request.antt =====
-- The operations of internal/conf/update.go and the values that they carry.
use arupa.Base.{ℕ, Bool, true, false, GoString, Option, none, some}
use arupa.Conf.Types.{ApiConfig, LogConfig, Slice}
use arupa.Conf.Heap.{Ref, ServiceCell}

-- A Go `any`, by the types that the editor asks for. A map is its address.
pub data Value : Type 0 where
  nil other : Value
  text : GoString → Value
  boolean : Bool → Value
  api : ApiConfig → Value
  log : LogConfig → Value
  string_map slice_map service_map : Ref → Value
  slice : Slice → Value
  route : (allow : Ref) → Value
  service : ServiceCell → Value

-- `OperationType`, a byte with two named values.
pub data OperationType : Type 0 where
  set remove : OperationType
  unknown : ℕ → OperationType

pub record Operation : Type 0 where
  pub kind : OperationType  -- `Type`
  pub path : GoString
  pub value : Value

abbrev none_ref : Ref → Bool
none_ref none = true
none_ref (some a) = false

abbrev none_slice : Slice → Bool
none_slice none = true
none_slice (some xs) = false

unfoldable pub is_nil : Value → Bool
is_nil Value.nil = true
is_nil (Value.string_map r) = none_ref r
is_nil (Value.slice_map r) = none_ref r
is_nil (Value.service_map r) = none_ref r
is_nil (Value.slice s) = none_slice s
is_nil _ = false

-- The type assertions.
abbrev pub as_text : Value → Option GoString
as_text (Value.text s) = some s
as_text _ = none

abbrev pub as_boolean : Value → Option Bool
as_boolean (Value.boolean b) = some b
as_boolean _ = none

abbrev pub as_api : Value → Option ApiConfig
as_api (Value.api a) = some a
as_api _ = none

abbrev pub as_log : Value → Option LogConfig
as_log (Value.log l) = some l
as_log _ = none

abbrev pub as_string_map : Value → Option Ref
as_string_map (Value.string_map r) = some r
as_string_map _ = none

abbrev pub as_slice_map : Value → Option Ref
as_slice_map (Value.slice_map r) = some r
as_slice_map _ = none

abbrev pub as_service_map : Value → Option Ref
as_service_map (Value.service_map r) = some r
as_service_map _ = none

abbrev pub as_slice : Value → Option Slice
as_slice (Value.slice s) = some s
as_slice _ = none

abbrev pub as_route : Value → Option Ref
as_route (Value.route r) = some r
as_route _ = none

abbrev pub as_service : Value → Option ServiceCell
as_service (Value.service s) = some s
as_service _ = none

pub data EditError : Type 0 where
  root_update unknown_field scalar_field not_a_container key_required whole_array : EditError
  wrong_type field_required : EditError
  unknown_operation : ℕ → EditError

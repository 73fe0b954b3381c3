-- ===== src/Protocol/ErrorCode.antt =====
-- The 4xx codes of crates/xeedee/src/protocol/status.rs: `ErrorCode`, its wire numbers and texts.
use xeedee.Base.{ℕ, ◌&&◌, Option, none, some, ◌++◌, Bytes, codes, ltb, leb, ◌==◌, if◌then◌else◌}
use xeedee.Text.Number.{print}

pub data ErrorCode : Type 0 where
  undefined_error : ErrorCode
  max_connections_exceeded : ErrorCode
  file_not_found : ErrorCode
  no_such_module : ErrorCode
  memory_not_mapped : ErrorCode
  no_such_thread : ErrorCode
  clock_not_set : ErrorCode
  unknown_command : ErrorCode
  not_stopped : ErrorCode
  file_cannot_be_opened : ErrorCode
  invalid_filename : ErrorCode
  file_already_exists : ErrorCode
  directory_not_empty : ErrorCode
  bad_file_name : ErrorCode
  file_cannot_be_created : ErrorCode
  access_denied : ErrorCode
  no_room_on_device : ErrorCode
  not_debuggable : ErrorCode
  type_invalid : ErrorCode
  data_not_available : ErrorCode
  other_error : ErrorCode

unfoldable pub from_raw : ℕ → Option ErrorCode
from_raw raw =
    if raw == 400
    then some undefined_error
    else if raw == 401
    then some max_connections_exceeded
    else if raw == 402
    then some file_not_found
    else if raw == 403
    then some no_such_module
    else if raw == 404
    then some memory_not_mapped
    else if raw == 405
    then some no_such_thread
    else if raw == 406
    then some clock_not_set
    else if raw == 407
    then some unknown_command
    else if raw == 408
    then some not_stopped
    else if raw == 409
    then some file_cannot_be_opened
    else if raw == 410
    then some invalid_filename
    else if raw == 411
    then some file_already_exists
    else if raw == 412
    then some directory_not_empty
    else if raw == 413
    then some bad_file_name
    else if raw == 414
    then some file_cannot_be_created
    else if raw == 415
    then some access_denied
    else if raw == 416
    then some no_room_on_device
    else if raw == 417
    then some not_debuggable
    else if raw == 418
    then some type_invalid
    else if raw == 419
    then some data_not_available
    else if leb 400 raw && ltb raw 500
    then some other_error
    else none

unfoldable pub raw : ErrorCode → ℕ
raw undefined_error = 400
raw max_connections_exceeded = 401
raw file_not_found = 402
raw no_such_module = 403
raw memory_not_mapped = 404
raw no_such_thread = 405
raw clock_not_set = 406
raw unknown_command = 407
raw not_stopped = 408
raw file_cannot_be_opened = 409
raw invalid_filename = 410
raw file_already_exists = 411
raw directory_not_empty = 412
raw bad_file_name = 413
raw file_cannot_be_created = 414
raw access_denied = 415
raw no_room_on_device = 416
raw not_debuggable = 417
raw type_invalid = 418
raw data_not_available = 419
raw other_error = 499

unfoldable pub message : ErrorCode → Bytes
message undefined_error = codes "undefined error"
message max_connections_exceeded = codes "max number of connections exceeded"
message file_not_found = codes "file not found"
message no_such_module = codes "no such module"
message memory_not_mapped = codes "memory not mapped"
message no_such_thread = codes "no such thread"
message clock_not_set = codes "clock not set"
message unknown_command = codes "unknown command"
message not_stopped = codes "not stopped"
message file_cannot_be_opened = codes "file cannot be opened"
message invalid_filename = codes "invalid filename"
message file_already_exists = codes "file already exists"
message directory_not_empty = codes "directory not empty"
message bad_file_name = codes "bad file name"
message file_cannot_be_created = codes "file cannot be created"
message access_denied = codes "access denied"
message no_room_on_device = codes "no room on device"
message not_debuggable = codes "not debuggable"
message type_invalid = codes "type invalid"
message data_not_available = codes "data not available"
message other_error = codes "other error"

-- `Display`
unfoldable pub display : ErrorCode → Bytes
unfolding raw message
display code = print 10 (raw code) ++ codes " (" ++ message code ++ codes ")"

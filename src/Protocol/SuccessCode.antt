-- ===== src/Protocol/SuccessCode.antt =====
-- The 2xx codes of crates/xeedee/src/protocol/status.rs: `SuccessCode` and its wire numbers.
use xeedee.Base.{ℕ, Option, none, some, ◌==◌, Bytes, if◌then◌else◌}
use xeedee.Text.Number.{print}

pub data SuccessCode : Type 0 where
  ok : SuccessCode
  connected : SuccessCode
  multiline_follows : SuccessCode
  binary_follows : SuccessCode
  send_binary : SuccessCode
  disconnecting : SuccessCode
  dedicated : SuccessCode

unfoldable pub from_raw : ℕ → Option SuccessCode
from_raw raw =
    if raw == 200
    then some ok
    else if raw == 201
    then some connected
    else if raw == 202
    then some multiline_follows
    else if raw == 203
    then some binary_follows
    else if raw == 204
    then some send_binary
    else if raw == 205
    then some disconnecting
    else if raw == 206
    then some dedicated
    else none

unfoldable pub raw : SuccessCode → ℕ
raw ok = 200
raw connected = 201
raw multiline_follows = 202
raw binary_follows = 203
raw send_binary = 204
raw disconnecting = 205
raw dedicated = 206

-- `Display`
unfoldable pub display : SuccessCode → Bytes
unfolding raw
display code = print 10 (raw code)

-- ===== src/Protocol/Command.antt =====
-- What a command is: crates/xeedee/src/protocol/command.rs. The trait is a record; an error report
-- is the error that it holds.
use xeedee.Base.{ℕ, Option, none, Bytes, Result}
use xeedee.Protocol.Error.{Error}
use xeedee.Protocol.ErrorCode.{ErrorCode}
use xeedee.Protocol.Response.{Response}

pub data ExpectedBody : Type 0 where
  line_body multiline_body binary_body upload_binary : ExpectedBody

pub record Command (A : Type 0) : Type 0 where
  pub wire_line : Result Error Bytes
  pub expected : ExpectedBody
  pub binary_len : Option ℕ
  pub parse : Response → Result Error A
  pub handle_remote : ErrorCode → Bytes → Option (Result Error A)

-- The default of `handle_remote`.
abbrev pub no_remote : {A : Type 0} → ErrorCode → Bytes → Option (Result Error A)
no_remote code message = none

-- A command with the trait's defaults.
abbrev pub simple :
    {A : Type 0} → Result Error Bytes → ExpectedBody → (Response → Result Error A) → Command A
simple wire body parse = record {
  wire_line = wire;
  expected = body;
  binary_len = none;
  parse = parse;
  handle_remote = no_remote;
}

-- ===== src/Protocol/Error.antt =====
-- The error types of crates/xeedee/src/error.rs, and `SubmitError` of
-- crates/xeedee/src/client/engine.rs, which `Error` holds. The variants of features that are not
-- modelled are left out.
use xeedee.Base.{ℕ, Option, Bytes}
use xeedee.Protocol.ErrorCode.{ErrorCode}
use xeedee.Protocol.StatusCode.{StatusCode}
use xeedee.Protocol.SuccessCode.{SuccessCode}

pub data FramingError : Type 0 where
  line_too_long non_utf8_line head_too_short non_digit_in_status status_out_of_range missing_banner
        trailing_garbage_in_head :
      FramingError

pub data ParseError : Type 0 where
  missing_key invalid_hex_digits invalid_decimal_u32 invalid_decimal_u64 missing_quadword_prefix
        quadword_wrong_length invalid_quadword_hex :
      Bytes → ParseError
  unrecognized_shape : ParseError

pub data ArgumentError : Type 0 where
  quoted_contains_double_quote quoted_contains_crlf invalid_dbg_name_char empty_filename
        memory_length_overflow :
      ArgumentError

pub data TransportError : Type 0 where
  missing_binary_len connect_timeout : TransportError

pub data SubmitError : Type 0 where
  command_in_flight not_connected unusable : SubmitError

pub data PeError : Type 0 where
  missing_dos_signature missing_pe_signature : PeError
  unexpected_machine absurd_section_count : ℕ → PeError

pub data ExpectedShape : Type 0 where
  single_line_200 multiline_202 binary_203 send_binary_204 connected_201 : ExpectedShape

-- What the code itself builds of `std::io::Error`.
pub data IoErrorKind : Type 0 where
  unexpected_eof write_zero invalid_data : IoErrorKind

pub data Error : Type 0 where
  io : IoErrorKind → Error
  connection_closed : Error
  framing : FramingError → Error
  parse : ParseError → Error
  argument : ArgumentError → Error
  transport : TransportError → Error
  pe : PeError → Error
  remote : ErrorCode → Bytes → Error
  unknown_status_code : ℕ → Error
  unexpected_status : ExpectedShape → StatusCode → Error
  unexpected_success_code : SuccessCode → SuccessCode → Error
  stream_abandoned : Option ℕ → Error
  engine_misuse : SubmitError → Error

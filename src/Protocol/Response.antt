-- ===== src/Protocol/Response.antt =====
-- Responses and what a command may take from one: crates/xeedee/src/protocol/response.rs.
use xeedee.Base.{List, Bytes, Result, ok, err}
use xeedee.Protocol.Error.{
  Error, unexpected_success_code, unexpected_status, single_line_200, multiline_202, binary_203,
}
use xeedee.Protocol.SuccessCode.{SuccessCode}

pub data Response : Type 0 where
  line : SuccessCode → Bytes → Response
  multiline : Bytes → List Bytes → Response
  binary : Bytes → Bytes → Response
  send_binary : Bytes → Response

unfoldable pub head : Response → Bytes
head (line code h) = h
head (multiline h lines) = h
head (binary h body) = h
head (send_binary h) = h

unfoldable pub expect_ok : Response → Result Error Bytes
expect_ok (line SuccessCode.ok h) = ok h
expect_ok (line code h) = err (unexpected_success_code SuccessCode.ok code)
expect_ok _ = err (unexpected_status single_line_200 (record { raw = 200 }))

unfoldable pub expect_multiline : Response → Result Error (List Bytes)
expect_multiline (multiline h lines) = ok lines
expect_multiline _ = err (unexpected_status multiline_202 (record { raw = 202 }))

unfoldable pub expect_binary : Response → Result Error Bytes
expect_binary (binary h body) = ok body
expect_binary _ = err (unexpected_status binary_203 (record { raw = 203 }))

-- ===== src/Protocol/StatusCode.antt =====
-- Status codes: crates/xeedee/src/protocol/status.rs, `StatusCode` and `Classified`.
pub mod Classes
use xeedee.Base.{ℕ, Bool, ◌&&◌, ◌||◌, Option, none, some, ltb, leb, if◌then◌else◌}
use xeedee.Protocol.ErrorCode
use xeedee.Protocol.ErrorCode.{ErrorCode}
use xeedee.Protocol.SuccessCode
use xeedee.Protocol.SuccessCode.{SuccessCode}

pub record StatusCode : Type 0 where
  pub raw : ℕ

unfoldable pub new : ℕ → Option StatusCode
new n = if ltb n 100 || ltb 999 n then none else some (record { raw = n })

unfoldable pub is_success : StatusCode → Bool
is_success s = leb 200 s.raw && ltb s.raw 300

unfoldable pub is_error : StatusCode → Bool
is_error s = leb 400 s.raw && ltb s.raw 500

pub data Classified : Type 0 where
  success : SuccessCode → Classified
  error : ErrorCode → Classified
  unknown : StatusCode → Classified

unfoldable pub try_classify : StatusCode → Classified
try_classify s = elim (SuccessCode.from_raw s.raw) [
  | some c ↦ success c
  | none ↦ elim (ErrorCode.from_raw s.raw) [ some e ↦ error e | none ↦ unknown s ]
]

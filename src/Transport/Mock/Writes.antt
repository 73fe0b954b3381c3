-- ===== src/Transport/Mock/Writes.antt =====
-- What a write to the mock does to its script (crates/xeedee/src/transport/mock.rs).
use xeedee.Base.{
  ℕ, ◌≤◌, ◌<◌, ◌≡◌, ◌≢◌, some, List, [], ◌∷◌, ◌++◌, Bytes, Result, ok, err, length, take,
}
use xeedee.Protocol.Error.{IoErrorKind, invalid_data}
use xeedee.Transport.Capture.{server_to_client, client_to_server}
use xeedee.Transport.Mock.{MockTransport, ready, Answer}
use xeedee.Transport.Mock.Script.{Item, tagged, script, IsStanding}

-- The bytes written, the script before, the answer and the script after, of a mock that checks.
pub data Writes : Bytes → List Item → Result IoErrorKind ℕ → List Item → Type 0 where
  past_end : {buf : Bytes} → Writes buf [] (err invalid_data) []
  unexpected :
      {buf : Bytes} {b : ℕ} {rest : List Item}
      → Writes buf ((server_to_client, b) ∷ rest) (err invalid_data) ((server_to_client, b) ∷ rest)
  diverged :
      {buf : Bytes} (given : Bytes) (rest : List Item)
      → length given ≤ length buf
      → take (length given) buf ≢ given
      → Writes buf
          (tagged client_to_server given ++ rest)
          (err invalid_data)
          (tagged client_to_server given ++ rest)
  taken :
      {buf : Bytes} {n : ℕ} {rest : List Item}
      → 0 < n
      → n ≤ length buf
      → Writes buf (tagged client_to_server (take n buf) ++ rest) (ok n) rest

abbrev pub Answers : Bytes → MockTransport → Answer ℕ → Type 0
Answers buf m answer =
    (r : Result IoErrorKind ℕ) × (m' : MockTransport) × (answer ≡ some (ready r, m'))
    × Writes buf (script m) r (script m')
    × IsStanding m'

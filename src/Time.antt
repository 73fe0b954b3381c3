-- ===== src/Time.antt =====
-- FILETIME values: crates/xeedee/src/time.rs. A `SystemTime` is the seconds and nanoseconds that
-- have passed since the Unix epoch. The conversion of the `jiff` feature is left out.
use xeedee.Base.{ℕ, ◌+◌, ◌-◌, ◌*◌, ◌/◌, ◌%◌, ◌^◌, ◌<◌, ◌≡◌, refl, ap, arith, ltb, if◌then◌else◌}

-- Ticks of 100 nanoseconds since 1601-01-01.
pub record FileTime : Type 0 where
  pub ticks : ℕ

pub record SystemTime : Type 0 where
  pub secs : ℕ
  pub nanos : ℕ

abbrev pub unix_epoch : SystemTime
unix_epoch = record { secs = 0; nanos = 0 }

abbrev pub win_epoch_to_unix_100ns : ℕ
win_epoch_to_unix_100ns = 11_644_473_600 * 10_000_000

abbrev pub from_raw : ℕ → FileTime
from_raw ticks = record { ticks = ticks }

-- The shifted half and the low half have no bit in common, so that their `|` is their sum.
unfoldable pub from_halves : ℕ → ℕ → FileTime
from_halves high low = record { ticks = (high * 2 ^ 32) % 2 ^ 64 + low }

abbrev pub as_raw : FileTime → ℕ
as_raw t = t.ticks

unfoldable pub high : FileTime → ℕ
high t = (t.ticks / 2 ^ 32) % 2 ^ 32

unfoldable pub low : FileTime → ℕ
low t = t.ticks % 2 ^ 32

unfoldable pub into_system_time : FileTime → SystemTime
into_system_time t = if ltb t.ticks win_epoch_to_unix_100ns then unix_epoch else record {
  secs = (t.ticks - win_epoch_to_unix_100ns) / 10_000_000;
  nanos = (t.ticks - win_epoch_to_unix_100ns) % 10_000_000 * 100;
}

epoch_is_epoch : into_system_time (from_raw win_epoch_to_unix_100ns) ≡ unix_epoch
unfolding into_system_time
epoch_is_epoch = refl

-- A time is the one of its two halves, which are numbers of 32 bits.
halves_whole : (t : FileTime) → t.ticks < 2 ^ 64 → from_halves (high t) (low t) ≡ t
unfolding from_halves high low
halves_whole t h = ap from_raw (omega (arith, h))

-- A time of 64 bits is what its two 32-bit halves make, and two such halves are those of the time
-- they make; its system time has less than a second in nanoseconds, and as many nanoseconds in all
-- as the time has ticks of 100 since the Unix epoch, none if it is earlier.
pub from_halves-high :
    (t : FileTime) (h l : ℕ)
    → t.ticks < 2 ^ 64
    → h < 2 ^ 32
    → l < 2 ^ 32
    → (from_halves (high t) (low t) ≡ t)
      × (high (from_halves h l) ≡ h)
      × (low (from_halves h l) ≡ l)
      × ((into_system_time t).nanos < 1_000_000_000)
      × ((into_system_time t).secs * 1_000_000_000 + (into_system_time t).nanos
          ≡ 100 * (t.ticks - win_epoch_to_unix_100ns))
unfolding from_halves high low into_system_time
from_halves-high t h l ht hh hl =
    (halves_whole t ht, omega arith, omega arith, ground arith, ground arith)

-- ===== src/Raw/Int64.antt =====
-- Go's int64 as a bit pattern, a number below 2 ^ 64: sums and differences wrap, and the order is
-- that of the signed values. internal/raw/cr3.go keeps file offsets in such variables.
use cull_snap.Base.{ℕ, ◌+◌, ◌-◌, ◌%◌, Bool, ltb, leb, if◌then◌else◌, err}
use cull_snap.Raw.File.{Bytes, Error, Res, read_at}

abbrev pub two64 : ℕ
two64 = 18446744073709551616

abbrev pub two63 : ℕ
two63 = 9223372036854775808

abbrev pub add64 : ℕ → ℕ → ℕ
add64 a b = (a + b) % two64

abbrev pub sub64 : ℕ → ℕ → ℕ
sub64 a b = (a + two64 - b) % two64

abbrev pub lt64 : ℕ → ℕ → Bool
lt64 a b = ltb ((a + two63) % two64) ((b + two63) % two64)

-- `ReadAt` refuses a negative offset.
unfoldable pub read_at64 : Bytes → ℕ → ℕ → Res Bytes
read_at64 f n off = if leb two63 off then err Error.eof else read_at f n off

-- ===== src/Structs/Time.antt =====
-- Unified times, in src/nagus/structs.py. A `datetime` is the number of microseconds from the epoch of
-- UTC to it; no earlier time is modelled.
use nagus.Prelude.{ℕ, ◌+◌, ◌*◌, ◌/◌, ◌%◌, ◌≡◌, [], ◌∷◌, arith}
use nagus.Stream.{Reader, pure, ◌>>=◌, Writer}
use nagus.Stream.Format.{Format, u32, pack, stream_unpack, Reads-format}
use nagus.Stream.Reads.{Reads, Reads-last}

abbrev pub unified_time : Format
unified_time = u32 ∷ u32 ∷ []

abbrev second : ℕ
second = 1000000

-- `read_unified_time`, with `unpack_unified_time`.
unfoldable pub read_unified_time : Reader ℕ
read_unified_time = do
  (timestamp, micros) ← stream_unpack unified_time
  pure (timestamp * second + micros)

-- `write_unified_time`, with `pack_unified_time`.
unfoldable pub write_unified_time : ℕ → Writer
write_unified_time time = pack unified_time (time / second, time % second)

-- A time from the epoch on: what `write_unified_time` writes, where it returns,
-- `read_unified_time` reads back as the same value, whatever follows it, and a proper prefix of
-- that makes the reader raise an exception.
pub time-Reads : (time : ℕ) → Reads (write_unified_time time) read_unified_time time
unfolding read_unified_time write_unified_time
time-Reads time =
    let e : time / second * second + time % second ≡ time = omega arith in
    Reads-last _ (Reads-format unified_time _) (rw e)

-- ===== src/State/Time/TextOrder.antt =====
-- The order of the texts of times of internal/state/time.go.
use bachkator.Base.{ℕ, ◌<◌, ◌≡◌, false, arith}
use Prim.Native.Nat.{Ordering}
use bachkator.State.Time.{Time, suffix, format_time, compare_bytes, compare_text, is_zero}

-- Two times, the earlier one not the zero time, in different seconds: the texts order as the
-- times do.
pub text_lt_of_seconds :
    (a b : Time)
    → is_zero a ≡ false
    → a.seconds < b.seconds
    → compare_text (format_time a) (format_time b) ≡ Ordering.lt
unfolding compare_text format_time
text_lt_of_seconds a b h k = ground arith

-- In one second the text of a time with a fraction sorts before that of the whole second, though
-- the time is later.
pub text_lt_of_fraction :
    (s n : ℕ)
    → 0 < s
    → 0 < n
    → compare_text
        (format_time (record { seconds = s; nanos = n }))
        (format_time (record { seconds = s; nanos = 0 }))
      ≡ Ordering.lt
unfolding compare_text compare_bytes format_time suffix
text_lt_of_fraction s n h k = ground arith

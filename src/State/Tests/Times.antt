-- ===== src/State/Tests/Times.antt =====
-- The texts of times of internal/state/time.go on concrete times.
use bachkator.Base.{◌≡◌, arith}
use Prim.Native.Nat.{Ordering}
use bachkator.State.Time.{Time, format_time, parse_time, compare_text}
use bachkator.State.Time.Fraction.{parse_time-format_time}
use bachkator.State.Time.TextOrder.{text_lt_of_fraction}
use bachkator.State.Tests.{second}

abbrev half_past : Time
half_past = record { seconds = 63000000000; nanos = 500000000 }

parse_time-format_time_example : parse_time (format_time half_past) ≡ half_past
parse_time-format_time_example = parse_time-format_time half_past (omega arith)

text_lt_of_fraction_example :
    compare_text (format_time half_past) (format_time (second 63000000000)) ≡ Ordering.lt
text_lt_of_fraction_example = text_lt_of_fraction 63000000000 500000000 (omega arith) (omega arith)

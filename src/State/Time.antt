-- ===== src/State/Time.antt =====
-- internal/state/time.go: the text of a time in a TEXT column, and the order of such texts.
--
-- A time is a UTC instant: the seconds since the zero time of Go (January 1, year 1) and the
-- nanoseconds in that second. Its text is RFC 3339 with nanoseconds. Up to the year 9999 the part
-- before the fraction has 19 bytes, and two such parts order as their numbers of seconds do, so
-- that part stands as the number; the rest of the text stands byte for byte.
pub mod Fraction
pub mod TextOrder
use bachkator.Base.{
  ℕ, zero, suc, ◌+◌, ◌*◌, ◌/◌, ◌%◌, ◌-◌, ◌^◌, Bool, true, false, ◌&&◌, not, List, [], ◌∷◌, ◌++◌,
  eqb, if◌then◌else◌,
}
use Prim.Native.Nat.{compare, Ordering}

pub record Time : Type 0 where
  pub seconds : ℕ
  pub nanos : ℕ

-- time.Time{}
abbrev pub zero_time : Time
zero_time = record { seconds = 0; nanos = 0 }

-- t.IsZero()
abbrev pub is_zero : Time → Bool
is_zero t = eqb t.seconds 0 && eqb t.nanos 0

-- The text in a column: empty, or a date-time and the bytes that follow it.
pub data Stamp : Type 0 where
  blank : Stamp
  stamp : ℕ → List ℕ → Stamp

-- The digits of `n` as a decimal fraction of `width` places, the trailing zeros left out.
unfoldable pub digits : ℕ → ℕ → List ℕ
digits zero n = []
digits (suc k) n =
    let rest = digits k (n % 10 ^ k) in if eqb n 0 then [] else (b'0' + n / 10 ^ k) ∷ rest

-- What RFC3339Nano writes behind the seconds: nothing or a fraction, and the zone.
unfoldable pub suffix : ℕ → List ℕ
suffix n = if eqb n 0 then b'Z' ∷ [] else b'.' ∷ (digits 9 n ++ b'Z' ∷ [])

-- t.UTC().Format(time.RFC3339Nano)
abbrev pub nano_text : Time → Stamp
nano_text t = stamp t.seconds (suffix t.nanos)

-- formatTime
unfoldable pub format_time : Time → Stamp
unfolding suffix
format_time t = if is_zero t then blank else nano_text t

-- The digits up to the zone, as a number of nanoseconds.
unfoldable pub fraction : ℕ → List ℕ → ℕ
fraction zero bytes = 0
fraction (suc k) [] = 0
fraction (suc k) (c ∷ bytes) =
    let rest = fraction k bytes in if eqb c b'Z' then 0 else (c - b'0') * 10 ^ k + rest

-- `time.Parse` on a text that `format_time` wrote.
unfoldable pub parse_time : Stamp → Time
parse_time blank = zero_time
parse_time (stamp s []) = zero_time
parse_time (stamp s (c ∷ bytes)) =
    let rest = fraction 9 bytes in record { seconds = s; nanos = if eqb c b'.' then rest else 0 }

-- The BINARY collation of SQLite: bytes from the left, and a prefix before what it begins.
unfoldable pub compare_bytes : List ℕ → List ℕ → Ordering
compare_bytes [] [] = Ordering.eq
compare_bytes [] (d ∷ ds) = Ordering.lt
compare_bytes (c ∷ cs) [] = Ordering.gt
compare_bytes (c ∷ cs) (d ∷ ds) =
    let rest = compare_bytes cs ds in
    elim (compare c d) [
      | Ordering.lt ↦ Ordering.lt
      | Ordering.gt ↦ Ordering.gt
      | Ordering.eq ↦ rest
    ]

unfoldable pub compare_text : Stamp → Stamp → Ordering
unfolding compare_bytes
compare_text blank blank = Ordering.eq
compare_text blank (stamp s bytes) = Ordering.lt
compare_text (stamp s bytes) blank = Ordering.gt
compare_text (stamp s bytes) (stamp t bytes') =
    let rest = compare_bytes bytes bytes' in
    elim (compare s t) [
      | Ordering.lt ↦ Ordering.lt
      | Ordering.gt ↦ Ordering.gt
      | Ordering.eq ↦ rest
    ]

-- a > b, a < b and a <= b between columns
abbrev pub text_gt : Stamp → Stamp → Bool
text_gt a b = elim (compare_text a b) [ Ordering.gt ↦ true | _ ↦ false ]

abbrev pub text_lt : Stamp → Stamp → Bool
text_lt a b = elim (compare_text a b) [ Ordering.lt ↦ true | _ ↦ false ]

abbrev pub text_le : Stamp → Stamp → Bool
text_le a b = not (text_gt a b)

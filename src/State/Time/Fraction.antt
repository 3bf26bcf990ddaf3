-- ===== src/State/Time/Fraction.antt =====
-- The fraction of a second in the text of a time of internal/state/time.go.
use bachkator.Base.{
  ℕ, zero, suc, ◌/◌, ◌%◌, ◌^◌, ◌<◌, ◌≡◌, true, [], ◌∷◌, ◌++◌, arith, eqb, Bool-cases, inl, inr,
}
use native.Mathlib.Nat.{div-add-mod', mod-lt, one-le-pow, pow-suc, div-lt_iff_lt-mul}
use bachkator.State.Time.{Time, digits, format_time, fraction, parse_time}

pow_pos : (k : ℕ) → 0 < 10 ^ k
pow_pos k = one-le-pow k 10 (omega arith)

lead : (k n : ℕ) → n < 10 ^ suc k → n / 10 ^ k < 10
lead k n h = (div-lt_iff_lt-mul (pow_pos k)).1 (omega (arith, pow-suc 10 k))

eqb_zero : (n : ℕ) → eqb n 0 ≡ true → n ≡ 0
eqb_zero n h = ground arith

pub fraction-digits : (k n : ℕ) → n < 10 ^ k → fraction k (digits k n ++ b'Z' ∷ []) ≡ n
unfolding fraction digits
fraction-digits zero n h = omega arith
fraction-digits (suc k) n h = elim (Bool-cases (eqb n 0)) [
  | inl e ↦ rw e (ground arith)
  | inr e ↦ rw e (
      ground (
        arith,
        lead k n h,
        div-add-mod' n (10 ^ k),
        fraction-digits k (n % 10 ^ k) (mod-lt n (pow_pos k)),
      ))
]

-- A time with less than a second of nanoseconds is read back from a column as it was written.
pub parse_time-format_time : (t : Time) → t.nanos < 10 ^ 9 → parse_time (format_time t) ≡ t
unfolding parse_time format_time
parse_time-format_time t h = ground (arith, fraction-digits 9 t.nanos h)

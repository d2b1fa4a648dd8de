-- ===== src/Time.antt =====
-- `chrono::DateTime<Utc>`, as the code uses it. An instant counts nanoseconds from chrono's earliest
-- instant, `DateTime::<Utc>::MIN_UTC`, where subtraction panics instead of going below, and a
-- timestamp counts seconds from there: the source's `i64` is that count less `unix_epoch`.
use Prim.Native.String.{◌++◌ as ◌<>◌}
use acdp_registry_rs.Prelude.{
  ℕ, zero, suc, ◌-◌, ◌*◌, ◌/◌, ◌%◌, String, ltb, nat_eq, ◌==◌, if◌then◌else◌,
}

abbrev pub DateTime : Type 0
DateTime = ℕ

abbrev pub nanos_per_second : ℕ
nanos_per_second = 1000000000

-- `Duration::seconds`
abbrev pub seconds : ℕ → ℕ
seconds n = n * nanos_per_second

-- `DateTime::timestamp`, which rounds down
abbrev pub timestamp : DateTime → ℕ
timestamp t = t / nanos_per_second

-- `MIN_UTC.timestamp()` is -8334601228800.
abbrev pub unix_epoch : ℕ
unix_epoch = 8334601228800

digit : ℕ → String
digit d =
    if d == 0
    then "0"
    else if d == 1
    then "1"
    else if d == 2
    then "2"
    else if d == 3
    then "3"
    else if d == 4
    then "4"
    else if d == 5
    then "5"
    else if d == 6
    then "6"
    else if d == 7
    then "7"
    else if d == 8
    then "8"
    else "9"

decimal_from : ℕ → ℕ → String → String
unfolding digit
decimal_from zero n acc = acc
decimal_from (suc fuel) n acc =
    let rest = decimal_from fuel (n / 10) (digit (n % 10) <> acc) in
    if ltb n 10 then digit n <> acc else rest

-- `Display` of an `i64` timestamp: at most 19 digits.
unfoldable pub show_timestamp : ℕ → String
unfolding decimal_from
show_timestamp t =
    if ltb t unix_epoch
    then "-" <> decimal_from 19 (unix_epoch - t) ""
    else decimal_from 19 (t - unix_epoch) ""

-- `Display` of a `usize`: at most 20 digits.
unfoldable pub show_ℕ : ℕ → String
unfolding decimal_from
show_ℕ n = decimal_from 20 n ""

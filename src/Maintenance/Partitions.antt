-- ===== src/Maintenance/Partitions.antt =====
-- partitions.py. A datetime at the start of a month is a year and a month; years end at 9999 in
-- Python, which is not modelled.
use personal_intelligence.Base.{
  ℕ, zero, suc, ◌+◌, ◌-◌, ◌/◌, ◌%◌, max, List, [], ◌∷◌, ◌++◌, Text, text, ℤ, pos, negsuc, show_nat,
  day, ord2ymd, ltb, if◌then◌else◌,
}

pub data Table : Type 0 where
  interaction processed_event audit_log : Table

abbrev pub table_name : Table → Text
table_name interaction = text "interaction"
table_name processed_event = text "processed_event"
table_name audit_log = text "audit_log"

abbrev pub column_of : Table → Text
column_of interaction = text "created_at"
column_of processed_event = text "processed_at"
column_of audit_log = text "ts"

abbrev pub partitioned_tables : List Table
partitioned_tables = interaction ∷ processed_event ∷ audit_log ∷ []

pub record Month : Type 0 where
  pub year : ℕ
  pub month : ℕ

pub record PartitionSpec : Type 0 where
  pub table : Table
  pub column : Text
  pub name : Text
  pub start : Month
  pub end : Month

unfoldable pub month_start : ℕ → Month
month_start t = let date = ord2ymd (t / day) in record { year = date.year; month = date.month }

unfoldable pub add_months : Month → ℕ → Month
add_months m months = record {
  year = m.year + (m.month - 1 + months) / 12;
  month = (m.month - 1 + months) % 12 + 1;
}

-- `%m`, of two digits
abbrev pub two_digits : ℕ → Text
two_digits n = if ltb n 10 then 48 ∷ show_nat n else show_nat n

-- `strftime("%Y_%m")`; the C library does not pad `%Y`.
unfoldable pub suffix_of : Month → Text
suffix_of m = show_nat m.year ++ 95 ∷ two_digits m.month

abbrev pub spec_of : Month → ℕ → Table → PartitionSpec
spec_of base offset table = record {
  table = table;
  column = column_of table;
  name = table_name table ++ 95 ∷ suffix_of (add_months base offset);
  start = add_months base offset;
  end = add_months (add_months base offset) 1;
}

-- The loop over the offsets, from one of them on.
unfoldable pub specs_from : Month → ℕ → ℕ → List PartitionSpec
specs_from base offset zero = []
specs_from base offset (suc n) =
    spec_of base offset interaction
    ∷ spec_of base offset processed_event
    ∷ spec_of base offset audit_log
    ∷ specs_from base (offset + 1) n

-- `max(1, n)` of an integer
abbrev pub at_least_one : ℤ → ℕ
at_least_one (pos n) = max 1 n
at_least_one (negsuc n) = 1

unfoldable pub monthly_partition_specs : ℕ → ℤ → List PartitionSpec
monthly_partition_specs now months_ahead =
    specs_from (month_start now) 0 (at_least_one months_ahead)

abbrev pub first_day : Month → Text
first_day m = show_nat m.year ++ 45 ∷ two_digits m.month ++ text "-01"

unfoldable pub create_partition_sql : PartitionSpec → Text
create_partition_sql spec =
    text "CREATE TABLE IF NOT EXISTS "
    ++ spec.name
    ++ text " PARTITION OF "
    ++ table_name spec.table
    ++ text " FOR VALUES FROM ('"
    ++ first_day spec.start
    ++ text "') TO ('"
    ++ first_day spec.end
    ++ text "')"

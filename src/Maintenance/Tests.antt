-- ===== src/Maintenance/Tests.antt =====
-- The plan of a December, and the theorems at concrete inputs.
use personal_intelligence.Base.{
  ℕ, ◌+◌, ◌≡◌, ◌≤◌, refl, arith, false, none, some, List, [], ◌∷◌, ◌*◌, Text, text, pos, All,
  text_eq, map, keep_if, length, day, ord2ymd, show_nat,
}
use personal_intelligence.Maintenance.Partitions.{
  audit_log, PartitionSpec, month_start, add_months, specs_from, monthly_partition_specs, suffix_of,
}
use personal_intelligence.Maintenance.Jobs.{State, Parsers, str, run_maintenance}
use personal_intelligence.Maintenance.Tiling.{takes_row, monthly_partition_specs_lem}
use personal_intelligence.Maintenance.Trimming.{IsKeptFor, run_maintenance-rows}

-- 2026-12-15
abbrev december : ℕ
december = 739964 * day

abbrev names : List PartitionSpec → List Text
names specs = map (λ (spec : PartitionSpec). spec.name) specs

december_starts : month_start december ≡ record { year = 2026; month = 12 }
unfolding month_start ord2ymd
december_starts = refl

january_follows :
    names (
      keep_if
        (takes_row audit_log (record { year = 2027; month = 1 }))
        (monthly_partition_specs december (pos 3)))
    ≡ text "audit_log_2027_01" ∷ []
unfolding monthly_partition_specs specs_from month_start add_months suffix_of ord2ymd show_nat
january_follows = refl

monthly_partition_specs_lem_example :
    length (
      keep_if
        (takes_row audit_log (record { year = 2027; month = 1 }))
        (monthly_partition_specs december (pos 3)))
    ≡ 1
unfolding month_start ord2ymd
monthly_partition_specs_lem_example =
    monthly_partition_specs_lem december (pos 3) audit_log (record { year = 2027; month = 1 })
      (omega arith) (omega arith)

abbrev parsers : Parsers
parsers = record { strptime = λ t. none; parse_int = λ t. some (pos 30) }

abbrev empty : State
empty = record {
  settings = [];
  relations = [];
  processed_event_partitions = [];
  processed_event_rows = 5 ∷ december ∷ [];
  locked = false;
}

abbrev with_retention : State
with_retention = record empty {
  settings =
      record { key = text "maintenance.processed_event_retention_days"; value = str (text "30") }
      ∷ [];
}

kept_for : IsKeptFor parsers with_retention 30
kept_for = record {
  before = [];
  after = [];
  value = str (text "30");
  row = refl;
  first = tt;
  number = refl;
}

run_maintenance-rows_example :
    All
      (λ t. december ≤ t + 30 * day)
      (run_maintenance parsers (pos 3) (pos 90) december with_retention).processed_event_rows
run_maintenance-rows_example =
    run_maintenance-rows parsers (pos 3) (pos 90) december 30 with_retention refl kept_for
      (omega arith)

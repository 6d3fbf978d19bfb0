-- ===== src/Maintenance/Jobs.antt =====
-- jobs.py, on the tables that it reads and writes. The SQL is taken not to fail; `strptime` and `int`
-- of a text are Python's.
use personal_intelligence.Base.{
  ℕ, ◌+◌, ◌-◌, ◌*◌, Bool, false, not, ◌&&◌, ◌||◌, Option, none, some, List, [], ◌∷◌, ◌++◌, Text,
  text, text_eq, ◌==◌, ℤ, show_int, day, elem, length, drop, starts_with, keep_if, leb, ltb,
  if◌then◌else◌,
}
use personal_intelligence.Maintenance.Partitions.{
  Table, interaction, processed_event, audit_log, Month, PartitionSpec, month_start, add_months,
  at_least_one, monthly_partition_specs, suffix_of,
}

-- A value of `setting`, as asyncpg hands it over.
pub data Value : Type 0 where
  int : ℤ → Value
  str : Text → Value
  other : Value

pub record Setting : Type 0 where
  pub key : Text
  pub value : Value

-- `relations` are the names of the tables, `processed_event_partitions` those of
-- `processed_event`, and `processed_event_rows` the times of its rows; `locked` tells of another holder of the advisory lock.
pub record State : Type 0 where
  pub settings : List Setting
  pub relations : List Text
  pub processed_event_partitions : List Text
  pub processed_event_rows : List ℕ
  pub locked : Bool

pub record Parsers : Type 0 where
  pub strptime : Text → Option Month
  pub parse_int : Text → Option ℤ

abbrev pub months_ahead_key : Text
months_ahead_key = text "maintenance.partition_months_ahead"

abbrev pub retention_key : Text
retention_key = text "maintenance.processed_event_retention_days"

unfoldable pub find_setting : Text → List Setting → Option Value
find_setting key [] = none
find_setting key (x ∷ xs) =
    let rest = find_setting key xs in if x.key == key then some x.value else rest

-- INSERT INTO setting ... ON CONFLICT (key) DO NOTHING
abbrev pub if_missing : Option Value → Text → ℤ → List Setting → List Setting
if_missing none key value settings =
    settings ++ record { key = key; value = str (show_int value) } ∷ []
if_missing (some v) key value settings = settings

unfoldable pub ensure_runtime_defaults : ℤ → ℤ → State → State
unfolding find_setting
ensure_runtime_defaults months_ahead retention_days s =
    let first =
      if_missing (find_setting months_ahead_key s.settings) months_ahead_key months_ahead
        s.settings in
    record s {
      settings = if_missing (find_setting retention_key first) retention_key retention_days first;
    }

abbrev pub or_default : Option ℤ → ℤ → ℤ
or_default none default = default
or_default (some n) default = n

abbrev pub int_of : Parsers → ℤ → Option Value → ℤ
int_of parsers default none = default
int_of parsers default (some (int n)) = n
int_of parsers default (some (str t)) = or_default (parsers.parse_int t) default
int_of parsers default (some other) = default

unfoldable pub get_int_setting : Parsers → Text → ℤ → State → ℤ
get_int_setting parsers key default s = int_of parsers default (find_setting key s.settings)

abbrev pub if_of_events : Table → Text → List Text → List Text
if_of_events processed_event name names = name ∷ names
if_of_events interaction name names = names
if_of_events audit_log name names = names

abbrev pub add_partition : PartitionSpec → State → State
add_partition spec s = record s {
  relations = spec.name ∷ s.relations;
  processed_event_partitions = if_of_events spec.table spec.name s.processed_event_partitions;
}

-- CREATE TABLE IF NOT EXISTS ... PARTITION OF: PostgreSQL and `to_regclass` go by the name alone, so that
-- any relation of the name keeps the partition from being made. The result counts those not there.
unfoldable pub create_all : List PartitionSpec → State → ℕ × State
create_all [] s = (0, s)
create_all (spec ∷ specs) s =
    let existed = elem spec.name s.relations in
    let (n, after) = create_all specs (if existed then s else add_partition spec s) in
    ((if existed then n else n + 1), after)

unfoldable pub ensure_future_partitions : ℤ → ℕ → State → ℕ × State
ensure_future_partitions months_ahead now s =
    create_all (monthly_partition_specs now months_ahead) s

-- Before the first day Python raises; here the time stops there.
abbrev pub cutoff_of : ℤ → ℕ → ℕ
cutoff_of retention_days now = now - at_least_one retention_days * day

-- `end <= cutoff_month` of two datetimes at the starts of months
abbrev pub month_leb : Month → Month → Bool
month_leb a b = ltb a.year b.year || (leb a.year b.year && leb b.year a.year && leb a.month b.month)

-- `removeprefix`
abbrev pub remove_prefix : Text → Text → Text
remove_prefix prefix name = if starts_with prefix name then drop (length prefix) name else name

abbrev pub is_over : Month → Option Month → Bool
is_over cutoff_month none = false
is_over cutoff_month (some start) = month_leb (add_months start 1) cutoff_month

-- Is a partition dropped? A name that does not parse is left alone.
unfoldable pub is_expired : Parsers → ℤ → ℕ → Text → Bool
is_expired parsers retention_days now name =
    is_over (month_start (cutoff_of retention_days now))
      (parsers.strptime (remove_prefix (text "processed_event_") name))

-- A row lies in the partition that is named for its month.
abbrev pub partition_of : ℕ → Text
partition_of t = text "processed_event_" ++ suffix_of (month_start t)

unfoldable pub drop_expired_processed_event_partitions : Parsers → ℤ → ℕ → State → ℕ × State
unfolding is_expired
drop_expired_processed_event_partitions parsers retention_days now s =
    let expired = is_expired parsers retention_days now in
    (
      length (keep_if expired s.processed_event_partitions),
      record s {
        relations =
            keep_if (λ (name : Text). not (expired name && elem name s.processed_event_partitions))
              s.relations;
        processed_event_partitions =
            keep_if (λ (name : Text). not (expired name)) s.processed_event_partitions;
        processed_event_rows =
            keep_if
              (λ t.
                not
                  (expired (partition_of t) && elem (partition_of t) s.processed_event_partitions))
              s.processed_event_rows;
      },
    )

-- DELETE FROM processed_event WHERE processed_at < $1
unfoldable pub trim_processed_event_boundary_rows : ℤ → ℕ → State → ℕ × State
trim_processed_event_boundary_rows retention_days now s =
    let cutoff = cutoff_of retention_days now in
    (
      length (keep_if (λ t. ltb t cutoff) s.processed_event_rows),
      record s { processed_event_rows = keep_if (λ t. not (ltb t cutoff)) s.processed_event_rows },
    )

-- The whole run; without the lock it does nothing.
unfoldable pub run_maintenance : Parsers → ℤ → ℤ → ℕ → State → State
run_maintenance parsers default_months_ahead default_retention_days now s =
    if s.locked
    then s
    else let ready = ensure_runtime_defaults default_months_ahead default_retention_days s in
      let months_ahead = get_int_setting parsers months_ahead_key default_months_ahead ready in
      let retention_days = get_int_setting parsers retention_key default_retention_days ready in
      let created = (ensure_future_partitions months_ahead now ready).1 in
      let dropped =
        (drop_expired_processed_event_partitions parsers retention_days now created).1 in
      (trim_processed_event_boundary_rows retention_days now dropped).1

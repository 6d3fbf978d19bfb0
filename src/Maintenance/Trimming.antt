-- ===== src/Maintenance/Trimming.antt =====
-- What a run of jobs.py leaves in the tables.
use personal_intelligence.Base.{
  ℕ, ◌+◌, ◌*◌, ◌≤◌, ◌≡◌, refl, ap, ◌∙◌, Bool, true, false, not, Option, none, some, List, [], ◌∷◌,
  ◌++◌, Text, text, text_eq, ◌==◌, ℤ, pos, All, elem, ==_refl, ltb, keep_if, Bool-cases, inl, inr,
  arith, day, if◌then◌else◌,
}
use personal_intelligence.Maintenance.Partitions.{PartitionSpec}
use personal_intelligence.Maintenance.Jobs.{
  State, Parsers, Setting, Value, int, str, other, cutoff_of, add_partition,
  ensure_runtime_defaults, get_int_setting, find_setting, if_missing, int_of,
  trim_processed_event_boundary_rows, run_maintenance, retention_key, months_ahead_key,
}

keep_if-All :
    (P : ℕ → Type 0) (p : ℕ → Bool) (xs : List ℕ)
    → ((x : ℕ) → p x ≡ true → P x)
    → All P (keep_if p xs)
keep_if-All P p [] h = tt
keep_if-All P p (x ∷ xs) h = elim (Bool-cases (p x)) [
  | inl hit ↦ rw hit (h x hit, keep_if-All P p xs h)
  | inr miss ↦ rw miss (keep_if-All P p xs h)
]

unlocked :
    (P : ℕ → Type 0) (b : Bool) (s t : State)
    → b ≡ false
    → All P t.processed_event_rows
    → All P (if b then s else t).processed_event_rows
unlocked P true s t free h = absurd cc
unlocked P false s t free h = h

find_setting-append :
    (key : Text) (xs ys : List Setting) (v : Value)
    → find_setting key xs ≡ some v
    → find_setting key (xs ++ ys) ≡ some v
unfolding find_setting
find_setting-append key [] ys v = λ h. absurd cc
find_setting-append key (x ∷ xs) ys v = elim (Bool-cases (x.key == key)) [
  | inl hit ↦ rw hit (λ h. h)
  | inr miss ↦ rw miss (find_setting-append key xs ys v)
]

-- A default that is added hides no setting.
find_setting-if_missing :
    (key added : Text) (o : Option Value) (n : ℤ) (xs : List Setting) (v : Value)
    → find_setting key xs ≡ some v
    → find_setting key (if_missing o added n xs) ≡ some v
find_setting-if_missing key added none n xs v h = find_setting-append key xs _ v h
find_setting-if_missing key added (some w) n xs v h = h

find_setting-ensure_runtime_defaults :
    (months_ahead retention_days : ℤ) (s : State) (key : Text) (v : Value)
    → find_setting key s.settings ≡ some v
    → find_setting key (ensure_runtime_defaults months_ahead retention_days s).settings ≡ some v
unfolding ensure_runtime_defaults
find_setting-ensure_runtime_defaults months_ahead retention_days s key v h =
    let first =
      if_missing (find_setting months_ahead_key s.settings) months_ahead_key months_ahead
        s.settings in
    find_setting-if_missing key retention_key (find_setting retention_key first) retention_days
      first v
      (find_setting-if_missing key months_ahead_key (find_setting months_ahead_key s.settings)
        months_ahead s.settings v h)

-- The value is a number, or a text that parses to it.
abbrev pub IsNumber : Parsers → Value → ℤ → Type 0
IsNumber parsers (int i) n = i ≡ n
IsNumber parsers (str t) n = parsers.parse_int t ≡ some n
IsNumber parsers other n = ⊥

-- The table of settings has a row for the retention, the first of its key, with a number of days.
pub record IsKeptFor (parsers : Parsers) (s : State) (days : ℕ) : Type 0 where
  pub before : List Setting
  pub after : List Setting
  pub value : Value
  pub row :
      s.settings
      ≡ before
        ++ record { key = text "maintenance.processed_event_retention_days"; value = value } ∷ after
  pub first :
      All
        (λ (x : Setting). (x.key == text "maintenance.processed_event_retention_days") ≡ false)
        before
  pub number : IsNumber parsers value (pos days)

find_setting-middle :
    (key : Text) (before after : List Setting) (v : Value)
    → All (λ (x : Setting). (x.key == key) ≡ false) before
    → find_setting key (before ++ record { key = key; value = v } ∷ after) ≡ some v
unfolding find_setting
find_setting-middle key [] after v h = rw (==_refl key) refl
find_setting-middle key (x ∷ before) after v h =
    rw (h.0) (find_setting-middle key before after v h.1)

int_of-IsNumber :
    (parsers : Parsers) (v : Value) (n default : ℤ)
    → IsNumber parsers v n
    → int_of parsers default (some v) ≡ n
int_of-IsNumber parsers (int i) n default h = h
int_of-IsNumber parsers (str t) n default h = rw h refl
int_of-IsNumber parsers other n default h = absurd h

-- The days that a run reads are those of the row, whatever the defaults.
days_read :
    (parsers : Parsers) (months_ahead retention_days : ℤ) (s : State) (days : ℕ)
    → IsKeptFor parsers s days
    → get_int_setting parsers retention_key retention_days
        (ensure_runtime_defaults months_ahead retention_days s)
      ≡ pos days
unfolding get_int_setting
days_read parsers months_ahead retention_days s days k =
    ap (int_of parsers retention_days) (
      find_setting-ensure_runtime_defaults months_ahead retention_days s retention_key k.value (
        ap (find_setting retention_key) k.row
        ∙ find_setting-middle retention_key k.before k.after k.value k.first))
    ∙ int_of-IsNumber parsers k.value (pos days) retention_days k.number

-- Where the settings hold a number of days, at least one, for the retention, a run that gets the lock
-- leaves no row of `processed_event` that is older than so many days, whatever the defaults are.
pub run_maintenance-rows :
    (parsers : Parsers) (months_ahead retention_days : ℤ) (now days : ℕ) (s : State)
    → s.locked ≡ false
    → IsKeptFor parsers s days
    → 1 ≤ days
    → All
        (λ t. now ≤ t + days * day)
        (run_maintenance parsers months_ahead retention_days now s).processed_event_rows
unfolding run_maintenance trim_processed_event_boundary_rows
run_maintenance-rows parsers months_ahead retention_days now days s free k one =
    unlocked (λ t. now ≤ t + days * day) s.locked s _ free
      (rw (days_read parsers months_ahead retention_days s days k) (
        keep_if-All (λ t. now ≤ t + days * day) (λ t. not (ltb t (cutoff_of (pos days) now))) _
          (λ t h. ground arith)))

abbrev next : PartitionSpec → State → State
next spec s = if elem spec.name s.relations then s else add_partition spec s

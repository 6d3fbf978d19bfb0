-- ===== src/Maintenance/Tiling.antt =====
-- The partitions that partitions.py plans, month by month.
use personal_intelligence.Base.{
  ℕ, zero, suc, ◌+◌, ◌-◌, ◌*◌, ◌≤◌, ◌<◌, ◌≡◌, refl, ◌∙◌, Bool, true, false, ◌&&◌, List, ◌∷◌, ℤ, ltb,
  leb, keep_if, length, arith, Bool-cases, inl, inr, if◌then◌else◌,
}
use personal_intelligence.Maintenance.Partitions.{
  Table, interaction, processed_event, audit_log, Month, PartitionSpec, month_start, add_months,
  spec_of, specs_from, at_least_one, monthly_partition_specs,
}

-- The months since the year 0.
abbrev pub index : Month → ℕ
index m = m.year * 12 + (m.month - 1)

abbrev pub same_table : Table → Table → Bool
same_table interaction interaction = true
same_table processed_event processed_event = true
same_table audit_log audit_log = true
same_table interaction processed_event = false
same_table interaction audit_log = false
same_table processed_event interaction = false
same_table processed_event audit_log = false
same_table audit_log interaction = false
same_table audit_log processed_event = false

-- A row of the table in the month goes to the partition.
abbrev pub takes_row : Table → Month → PartitionSpec → Bool
takes_row table m spec =
    same_table spec.table table
    && (leb (index spec.start) (index m) && ltb (index m) (index spec.end))

index-add_months : (m : Month) (n : ℕ) → index (add_months m n) ≡ index m + n
unfolding add_months
index-add_months m n = omega arith

within : Month → ℕ → Month → Bool
within base offset m =
    leb (index base + offset) (index m) && ltb (index m) (index base + offset + 1)

takes_row-spec_of :
    (base : Month) (offset : ℕ) (t table : Table) (m : Month)
    → takes_row table m (spec_of base offset t) ≡ (same_table t table && within base offset m)
unfolding within
takes_row-spec_of base offset t table m =
    rw (index-add_months (add_months base offset) 1, index-add_months base offset) refl

by_test :
    (b : Bool) (x : PartitionSpec) (rest : List PartitionSpec)
    → length (if b then x ∷ rest else rest) ≡ (if b then 1 else 0) + length rest
by_test true x rest = omega arith
by_test false x rest = omega arith

-- One month of the plan has one partition of each table.
count-step :
    (base : Month) (table : Table) (m : Month) (offset n : ℕ)
    → length (keep_if (takes_row table m) (specs_from base offset (suc n)))
      ≡ (if within base offset m then 1 else 0)
        + length (keep_if (takes_row table m) (specs_from base (offset + 1) n))
unfolding specs_from
count-step base interaction m offset n =
    rw (takes_row-spec_of base offset interaction interaction m)
      (by_test (within base offset m) _ _)
count-step base processed_event m offset n =
    rw (takes_row-spec_of base offset processed_event processed_event m)
      (by_test (within base offset m) _ _)
count-step base audit_log m offset n =
    rw (takes_row-spec_of base offset audit_log audit_log m) (by_test (within base offset m) _ _)

none_from :
    (base : Month) (table : Table) (m : Month) (offset n : ℕ)
    → index m < index base + offset
    → length (keep_if (takes_row table m) (specs_from base offset n)) ≡ 0
unfolding specs_from within
none_from base table m offset zero h = refl
none_from base table m offset (suc n) h =
    count-step base table m offset n
    ∙ rw (none_from base table m (offset + 1) n (omega arith)) (ground arith)

count_from :
    (base : Month) (table : Table) (m : Month) (offset n : ℕ)
    → index base + offset ≤ index m
    → index m < index base + offset + n
    → length (keep_if (takes_row table m) (specs_from base offset n)) ≡ 1
unfolding within
count_from base table m offset zero lo hi = absurd (omega arith)
count_from base table m offset (suc n) lo hi =
    elim (Bool-cases (leb (index base + offset + 1) (index m))) [
      | inl later ↦
          count-step base table m offset n
          ∙ rw (count_from base table m (offset + 1) n (ground arith) (omega arith)) (ground arith)
      | inr here ↦
          count-step base table m offset n
          ∙ rw (none_from base table m (offset + 1) n (ground arith)) (ground arith)
    ]

-- For each of the tables and each month of the plan, from the month of `now` on and at least that
-- month: exactly one of the partitions takes the rows of that month.
pub monthly_partition_specs_lem :
    (now : ℕ) (months_ahead : ℤ) (table : Table) (m : Month)
    → index (month_start now) ≤ index m
    → index m < index (month_start now) + at_least_one months_ahead
    → length (keep_if (takes_row table m) (monthly_partition_specs now months_ahead)) ≡ 1
unfolding monthly_partition_specs
monthly_partition_specs_lem now months_ahead table m lo hi =
    count_from (month_start now) table m 0 (at_least_one months_ahead) (omega arith) (omega arith)

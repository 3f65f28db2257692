-- ===== src/Pipeline/Create.antt =====
-- A pipeline that __of1x_init_pipeline of of1x_pipeline.c has created.
use rofl_fork.Base.{
  ℕ, suc, ◌+◌, ◌≡◌, ◌<◌, ◌≤◌, ◌⊎◌, refl, true, List, [], ◌∷◌, some, All, length, success, arith,
  inl, inr, ap, ltb, leb, ◌&&◌,
}
use rofl_fork.FlowTable.{
  init_table, set_table_defaults, of10_set_table_defaults, of12_set_table_defaults,
  of13_set_table_defaults, stats_table_init,
}
use rofl_fork.Group.{init_group_table}
use rofl_fork.Group.Invariant.{IsGroupTable}
use rofl_fork.Loop.{Table}
use rofl_fork.Match.{of_version_10, of_version_12, of_version_13}
use rofl_fork.Loop.Invariant.{IsTable}
use rofl_fork.Pipeline.{Pipeline}
use rofl_fork.Pipeline.Manage.{
  init_tables, init_pipeline, default_capabilities, default_miss_send_len,
}
use rofl_fork.Pipeline.Purge.{IsEmpty}
use rofl_fork.Process.Tables.{max_flowtables}

abbrev pub IsKnown : ℕ → Type 0
IsKnown version = (version ≡ of_version_10) ⊎ (version ≡ of_version_12) ⊎ (version ≡ of_version_13)

-- The tables have the numbers from the given one on.
abbrev pub AreNumbered : ℕ → List Table → Type 0
AreNumbered i [] = Unit
AreNumbered i (t ∷ ts) = (t.number ≡ i) × AreNumbered (i + 1) ts

-- A table as created at a place: in order, empty, its counters at 0.
abbrev pub IsNew : ℕ → Table → Type 0
IsNew i t = IsEmpty t × (t.number ≡ i) × (t.stats.lookup_count ≡ 0) × (t.stats.matched_count ≡ 0)

pub empty-IsTable : (t : Table) → t.entries ≡ [] → t.num_of_entries ≡ 0 → IsTable t
empty-IsTable t e n = record {
  ordered = rw e tt;
  count = rw e n;
  bounded = ground arith;
  points = rw e tt;
  distinct = rw e tt;
}

init_table-IsNew :
    (algorithm_count version i : ℕ) (t : Table) (algorithm : ℕ)
    → algorithm < algorithm_count
    → IsKnown version
    → (u : Table) × (init_table algorithm_count version t i algorithm ≡ (success, u)) × IsNew i u
unfolding init_table set_table_defaults of10_set_table_defaults of12_set_table_defaults
    of13_set_table_defaults stats_table_init
init_table-IsNew algorithm_count version i t algorithm a k =
    let l : ltb algorithm algorithm_count ≡ true = ground arith in
    elim k [
      | inl v ↦ rw l (rw v (_, refl, ((empty-IsTable _ refl refl, refl), refl, refl, refl)))
      | inr (inl v) ↦ rw l (rw v (_, refl, ((empty-IsTable _ refl refl, refl), refl, refl, refl)))
      | inr (inr v) ↦ rw l (rw v (_, refl, ((empty-IsTable _ refl refl, refl), refl, refl, refl)))
    ]

-- Empty tables that are numbered from the given one on, as many as those allocated.
abbrev pub AreNew : ℕ → ℕ → List Table → Type 0
AreNew i n ts = All IsEmpty ts × AreNumbered i ts × (length ts ≡ n)

init_tables-AreNew :
    (algorithm_count version i : ℕ) (list : List (ℕ × Table))
    → All (λ a. a.0 < algorithm_count) list
    → IsKnown version
    → (ts : List Table) × (init_tables algorithm_count version i list ≡ some ts)
      × AreNew i (length list) ts
unfolding init_tables
init_tables-AreNew algorithm_count version i [] a k = ([], refl, (tt, tt, refl))
init_tables-AreNew algorithm_count version i ((algorithm, t) ∷ list) a k =
    let (u, q, n) = init_table-IsNew algorithm_count version i t algorithm a.0 k in
    let (ts, r, m) = init_tables-AreNew algorithm_count version (i + 1) list a.1 k in
    let l : ltb algorithm algorithm_count ≡ true = ground (arith, a.0) in
    (u ∷ ts, rw (l, q, r) (ap (λ z. some (z.1 ∷ ts)) q), ((n.0, m.0), (n.1, m.1), ap suc m.2))

-- The pipeline of the tables.
abbrev new_pipeline : ℕ → List Table → Pipeline
unfolding init_group_table
new_pipeline version ts = record {
  of_ver = version;
  num_of_buffers = 0;
  capabilities = default_capabilities;
  miss_send_len = default_miss_send_len;
  tables = ts;
  groups = init_group_table;
}

-- A pipeline is created if there is memory for it, with 1 to 255 tables, known algorithms and a known
-- version. Its tables are in order, empty and numbered from 0, as many as were asked for, and its
-- groups are in order.
pub init_pipeline-AreNew :
    (algorithm_count version : ℕ) (list : List (ℕ × Table))
    → All (λ a. a.0 < algorithm_count) list
    → IsKnown version
    → 0 < length list
    → length list ≤ max_flowtables
    → (p : Pipeline) × (init_pipeline true true algorithm_count version list ≡ some p)
      × AreNew 0 (length list) p.tables
      × IsGroupTable p.groups
unfolding init_pipeline init_group_table new_pipeline
init_pipeline-AreNew algorithm_count version list a k l m =
    let (ts, r, n) = init_tables-AreNew algorithm_count version 0 list a k in
    let b : (leb (length list) max_flowtables && ltb 0 (length list)) ≡ true = ground arith in
    (
      new_pipeline version ts,
      rw (b, r) refl,
      n,
      record { groups = tt; distinct = tt; count = refl },
    )

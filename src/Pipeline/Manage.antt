-- ===== src/Pipeline/Manage.antt =====
-- of1x_pipeline.c: the creation and destruction of a pipeline, the removal of all its entries, and the
-- reset of its tables to the defaults of a version.
use rofl_fork.Base.{
  ◌>>=◌, ℕ, zero, suc, ◌+◌, Bool, true, false, ◌&&◌, not, List, [], ◌∷◌, Option, none, some, ltb,
  leb, if◌then◌else◌, length, RoflResult, success, failure,
}
use rofl_fork.FlowEntry.{FlowEntry, init_flow_entry, port_any}
use rofl_fork.FlowTable.{init_table, set_table_defaults}
use rofl_fork.Group.{init_group_table}
use rofl_fork.Group.Table.{group_any}
use rofl_fork.Loop.{Table, not_strict}
use rofl_fork.Loop.Lookup.{destroy_loop}
use rofl_fork.Pipeline.{Pipeline, remove_flow_entry_table}
use rofl_fork.Pipeline.Delete.{group_delete}
use rofl_fork.Process.Tables.{max_flowtables}

-- The tables from a number on, as they were allocated; `list` has the matching algorithm of each. The
-- failure of one ends the loop.
unfoldable pub init_tables : ℕ → ℕ → ℕ → List (ℕ × Table) → Option (List Table)
init_tables algorithm_count version i [] = some []
init_tables algorithm_count version i ((algorithm, t) ∷ list) =
    let r = init_table algorithm_count version t i algorithm in
    if not (ltb algorithm algorithm_count) then none else elim r.0 [
      | failure ↦ none
      | success ↦ do ts ← init_tables algorithm_count version (i + 1) list; some (r.1 ∷ ts)
    ]

-- OF1X_CAP_FLOW_STATS, TABLE_STATS, PORT_STATS, GROUP_STATS and QUEUE_STATS.
abbrev pub default_capabilities : ℕ
default_capabilities = 1 + 2 + 4 + 8 + 64

-- OF1X_DEFAULT_MISS_SEND_LEN.
abbrev pub default_miss_send_len : ℕ
default_miss_send_len = 128

-- The pipeline of a switch of the version, with memory for the pipeline and for its tables. The number
-- of tables is that of the list.
unfoldable pub init_pipeline : Bool → Bool → ℕ → ℕ → List (ℕ × Table) → Option Pipeline
unfolding init_tables init_group_table
init_pipeline pipeline_allocated tables_allocated algorithm_count version list =
    if not (leb (length list) max_flowtables && ltb 0 (length list))
    then none
    else if not (pipeline_allocated && tables_allocated)
    then none
    else do
      ts ← init_tables algorithm_count version 0 list
      some (record {
        of_ver = version;
        num_of_buffers = 0;
        capabilities = default_capabilities;
        miss_send_len = default_miss_send_len;
        tables = ts;
        groups = init_group_table;
      })

-- The destruction of the tables, whose traces say what is freed. The groups are freed before.
unfoldable pub destroy_tables : List Table → List Table
unfolding destroy_loop
destroy_tables [] = []
destroy_tables (t ∷ ts) = destroy_loop t ∷ destroy_tables ts

-- The loop of the removal, with so many tables to go from a number on.
unfoldable pub purge_tables : ℕ → ℕ → FlowEntry → Pipeline → Option (RoflResult × Pipeline)
unfolding remove_flow_entry_table
purge_tables zero i e p = some (success, p)
purge_tables (suc k) i e p = do
  r ← remove_flow_entry_table p i e not_strict port_any group_any
  elim r.0 [ success ↦ purge_tables k (i + 1) e r.1 | failure ↦ some (failure, r.1) ]

-- The groups are looked for in a new, empty group table. The addresses are those of the entry and of
-- the table that are created for the calls, or none.
unfoldable pub purge_pipeline_entries :
    Option ℕ → Bool → ℕ → Pipeline → Option (RoflResult × Pipeline)
unfolding purge_tables init_flow_entry group_delete init_group_table
purge_pipeline_entries none allocated now p = some (failure, p)
purge_pipeline_entries (some addr) false now p = some (failure, p)
purge_pipeline_entries (some addr) true now p = do
  r ← purge_tables (length p.tables) 0 (init_flow_entry addr now false) p
  elim r.0 [
    | failure ↦ some r
    | success ↦ do
      d ← group_delete r.1.tables init_group_table group_any
      some (success, record r.1 { tables = d.0 })
  ]

-- The reset of the tables, up to one that has no defaults for the version.
unfoldable pub set_defaults : ℕ → List Table → RoflResult × List Table
unfolding set_table_defaults
set_defaults version [] = (success, [])
set_defaults version (t ∷ ts) =
    let rest = set_defaults version ts in
    elim (set_table_defaults version t) [ none ↦ (failure, t ∷ ts) | some u ↦ (rest.0, u ∷ rest.1) ]

unfoldable pub set_pipeline_tables_defaults : Pipeline → ℕ → RoflResult × Pipeline
unfolding set_defaults
set_pipeline_tables_defaults p version =
    let r = set_defaults version p.tables in (r.0, record p { tables = r.1 })

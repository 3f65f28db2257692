-- ===== src/Pipeline.antt =====
-- The operations of of1x_flow_table.c on the tables of a pipeline, which dispatch to the matching
-- algorithm `loop`, and the deletion of groups of of1x_group_table.c. The outcome is `none` where the
-- code reads through NULL. An operation holds the locks that it needs.
pub mod Delete
pub mod Users
pub mod Add
pub mod Manage
pub mod Purge
pub mod Create
mod Tests
use rofl_fork.Base.{
  ℕ, zero, suc, Bool, true, false, not, List, [], ◌∷◌, Option, none, some, ◌==◌, if◌then◌else◌,
  get_elem?, set, length, RoflResult, success, failure,
}
use rofl_fork.FlowEntry.{FlowEntry, RemoveReason, delete, group_delete, port_any, timer_added}
use rofl_fork.FlowEntry.Validate.{validate_flow_entry}
use rofl_fork.Group.Table.{Group, GroupTable, group_any, group_all}
use rofl_fork.Loop.{
  Table, Strictness, strict, FmResult, fm_success, fm_failure, fm_overlap, tell,
  add_flow_entry_table_imp, remove_flow_entry_loop,
}
use rofl_fork.Loop.Modify.{modify_flow_entry_loop}

-- of1x_pipeline_t with the version of its switch. The number of tables is that of the list.
pub record Pipeline : Type 0 where
  pub of_ver : ℕ
  pub num_of_buffers : ℕ
  pub capabilities : ℕ
  pub miss_send_len : ℕ
  pub tables : List Table
  pub groups : GroupTable

abbrev pub set_table : Pipeline → ℕ → Table → Pipeline
set_table p i t = record p { tables = set p.tables i t }

-- The timer of the entry is started after a success only.
abbrev pub start_timer : FlowEntry → FmResult × Table → FmResult × Table
start_timer e (fm_success, t) = (fm_success, tell (timer_added e) t)
start_timer e (fm_failure, t) = (fm_failure, t)
start_timer e (fm_overlap, t) = (fm_overlap, t)

-- What remains of an operation on a table once the entry is validated.
abbrev pub on_valid {ℓ} :
    {R : Type ℓ}
    → Pipeline
    → ℕ
    → R
    → (FlowEntry → R × Table)
    → Option (RoflResult × FlowEntry)
    → Option (R × Pipeline)
on_valid p i failed run none = none
on_valid p i failed run (some (failure, e)) = some (failed, p)
on_valid p i failed run (some (success, e)) = some ((run e).0, set_table p i (run e).1)

abbrev pub validated : Pipeline → FlowEntry → Option (RoflResult × FlowEntry)
validated p e = validate_flow_entry p.of_ver (some p.groups) e

-- The operation on the table of an index, or a failure where there is none.
abbrev pub at_table {ℓ} :
    {R : Type ℓ}
    → Pipeline
    → R
    → (Table → Option (R × Pipeline))
    → Option Table
    → Option (R × Pipeline)
at_table p failed run none = some (failed, p)
at_table p failed run (some t) = run t

unfoldable pub add_flow_entry_table :
    Pipeline → ℕ → FlowEntry → Bool → Bool → Option (FmResult × Pipeline)
add_flow_entry_table p i e check_overlap reset =
    let run = λ (t : Table) (f : FlowEntry).
      start_timer f (add_flow_entry_table_imp t f check_overlap reset) in
    at_table p fm_failure (λ t. on_valid p i fm_failure (run t) (validated p e))
      (get_elem? p.tables i)

unfoldable pub modify_flow_entry_table :
    Pipeline → ℕ → FlowEntry → Strictness → Bool → Option (FmResult × Pipeline)
modify_flow_entry_table p i e s reset =
    let run = λ (t : Table) (f : FlowEntry). modify_flow_entry_loop t f s reset in
    at_table p fm_failure (λ t. on_valid p i fm_failure (run t) (validated p e))
      (get_elem? p.tables i)

unfoldable pub remove_flow_entry_table :
    Pipeline → ℕ → FlowEntry → Strictness → ℕ → ℕ → Option (RoflResult × Pipeline)
remove_flow_entry_table p i e s out_port out_group =
    let run = λ (t : Table) (f : FlowEntry).
      remove_flow_entry_loop t (some f) none s out_port out_group delete in
    at_table p failure (λ t. on_valid p i failure (run t) (validated p e)) (get_elem? p.tables i)

unfoldable pub remove_specific_flow_entry_table :
    Pipeline → ℕ → FlowEntry → RemoveReason → RoflResult × Pipeline
remove_specific_flow_entry_table p i e cause = elim (get_elem? p.tables i) [
  | none ↦ (failure, p)
  | some t ↦
      let r = remove_flow_entry_loop t none (some e) strict port_any group_any cause in
      (r.0, set_table p i r.1)
]

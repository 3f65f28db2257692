-- ===== src/Loop/Modify.antt =====
-- Modification of entries in of1x_loop_match.c.
use rofl_fork.Base.{ℕ, ◌+◌, Bool, true, false, List, [], ◌∷◌, ◌++◌, ◌==◌, if◌then◌else◌}
use rofl_fork.FlowEntry.{
  FlowEntry, Event, RemoveReason, modify_entry, update_flow_entry, flow_entry_check_contained,
  flow_entry_check_equal, port_any, destroy_flow_entry_with_reason,
}
use rofl_fork.Group.Table.{group_any}
use rofl_fork.Loop.{
  Table, Strictness, strict, not_strict, FmResult, fm_success, add_flow_entry_table_imp,
}

-- What the loop has done: the entries, what is left of the modification, the number of entries that
-- it updated, and what it told the platform, the latest first.
pub record Modified : Type 0 where
  pub entries : List FlowEntry
  pub change : FlowEntry
  pub moded : ℕ
  pub told : List Event

abbrev pub untouched : List FlowEntry → FlowEntry → Modified
untouched es change = record { entries = es; change = change; moded = 0; told = [] }

-- The visit of one entry that is updated, before those behind it.
abbrev pub count_update : FlowEntry → FlowEntry → Bool → Modified → Modified
count_update it change reset m = record {
  entries = (update_flow_entry it change reset).0 ∷ m.entries;
  change = m.change;
  moded = m.moded + 1;
  told = m.told ++ modify_entry it change reset ∷ [];
}

unfoldable pub modify_strict : List FlowEntry → FlowEntry → Bool → Modified
modify_strict [] change reset = untouched [] change
modify_strict (it ∷ es) change reset =
    let rest = modify_strict es change reset in
    if flow_entry_check_equal it change port_any group_any true
    then count_update it change reset (untouched es (update_flow_entry it change reset).1)
    else record rest { entries = it ∷ rest.entries }

unfoldable pub modify_contained : List FlowEntry → FlowEntry → Bool → Modified
modify_contained [] change reset = untouched [] change
modify_contained (it ∷ es) change reset =
    elim (flow_entry_check_contained it change false true port_any group_any false) [
      | true ↦
          count_update it change reset
            (modify_contained es (update_flow_entry it change reset).1 reset)
      | false ↦
          let rest = modify_contained es change reset in record rest { entries = it ∷ rest.entries }
    ]

unfoldable pub modify_entries : List FlowEntry → FlowEntry → Strictness → Bool → Modified
unfolding modify_strict modify_contained
modify_entries es change strict reset = modify_strict es change reset
modify_entries es change not_strict reset = modify_contained es change reset

-- With no entry to update, the modification is added. Else it is freed.
unfoldable pub modify_flow_entry_loop : Table → FlowEntry → Strictness → Bool → FmResult × Table
unfolding modify_entries
modify_flow_entry_loop t change s reset =
    let m = modify_entries t.entries change s reset in
    if m.moded == 0 then add_flow_entry_table_imp t change false reset else (
      fm_success,
      record t {
        entries = m.entries;
        trace = destroy_flow_entry_with_reason m.change RemoveReason.no_reason ++ m.told ++ t.trace;
      },
    )

-- ===== src/Pipeline/Delete.antt =====
-- of1x_group_delete of of1x_group_table.c. The loop that removes the entries of a table which use the
-- group runs on fuel; the number of entries is enough.
use rofl_fork.Base.{
  ℕ, zero, suc, ◌+◌, ◌-◌, ◌%◌, ◌^◌, not, List, [], ◌∷◌, Option, none, some, ◌==◌, if◌then◌else◌,
  length, RoflResult, success, failure,
}
use rofl_fork.FlowEntry.{RemoveReason, port_any}
use rofl_fork.Group.Table.{Group, GroupTable, group_any, group_all}
use rofl_fork.Loop.{Table, strict, remove_flow_entry_loop}
use rofl_fork.Loop.Lookup.{find_entry_using_group_loop}

-- The list without the group at the address.
unfoldable pub unlink_group : ℕ → List Group → List Group
unlink_group a [] = []
unlink_group a (g ∷ gs) = let rest = unlink_group a gs in if g.addr == a then gs else g ∷ rest

unfoldable pub extract_group : GroupTable → Group → RoflResult × GroupTable
unfolding unlink_group
extract_group gt g = if not g.attached then (failure, gt) else (
  success,
  record {
    groups = unlink_group g.addr gt.groups;
    num_of_entries = (gt.num_of_entries + (2 ^ 32 - 1)) % 2 ^ 32;
  },
)

unfoldable pub remove_users : ℕ → Table → ℕ → Option Table
remove_users zero t id = elim (find_entry_using_group_loop t id) [ none ↦ some t | some e ↦ none ]
remove_users (suc n) t id = elim (find_entry_using_group_loop t id) [
  | none ↦ some t
  | some e ↦
      remove_users n
        (remove_flow_entry_loop t none (some e) strict port_any group_any
          RemoveReason.group_delete).1
        id
]

unfoldable pub remove_all_users : List Table → ℕ → Option (List Table)
unfolding remove_users
remove_all_users [] id = some []
remove_all_users (t ∷ ts) id = elim (remove_users (length t.entries) t id) [
  | none ↦ none
  | some u ↦ elim (remove_all_users ts id) [ none ↦ none | some us ↦ some (u ∷ us) ]
]

-- The loop over the groups. A group that another thread has detached ends it.
unfoldable pub delete_groups :
    List Table → GroupTable → List Group → Option (List Table × GroupTable)
unfolding extract_group remove_all_users
delete_groups ts gt [] = some (ts, gt)
delete_groups ts gt (g ∷ gs) = elim (extract_group gt g).0 [
  | failure ↦ some (ts, gt)
  | success ↦ elim (remove_all_users ts g.id) [
    | none ↦ none
    | some us ↦ delete_groups us (extract_group gt g).1 gs
  ]
]

-- For one identifier the code returns at once: the return stands behind a test that a semicolon ends.
unfoldable pub group_delete : List Table → GroupTable → ℕ → Option (List Table × GroupTable)
unfolding delete_groups
group_delete ts gt id = if id == group_all then delete_groups ts gt gt.groups else some (ts, gt)

-- ===== src/Pipeline/Tests.antt =====
-- Runs of the deletion of groups.
use rofl_fork.Action.{init_action_group}
use rofl_fork.FlowEntry.{FlowEntry}
use rofl_fork.Instruction.{
  InstructionType, empty_instruction, init_instruction, add_instruction_to_group,
  init_instruction_group,
}
use rofl_fork.Instruction.Complete.{IsComplete}
use rofl_fork.Loop.{FmResult}
use rofl_fork.Loop.Tests.{of_port}
use rofl_fork.Pipeline.{Pipeline, add_flow_entry_table}
use rofl_fork.Pipeline.Add.{AreComparable, AreTables, add_flow_entry_table-AreTables}
use rofl_fork.Base.{refl, true, false, none, ◌≡◌, [], ◌∷◌, some, All, List, arith}
use rofl_fork.Group.Table.{GroupTable, group_all}
use rofl_fork.Group.Tests.{one_group, one_group-attached}
use rofl_fork.Loop.{Table}
use rofl_fork.Loop.Invariant.{IsTable}
use rofl_fork.Loop.Tests.{two_entries, two_entries-IsTable}
use rofl_fork.Pipeline.Delete.{group_delete}
use rofl_fork.Pipeline.Create.{AreNew, init_pipeline-AreNew}
use rofl_fork.Group.Invariant.{IsGroupTable}
use rofl_fork.Base.{inl, inr}
use rofl_fork.Pipeline.Manage.{init_pipeline, purge_pipeline_entries}
use rofl_fork.Pipeline.Purge.{IsEmpty, purge_pipeline_entries-IsEmpty}
use rofl_fork.Base.{length, success}
use rofl_fork.Pipeline.Users.{group_delete-all, AreFreeOf}

group_delete-all_example :
    (us : List Table) × (new : GroupTable) × (group_delete (two_entries ∷ []) one_group group_all
      ≡ some (us, new))
    × (new.groups ≡ [])
    × All IsTable us
    × All (λ g. AreFreeOf us g.id) one_group.groups
group_delete-all_example =
    group_delete-all (two_entries ∷ []) one_group (two_entries-IsTable, tt) one_group-attached

-- An entry that applies an empty list of actions.
abbrev applying : FlowEntry
unfolding of_port add_instruction_to_group init_instruction_group init_action_group
applying = record (of_port 3 30 9) {
  inst_grp =
      add_instruction_to_group init_instruction_group InstructionType.apply_actions
        (some (init_action_group [])) none none 0;
}

abbrev one_table : Pipeline
one_table = record {
  of_ver = 4;
  num_of_buffers = 0;
  capabilities = 79;
  miss_send_len = 128;
  tables = two_entries ∷ [];
  groups = one_group;
}

no_actions : IsComplete empty_instruction
no_actions = ((λ e. ground arith), λ e. ground arith)

applying-IsComplete : All IsComplete applying.inst_grp.instructions
unfolding applying add_instruction_to_group init_instruction_group init_instruction
applying-IsComplete = (
  ((λ _. refl), λ e. ground arith),
  (no_actions, (no_actions, (no_actions, (no_actions, (no_actions, (no_actions, tt)))))),
)

add_flow_entry_table-AreTables_example :
    (s : FmResult × Pipeline) × (add_flow_entry_table one_table 0 applying true false ≡ some s)
    × AreTables s.1
    × AreComparable one_table applying
unfolding two_entries applying of_port
add_flow_entry_table-AreTables_example =
    add_flow_entry_table-AreTables one_table 0 applying true false (two_entries-IsTable, tt)
      applying-IsComplete ((ground arith, (ground arith, tt)), tt) refl ((refl, (refl, tt)), tt)

purge_pipeline_entries-IsEmpty_example :
    (q : Pipeline) × (purge_pipeline_entries (some 9) true 0 one_table ≡ some (success, q))
    × All IsEmpty q.tables
    × (length q.tables ≡ 1)
    × (q.groups ≡ one_group)
purge_pipeline_entries-IsEmpty_example =
    purge_pipeline_entries-IsEmpty 9 0 one_table (two_entries-IsTable, tt)

-- Two tables of OpenFlow 1.2, whose memory holds something else before.
init_pipeline-AreNew_example :
    (p : Pipeline) × (init_pipeline true true 1 3 ((0, two_entries) ∷ (0, two_entries) ∷ [])
      ≡ some p)
    × AreNew 0 2 p.tables
    × IsGroupTable p.groups
init_pipeline-AreNew_example =
    init_pipeline-AreNew 1 3 ((0, two_entries) ∷ (0, two_entries) ∷ [])
      (ground arith, (ground arith, tt)) (inr (inl refl)) (ground arith) (ground arith)

-- ===== src/Loop/Tests.antt =====
-- A table of two entries, and runs of the operations of of1x_loop_match.c on it.
use rofl_fork.FlowEntry.{equal_lists}
use rofl_fork.Base.{
  ℕ, ◌≡◌, refl, true, false, [], ◌∷◌, none, some, arith, success, keep, find_first, ◌⊎◌, ◌++◌,
  FirstAt,
}
use rofl_fork.Ternary.{utern_compare32, utern_equals}
use rofl_fork.FlowEntry.{
  FlowEntry, RemoveReason, init_flow_entry, add_match_to_entry, port_any, flow_entry_check_equal,
  meets_out,
}
use rofl_fork.Group.Table.{group_any}
use rofl_fork.Instruction.{init_instruction_group}
use rofl_fork.Loop.{
  remove_flow_entry_table_specific_imp, Table, add_flow_entry_table_imp, check_identical,
  fm_success, remove_flow_entry_loop, not_strict, strict, drop, TableConfig,
}
use rofl_fork.Loop.Keep.{IsUpdate, modify-IsTable, modify-find_best}
use rofl_fork.Loop.Modify.{modify_flow_entry_loop, modify_entries, modify_strict}
use rofl_fork.Loop.OutPort.{remove_strict-out_port}
use rofl_fork.Loop.Add.{placed, renewed, add-IsTable, add_replaces}
use rofl_fork.Loop.Best.{find_best-IsFirst, find_best-add, IsFirst}
use rofl_fork.Loop.Invariant.{IsTable, IsFresh}
use rofl_fork.Loop.Lookup.{find_best_match_loop, entry_matches, matches_all}
use rofl_fork.Loop.Members.{Has}
use rofl_fork.Loop.Refine.{Command, Step, IsBest, execute, execute-refines}
use rofl_fork.Match.Packet.{PacketMatches}
use rofl_fork.Loop.Remove.{remove_not_strict-Leaves, remove_strict-Leaves, asked_for, Leaves, stays}
use rofl_fork.Match.{init_match_group, match_group_push_back, equal_matches, Match}
use rofl_fork.Match.Types.{match_code}
use rofl_fork.Match.Check.{check_match}
use rofl_fork.Match.Init.{init_port_in_match}
use rofl_fork.Match.Tests.{packet_from}

unfoldable pub from_port : ℕ → Match
unfolding init_port_in_match
from_port n = init_port_in_match (record { hi = 0; lo = 0 }, record { hi = 0; lo = 0 }) n

-- An entry for the packets from a port.
unfoldable pub of_port : ℕ → ℕ → ℕ → FlowEntry
unfolding init_flow_entry add_match_to_entry init_match_group match_group_push_back
of_port addr priority port =
    record (add_match_to_entry (init_flow_entry addr 0 false) (from_port port)) {
      priority = priority;
      table = some 0;
    }

abbrev pub catch_all : FlowEntry
unfolding init_flow_entry
catch_all = record (init_flow_entry 2 0 false) { priority = 10; table = some 0 }

abbrev pub empty_config : TableConfig
empty_config = record {
  match = 0;
  wildcards = 0;
  write_actions = 0;
  apply_actions = 0;
  write_setfields = 0;
  apply_setfields = 0;
  metadata_match = 0;
  metadata_write = 0;
  instructions = 0;
  table_miss_config = 0;
}

unfoldable pub two_entries : Table
unfolding of_port catch_all
two_entries = record {
  number = 0;
  entries = of_port 1 20 7 ∷ catch_all ∷ [];
  num_of_entries = 2;
  default_action = drop;
  config = empty_config;
  stats = record { lookup_count = 0; matched_count = 0 };
  trace = [];
}

pub two_entries-IsTable : IsTable two_entries
unfolding of_port catch_all two_entries init_flow_entry add_match_to_entry init_match_group
    match_group_push_back
two_entries-IsTable = record {
  ordered = ((ground arith, tt), (tt, tt));
  count = refl;
  bounded = ground arith;
  points = (refl, (refl, tt));
  distinct = ((ground arith, tt), (tt, tt));
}

find_best-IsFirst_example :
    (entry_matches (packet_from 7) (of_port 1 20 7) ≡ true)
    × IsFirst (packet_from 7) (of_port 1 20 7) two_entries.entries
unfolding find_best_match_loop find_first entry_matches matches_all check_match two_entries
    from_port utern_compare32
find_best-IsFirst_example =
    find_best-IsFirst two_entries (packet_from 7) (of_port 1 20 7) two_entries-IsTable refl

add-IsTable_example : IsTable (add_flow_entry_table_imp two_entries (of_port 3 30 9) true false).1
unfolding two_entries
add-IsTable_example =
    add-IsTable two_entries (of_port 3 30 9) true false two_entries-IsTable
      (ground arith, (ground arith, tt))

find_best-add_example :
    (g : FlowEntry) × (find_best_match_loop
        (add_flow_entry_table_imp two_entries (of_port 3 20 7) false true).1
        (packet_from 7)
      ≡ some g)
    × (g.addr ≡ 3)
    × (g.inst_grp ≡ init_instruction_group)
unfolding two_entries entry_matches check_match from_port utern_compare32 add_flow_entry_table_imp
    find_first flow_entry_check_equal equal_matches match_code utern_equals meets_out
find_best-add_example =
    find_best-add two_entries (of_port 3 20 7) false true (packet_from 7)
      (ground arith, (ground arith, tt)) refl ((λ _. refl), ((λ _. refl), tt)) refl

add_replaces_example :
    ((add_flow_entry_table_imp two_entries (of_port 3 20 7) false false).0 ≡ fm_success)
    × IsFresh 1 (add_flow_entry_table_imp two_entries (of_port 3 20 7) false false).1.entries
    × ((add_flow_entry_table_imp two_entries (of_port 3 20 7) false false).1.num_of_entries ≡ 2)
    × ((remove_flow_entry_table_specific_imp
          (placed two_entries (renewed (of_port 3 20 7) (of_port 1 20 7) false))
          (of_port 1 20 7)
          RemoveReason.no_reason).0
        ≡ success)
unfolding two_entries check_identical find_first flow_entry_check_equal equal_matches match_code
    from_port utern_equals meets_out
add_replaces_example =
    add_replaces two_entries (of_port 3 20 7) (of_port 1 20 7) false two_entries-IsTable
      (ground arith, (ground arith, tt)) (ground arith) refl

remove_not_strict-Leaves_example :
    Leaves
      (remove_flow_entry_loop two_entries
        (some (of_port 9 0 7))
        none
        not_strict
        port_any
        group_any
        RemoveReason.delete)
      (keep (stays (of_port 9 0 7) port_any group_any) two_entries.entries)
remove_not_strict-Leaves_example =
    remove_not_strict-Leaves two_entries (of_port 9 0 7) port_any group_any RemoveReason.delete
      two_entries-IsTable

remove_strict-Leaves_example :
    ((find_first
          (asked_for two_entries (of_port 9 20 7) port_any group_any RemoveReason.delete)
          two_entries.entries
        ≡ none)
      × (remove_flow_entry_loop two_entries
            (some (of_port 9 20 7))
            none
            strict
            port_any
            group_any
            RemoveReason.delete
          ≡ (success, two_entries)))
    ⊎ ((it : FlowEntry) × (at : FirstAt
          (asked_for two_entries (of_port 9 20 7) port_any group_any RemoveReason.delete)
          two_entries.entries
          it)
        × Leaves
            (remove_flow_entry_loop two_entries
              (some (of_port 9 20 7))
              none
              strict
              port_any
              group_any
              RemoveReason.delete)
            (at.0 ++ at.1))
remove_strict-Leaves_example =
    remove_strict-Leaves two_entries (of_port 9 20 7) port_any group_any RemoveReason.delete
      two_entries-IsTable

modify-IsTable_example :
    IsTable (modify_flow_entry_loop two_entries (of_port 9 20 7) not_strict false).1
unfolding two_entries
modify-IsTable_example =
    modify-IsTable two_entries (of_port 9 20 7) not_strict false two_entries-IsTable
      (ground arith, (ground arith, tt))

modify-find_best_example :
    ((modify_flow_entry_loop two_entries (of_port 9 20 7) strict true).0 ≡ fm_success)
    × ((f : FlowEntry) × (find_best_match_loop
            (modify_flow_entry_loop two_entries (of_port 9 20 7) strict true).1
            (packet_from 7)
          ≡ some f)
        × IsUpdate (of_port 1 20 7) f)
unfolding two_entries modify_entries modify_strict flow_entry_check_equal equal_lists equal_matches
    utern_equals meets_out of_port from_port match_code find_best_match_loop find_first
    entry_matches matches_all check_match utern_compare32
modify-find_best_example =
    modify-find_best two_entries (of_port 9 20 7) strict true (packet_from 7) (of_port 1 20 7)
      (ground arith) refl

remove_strict-out_port_example :
    remove_flow_entry_loop two_entries
      (some (of_port 9 20 7))
      none
      strict
      4
      group_any
      RemoveReason.delete
    ≡ (success, two_entries)
unfolding two_entries init_instruction_group
remove_strict-out_port_example =
    remove_strict-out_port two_entries (of_port 9 20 7) 4 group_any RemoveReason.delete
      two_entries-IsTable ((refl, refl), ((refl, refl), tt)) (ground arith)

-- The replacement of an equal entry.
abbrev replacement : Command
replacement = Command.add (of_port 3 20 7) false false

execute-refines_example :
    Step replacement
      (execute replacement two_entries).0
      (Has two_entries.entries)
      (Has (execute replacement two_entries).1.entries)
    × IsTable (execute replacement two_entries).1
    × ((pkt : PacketMatches)
        → IsBest
            (Has (execute replacement two_entries).1.entries)
            pkt
            (find_best_match_loop (execute replacement two_entries).1 pkt))
unfolding two_entries
execute-refines_example =
    execute-refines replacement two_entries two_entries-IsTable (ground arith, (ground arith, tt))

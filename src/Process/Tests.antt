-- ===== src/Process/Tests.antt =====
-- A switch of two ports and one table, and runs of the processing of packets on it.
use rofl_fork.Instruction.{process_instructions_must_replicate}
use rofl_fork.Process.{attached_port}
use rofl_fork.Process.{is_output_port}
use rofl_fork.Action.Types.{action_code}
use rofl_fork.Action.{repeat, Action, ActionGroup, clear_write_actions, init_action_group}
use rofl_fork.Action.Init.{action_field, action_versions, word}
use rofl_fork.Action.Types.{ActionType}
use rofl_fork.Base.{ℕ, ◌≡◌, ◌+◌, refl, true, false, List, [], ◌∷◌, none, some, inr, All}
use rofl_fork.FlowEntry.{FlowEntry}
use rofl_fork.Group.{init_group_table}
use rofl_fork.Group.Parameters.{IsGroup}
use rofl_fork.Group.Tests.{to_port, one_group, one_group-IsGroupTable}
use rofl_fork.Instruction.{
  InstructionGroup, InstructionType, slot, empty_instruction, init_instruction_group,
  add_instruction_to_group,
}
use rofl_fork.Loop.{Table, to_controller}
use rofl_fork.Loop.Tests.{of_port, empty_config}
use rofl_fork.Match.Tests.{packet_from}
use rofl_fork.Packet.{Packet, Platform}
use rofl_fork.Process.{Run, Switch, process_packet_action}
use rofl_fork.Process.Balance.{replicas, releases}
use rofl_fork.Process.Depth.{process_packet_action-depth}
use rofl_fork.Process.Liveness.{AreServed, process_packet_pipeline-Ends}
use rofl_fork.Process.Served.{IsEnding}
use rofl_fork.Process.Tables.{init_run, process_packet_pipeline}

-- A platform whose packets have a number, which the edits leave alone.
abbrev numbered : Platform ℕ
numbered = record {
  get = λ f n. n;
  get_long = λ f n. record { hi = n; lo = 0 };
  has_vlan = λ n. false;
  get_mpls_bos = λ n. false;
  edit = λ e n. n;
  replicate = λ h pkt. some pkt;
}

abbrev dec_ttl : Action
dec_ttl = record (to_port 0) { type = ActionType.dec_nw_ttl }

-- To apply: decrement the TTL, then send to the port 3.
unfoldable to_port_3 : InstructionGroup
to_port_3 =
    record (add_instruction_to_group init_instruction_group InstructionType.apply_actions
      (some (init_action_group (dec_ttl ∷ to_port 3 ∷ []))) none none 0) { num_of_outputs = 1 }

-- The packets from the port 7, which is the number of the packet below.
unfoldable port_7 : FlowEntry
port_7 = record (of_port 1 20 7) { inst_grp = to_port_3 }

unfoldable one_table : Table
one_table = record {
  number = 0;
  entries = port_7 ∷ [];
  num_of_entries = 1;
  default_action = to_controller;
  config = empty_config;
  stats = record { lookup_count = 0; matched_count = 0 };
  trace = [];
}

unfoldable two_ports : Switch
two_ports = record {
  pipeline = record {
    of_ver = 4;
    num_of_buffers = 0;
    capabilities = 79;
    miss_send_len = 128;
    tables = one_table ∷ [];
    groups = init_group_table;
  };
  logical_ports = none ∷ none ∷ none ∷ some 100 ∷ none ∷ none ∷ none ∷ some 101 ∷ [];
}

unfoldable packet_7 : Packet ℕ
packet_7 = record { buffer = 7; matches = packet_from 0; write_actions = clear_write_actions }

abbrev sends_to_3 : ActionGroup
sends_to_3 = init_action_group (dec_ttl ∷ to_port 3 ∷ [])

port_7-IsEnding : IsEnding two_ports port_7.inst_grp.instructions
unfolding port_7 to_port_3 add_instruction_to_group init_instruction_group init_action_group
    action_code is_output_port attached_port two_ports
port_7-IsEnding = record {
  before = [];
  slot = slot port_7.inst_grp InstructionType.apply_actions;
  after = repeat 6 empty_instruction;
  quiet = dec_ttl ∷ [];
  last = to_port 3;
  group = sends_to_3;
  parts = refl;
  before_quiet = refl;
  before_stays = refl;
  slot_applies = refl;
  slot_group = refl;
  group_actions = refl;
  actions_quiet = refl;
  last_sends = refl;
  after_idle = refl;
}

two_ports-AreServed : AreServed two_ports 0 two_ports.pipeline.tables
unfolding two_ports one_table process_instructions_must_replicate port_7 to_port_3
    add_instruction_to_group init_instruction_group
two_ports-AreServed = ((inr (refl, refl, port_7-IsEnding), tt), tt)

process_packet_pipeline-Ends_example :
    (ts : List Table) × (r : Run ℕ) × (process_packet_pipeline numbered two_ports 0 packet_7
      ≡ some (ts, r))
    × (r.released ≡ true)
    × (releases r.history ≡ replicas r.history + 1)
process_packet_pipeline-Ends_example =
    process_packet_pipeline-Ends numbered two_ports 0 packet_7 two_ports-AreServed

-- A switch with a group of one bucket, at the address 64.
unfoldable one_group_switch : Switch
one_group_switch = record two_ports { pipeline = record two_ports.pipeline { groups = one_group } }

abbrev to_group : Action
to_group = record (to_port 5) { type = ActionType.group; group = some 64 }

abbrev packet_run : Run ℕ
packet_run = init_run numbered two_ports 0 packet_7

groups_valid : All IsGroup one_group_switch.pipeline.groups.groups
unfolding one_group_switch
groups_valid = one_group-IsGroupTable.groups

process_packet_action-depth_example :
    process_packet_action numbered one_group_switch 0 5 false to_group packet_run
    ≡ process_packet_action numbered one_group_switch 0 2 false to_group packet_run
process_packet_action-depth_example =
    process_packet_action-depth numbered one_group_switch 0 3 false to_group packet_run groups_valid

-- A new action for a VLAN identifier, of which 12 bits are kept.
unfoldable new_vlan : Action
new_vlan = record {
  type = ActionType.set_field_vlan_vid;
  field = action_field ActionType.set_field_vlan_vid (word 0x1fff);
  group = none;
  ver_req = action_versions ActionType.set_field_vlan_vid;
}

-- ===== src/Statistics/Tests.antt =====
-- Runs of the statistics on a table with two entries and a table of one group.
use rofl_fork.Base.{List, ◌-◌, ◌/◌, ◌%◌, ◌^◌, ◌≡◌, refl, true, false, [], ◌∷◌, some, arith}
use rofl_fork.FlowEntry.{init_flow_entry, port_any}
use rofl_fork.Group.Table.{group_any}
use rofl_fork.Group.Tests.{one_group, one_group-IsGroupTable}
use rofl_fork.Loop.Tests.{two_entries}
use rofl_fork.Match.{init_match_group}
use rofl_fork.Pipeline.{Pipeline}
use rofl_fork.Statistics.Copies.{Memory, Leftover}
use rofl_fork.Statistics.Messages.{
  Platform, FlowRequest, flow_table_all, cut_cookies, stats_flow_get_duration,
}
use rofl_fork.Statistics.Answers.{stats_flow_get_duration-since}
use rofl_fork.Loop.Lookup.{Aggregate}
use rofl_fork.Loop.Aggregate.{Adds}
use rofl_fork.Statistics.Aggregates.{
  no_flows, all_asked, get_flow_aggregate_stats, get_flow_aggregate_stats-all,
}
use rofl_fork.Statistics.Groups.{
  get_group_all_stats, get_group_all_stats-all, GroupMessage, AreRelated, IsMessageOf,
}

abbrev plenty : Memory
plenty i = some (record { hi = 0; lo = 0 }, record { hi = 0; lo = 0 })

abbrev fresh : Leftover
fresh = record {
  block = λ m. (record { hi = 0; lo = 0 }, record { hi = 0; lo = 0 });
  ver_req = record { min_ver = 0; max_ver = 0 };
  table_id = 0;
  num_of_instructions = 0;
  num_of_outputs = 0;
}

-- A platform that has seen 3 packets of 300 bytes for each entry, 5.5 seconds after the start.
abbrev three_packets : Platform
three_packets = record {
  update_stats = λ e. record e.stats { packet_count = 3; byte_count = 300 };
  clock = λ e. 5500000;
  leftover = fresh;
}

abbrev two_tables : Pipeline
two_tables = record {
  of_ver = 3;
  num_of_buffers = 0;
  capabilities = 79;
  miss_send_len = 128;
  tables = two_entries ∷ two_entries ∷ [];
  groups = one_group;
}

abbrev any_flow : FlowRequest
any_flow = record {
  cookie = 0;
  cookie_mask = 0;
  out_port = port_any;
  out_group = group_any;
  matches = init_match_group;
}

get_flow_aggregate_stats-all_example :
    (r : Aggregate) × (get_flow_aggregate_stats true two_tables flow_table_all any_flow
      ≡ some (some r))
    × Adds no_flows (all_asked 3 (cut_cookies any_flow) two_tables.tables) r
get_flow_aggregate_stats-all_example = get_flow_aggregate_stats-all two_tables any_flow

stats_flow_get_duration-since_example :
    stats_flow_get_duration 5200000 (init_flow_entry 1 1700000 false)
    ≡ ((5200000 - (init_flow_entry 1 1700000 false).stats.initial_time) / 1000000 % 2 ^ 32, 0)
unfolding init_flow_entry
stats_flow_get_duration-since_example =
    stats_flow_get_duration-since 5200000 (init_flow_entry 1 1700000 false) (ground arith)

get_group_all_stats-all_example :
    (ms : List GroupMessage) × (n : Memory) × (get_group_all_stats one_group plenty ≡ some (ms, n))
    × AreRelated IsMessageOf one_group.groups ms
get_group_all_stats-all_example =
    get_group_all_stats-all one_group plenty one_group-IsGroupTable (λ i. (_, refl))

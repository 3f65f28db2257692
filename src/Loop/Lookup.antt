-- ===== src/Loop/Lookup.antt =====
-- Lookups and statistics in of1x_loop_match.c, and the destruction of a table.
use rofl_fork.Base.{
  ℕ, ◌+◌, ◌%◌, ◌^◌, Bool, true, false, ◌&&◌, not, List, [], ◌∷◌, ◌++◌, Option, ◌==◌, if◌then◌else◌,
  find_first, any,
}
use rofl_fork.Action.Types.{ActionType}
use rofl_fork.FlowEntry.{
  FlowEntry, Event, RemoveReason, init_flow_entry, flow_entry_check_contained,
  destroy_flow_entry_with_reason,
}
use rofl_fork.Instruction.{instruction_has}
use rofl_fork.Loop.{Table}
use rofl_fork.Match.{Match, MatchGroup, of_version_10}
use rofl_fork.Match.Check.{check_match}
use rofl_fork.Match.Packet.{PacketMatches}

unfoldable pub matches_all : PacketMatches → List Match → Bool
matches_all pkt [] = true
matches_all pkt (m ∷ ms) = check_match pkt m && matches_all pkt ms

-- The packet meets all the matches of the entry.
unfoldable pub entry_matches : PacketMatches → FlowEntry → Bool
unfolding matches_all
entry_matches pkt e = matches_all pkt e.matches.elements

unfoldable pub find_best_match_loop : Table → PacketMatches → Option FlowEntry
find_best_match_loop t pkt = find_first (entry_matches pkt) t.entries

-- The entry that a request for statistics is turned into; memset leaves all else at zero.
unfoldable pub flow_stats_entry : ℕ → ℕ → MatchGroup → FlowEntry
flow_stats_entry cookie cookie_mask matches = record (init_flow_entry 0 0 false) {
  cookie = cookie;
  cookie_mask = cookie_mask;
  matches = matches;
}

-- of1x_stats_flow_aggregate_msg_t.
pub record Aggregate : Type 0 where
  pub packet_count : ℕ
  pub byte_count : ℕ
  pub flow_count : ℕ

-- The entry is selected by the request, in a switch of the version.
unfoldable pub selected : ℕ → FlowEntry → ℕ → ℕ → FlowEntry → Bool
selected version request out_port out_group e =
    flow_entry_check_contained request e false (not (version == of_version_10)) out_port out_group
      true

abbrev pub count_entry : FlowEntry → Aggregate → Aggregate
count_entry e msg = record {
  packet_count = (msg.packet_count + e.stats.packet_count) % 2 ^ 64;
  byte_count = (msg.byte_count + e.stats.byte_count) % 2 ^ 64;
  flow_count = (msg.flow_count + 1) % 2 ^ 32;
}

unfoldable pub aggregate : (FlowEntry → Bool) → List FlowEntry → Aggregate → Aggregate
aggregate p [] msg = msg
aggregate p (e ∷ es) msg = aggregate p es (if p e then count_entry e msg else msg)

unfoldable pub get_flow_aggregate_stats_loop :
    ℕ → Table → ℕ → ℕ → ℕ → ℕ → MatchGroup → Aggregate → Aggregate
unfolding aggregate selected flow_stats_entry
get_flow_aggregate_stats_loop version t cookie cookie_mask out_port out_group matches msg =
    let request = flow_stats_entry cookie cookie_mask matches in
    aggregate (selected version request out_port out_group) t.entries msg

-- The inner loop runs over the matches of the entry, so an entry with none is passed over.
unfoldable pub uses_group : ℕ → FlowEntry → Bool
uses_group id e = any (λ m. instruction_has e.inst_grp ActionType.group id) e.matches.elements

unfoldable pub find_entry_using_group_loop : Table → ℕ → Option FlowEntry
unfolding uses_group
find_entry_using_group_loop t id = find_first (uses_group id) t.entries

unfoldable pub destroy_events : List FlowEntry → List Event → List Event
destroy_events [] trace = trace
destroy_events (e ∷ es) trace =
    destroy_events es (destroy_flow_entry_with_reason e RemoveReason.no_reason ++ trace)

-- The counter keeps its value.
unfoldable pub destroy_loop : Table → Table
unfolding destroy_events
destroy_loop t = record t { entries = []; trace = destroy_events t.entries t.trace }

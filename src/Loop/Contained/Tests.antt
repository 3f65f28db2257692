-- ===== src/Loop/Contained/Tests.antt =====
-- Containment of a match on one Ethernet address in a match on a block of them.
use rofl_fork.Base.{◌≡◌, refl, true, false, ℕ, arith}
use rofl_fork.FlowEntry.{port_any, flow_entry_check_contained, each_pair, each_of_kind}
use rofl_fork.Group.Table.{group_any}
use rofl_fork.Loop.Contained.{check_contained-entry_matches}
use rofl_fork.Loop.Lookup.{entry_matches, matches_all}
use rofl_fork.Loop.Tests.{of_port, from_port}
use rofl_fork.Match.{Match, is_submatch}
use rofl_fork.Match.Check.{check_match}
use rofl_fork.Match.Init.{init_eth_dst_match}
use rofl_fork.Match.Packet.{PacketMatches}
use rofl_fork.Match.Types.{match_code}
use rofl_fork.Match.Subsume.{check_match-is_submatch}
use rofl_fork.Match.Tests.{packet_from}
use rofl_fork.Ternary.{utern_is_contained, utern_compare32, utern_compare64, word_contained}

abbrev to_address : ℕ → ℕ → Match
unfolding init_eth_dst_match
to_address value mask =
    init_eth_dst_match (record { hi = 0; lo = 0 }, record { hi = 0; lo = 0 }) value mask

abbrev sent_to : ℕ → PacketMatches
sent_to address = record (packet_from 7) { eth_dst = address }

check_match-is_submatch_example :
    check_match (sent_to 0x0a0000000001) (to_address 0x0a0000000000 0xff0000000000) ≡ true
unfolding to_address is_submatch check_match utern_is_contained word_contained utern_compare64
    match_code
check_match-is_submatch_example =
    check_match-is_submatch (sent_to 0x0a0000000001) (to_address 0x0a0000000000 0xff0000000000)
      (to_address 0x0a0000000001 0xffffffffffff) (ground arith) refl refl refl

check_contained-entry_matches_example : entry_matches (packet_from 7) (of_port 9 0 7) ≡ true
unfolding of_port from_port entry_matches matches_all check_match flow_entry_check_contained
    each_pair each_of_kind is_submatch utern_is_contained word_contained utern_compare32 match_code
check_contained-entry_matches_example =
    check_contained-entry_matches (of_port 1 20 7) (of_port 9 0 7) false true port_any group_any
      false (packet_from 7) ((ground arith, refl, refl), tt) refl refl

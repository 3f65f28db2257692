-- ===== src/FlowTable.antt =====
-- of1x_flow_table.c: the defaults of a table for each version of the switch, and its initialisation;
-- and the counters of a table in of1x_statistics.c. The ring of timers of a table is in Timers.
use rofl_fork.Base.{
  ℕ, ◌+◌, ◌%◌, ◌^◌, bit_or, List, [], ◌∷◌, Option, none, some, ltb, not, ◌==◌, if◌then◌else◌,
  RoflResult, success, failure,
}
use rofl_fork.Instruction.{InstructionType, instruction_code}
use rofl_fork.Loop.{Table, TableMiss, to_controller, continue, drop}
use rofl_fork.Match.{of_version_10, of_version_12, of_version_13}
use rofl_fork.Match.Types.{MatchType, match_code}

-- The bitmap with the bits of the kinds.
unfoldable pub bitmap : List MatchType → ℕ
bitmap [] = 0
bitmap (t ∷ ts) = bit_or (2 ^ match_code t) (bitmap ts)

unfoldable pub instruction_bitmap : List InstructionType → ℕ
instruction_bitmap [] = 0
instruction_bitmap (t ∷ ts) = bit_or (2 ^ instruction_code t) (instruction_bitmap ts)

unfoldable pub number_bitmap : List ℕ → ℕ
number_bitmap [] = 0
number_bitmap (n ∷ ns) = bit_or (2 ^ n) (number_bitmap ns)

-- The code of OF1X_TABLE_MISS_CONTROLLER, OF1X_TABLE_MISS_CONTINUE and OF1X_TABLE_MISS_DROP.
abbrev pub miss_code : TableMiss → ℕ
miss_code to_controller = 0
miss_code continue = 1
miss_code drop = 2

abbrev pub of10_match : List MatchType
of10_match =
    MatchType.in_port ∷ MatchType.eth_dst ∷ MatchType.eth_src ∷ MatchType.eth_type
    ∷ MatchType.vlan_vid ∷ MatchType.vlan_pcp ∷ MatchType.ip_dscp ∷ MatchType.ip_proto
    ∷ MatchType.ipv4_src ∷ MatchType.ipv4_dst ∷ MatchType.tp_src ∷ MatchType.tp_dst
    ∷ MatchType.pppoe_code ∷ MatchType.pppoe_type ∷ MatchType.pppoe_sid ∷ MatchType.ppp_prot
    ∷ MatchType.gtp_msg_type ∷ MatchType.gtp_teid ∷ []

abbrev pub of10_wildcards : List MatchType
of10_wildcards =
    MatchType.eth_dst ∷ MatchType.eth_src ∷ MatchType.ipv4_src ∷ MatchType.ipv4_dst
    ∷ MatchType.mpls_label ∷ MatchType.gtp_teid ∷ []

-- OUTPUT, PUSH_VLAN, POP_VLAN, PUSH_MPLS, POP_MPLS, SET_QUEUE, SET_FIELD, PUSH_PPPOE, POP_PPPOE.
abbrev pub of10_actions : List ℕ
of10_actions = 0 ∷ 17 ∷ 18 ∷ 19 ∷ 20 ∷ 21 ∷ 25 ∷ 28 ∷ 29 ∷ []

unfoldable pub of10_set_table_defaults : Table → Table
unfolding bitmap number_bitmap
of10_set_table_defaults t = record t {
  default_action = to_controller;
  config = record {
    match = bitmap of10_match;
    wildcards = bitmap of10_wildcards;
    write_actions = 0;
    apply_actions = number_bitmap of10_actions;
    write_setfields = 0;
    apply_setfields = bitmap of10_match;
    metadata_match = 0;
    metadata_write = 0;
    instructions = 0;
    table_miss_config = 0;
  };
}

abbrev pub of12_match : List MatchType
of12_match =
    MatchType.in_port ∷ MatchType.in_phy_port ∷ MatchType.metadata ∷ MatchType.eth_dst
    ∷ MatchType.eth_src ∷ MatchType.eth_type ∷ MatchType.vlan_vid ∷ MatchType.vlan_pcp
    ∷ MatchType.arp_op ∷ MatchType.arp_sha ∷ MatchType.arp_spa ∷ MatchType.arp_tha
    ∷ MatchType.arp_tpa ∷ MatchType.ip_dscp ∷ MatchType.ip_ecn ∷ MatchType.ip_proto
    ∷ MatchType.ipv4_src ∷ MatchType.ipv4_dst ∷ MatchType.tcp_src ∷ MatchType.tcp_dst
    ∷ MatchType.udp_src ∷ MatchType.udp_dst ∷ MatchType.sctp_src ∷ MatchType.sctp_dst
    ∷ MatchType.icmpv4_type ∷ MatchType.icmpv4_code ∷ MatchType.ipv6_src ∷ MatchType.ipv6_dst
    ∷ MatchType.ipv6_flabel ∷ MatchType.ipv6_nd_target ∷ MatchType.ipv6_nd_sll
    ∷ MatchType.ipv6_nd_tll ∷ MatchType.ipv6_exthdr ∷ MatchType.icmpv6_code ∷ MatchType.icmpv6_type
    ∷ MatchType.mpls_label ∷ MatchType.mpls_tc ∷ MatchType.mpls_bos ∷ MatchType.pppoe_code
    ∷ MatchType.pppoe_type ∷ MatchType.pppoe_sid ∷ MatchType.ppp_prot ∷ MatchType.gtp_msg_type
    ∷ MatchType.gtp_teid ∷ []

abbrev pub of12_wildcards : List MatchType
of12_wildcards =
    MatchType.metadata ∷ MatchType.eth_dst ∷ MatchType.eth_src ∷ MatchType.vlan_vid
    ∷ MatchType.arp_sha ∷ MatchType.arp_spa ∷ MatchType.arp_tha ∷ MatchType.arp_tpa
    ∷ MatchType.ipv4_src ∷ MatchType.ipv4_dst ∷ MatchType.ipv6_src ∷ MatchType.ipv6_dst
    ∷ MatchType.ipv6_flabel ∷ MatchType.ipv6_exthdr ∷ MatchType.gtp_teid ∷ []

-- Those of 1.0 with COPY_TTL_OUT, COPY_TTL_IN, SET_MPLS_TTL, DEC_MPLS_TTL, GROUP, SET_NW_TTL and
-- DEC_NW_TTL.
abbrev pub of12_actions : List ℕ
of12_actions = 0 ∷ 11 ∷ 12 ∷ 15 ∷ 16 ∷ 17 ∷ 18 ∷ 19 ∷ 20 ∷ 21 ∷ 22 ∷ 23 ∷ 24 ∷ 25 ∷ 28 ∷ 29 ∷ []

abbrev pub of12_instructions : List InstructionType
of12_instructions =
    InstructionType.apply_actions ∷ InstructionType.clear_actions ∷ InstructionType.write_actions
    ∷ InstructionType.write_metadata ∷ InstructionType.goto_table ∷ []

unfoldable pub of12_set_table_defaults : Table → Table
unfolding bitmap number_bitmap instruction_bitmap
of12_set_table_defaults t = record t {
  default_action = to_controller;
  config = record {
    match = bitmap of12_match;
    wildcards = bitmap of12_wildcards;
    write_actions = number_bitmap of12_actions;
    apply_actions = number_bitmap of12_actions;
    write_setfields = bitmap of12_match;
    apply_setfields = bitmap of12_match;
    metadata_match = 0;
    metadata_write = 0;
    instructions = instruction_bitmap of12_instructions;
    table_miss_config =
        number_bitmap (miss_code to_controller ∷ miss_code continue ∷ miss_code drop ∷ []);
  };
}

unfoldable pub of13_set_table_defaults : Table → Table
unfolding of12_set_table_defaults
of13_set_table_defaults t =
    let u = of12_set_table_defaults t in
    record u {
      default_action = continue;
      config = record u.config {
        match = bit_or u.config.match (2 ^ match_code MatchType.mpls_bos);
        table_miss_config = 0;
      };
    }

-- The defaults of a version, or none for a version that is not known.
unfoldable pub set_table_defaults : ℕ → Table → Option Table
unfolding of10_set_table_defaults of12_set_table_defaults of13_set_table_defaults
set_table_defaults version t =
    if version == of_version_10
    then some (of10_set_table_defaults t)
    else if version == of_version_12
    then some (of12_set_table_defaults t)
    else if version == of_version_13
    then some (of13_set_table_defaults t)
    else none

unfoldable pub stats_table_init : Table → Table
stats_table_init t = record t { stats = record { lookup_count = 0; matched_count = 0 } }

-- The table as it was allocated; the locks could be created. The build generates the list of matching
-- algorithms, so their number is an argument; they are all `loop`, which has no hook here.
unfoldable pub init_table : ℕ → ℕ → Table → ℕ → ℕ → RoflResult × Table
unfolding set_table_defaults stats_table_init
init_table algorithm_count version t index algorithm =
    let u = record t { number = index; entries = []; num_of_entries = 0 } in
    if not (ltb algorithm algorithm_count)
    then (failure, u)
    else elim (set_table_defaults version u) [
      | none ↦ (failure, u)
      | some v ↦ (success, stats_table_init v)
    ]

unfoldable pub stats_table_lookup_inc : Table → Table
stats_table_lookup_inc t = record t {
  stats = record t.stats { lookup_count = (t.stats.lookup_count + 1) % 2 ^ 64 };
}

unfoldable pub stats_table_matches_inc : Table → Table
stats_table_matches_inc t = record t {
  stats = record {
    lookup_count = (t.stats.lookup_count + 1) % 2 ^ 64;
    matched_count = (t.stats.matched_count + 1) % 2 ^ 64;
  };
}

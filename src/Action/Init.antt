-- ===== src/Action/Init.antt =====
-- of1x_action.c: of1x_init_packet_action, which creates an action of a kind with a value.
use rofl_fork.Action.{Action}
use rofl_fork.Action.Types.{ActionType, action_code}
use rofl_fork.Base.{ℕ, ◌==◌, if◌then◌else◌, bit_and, Bool, true, false, Option, none, some}
use rofl_fork.Match.{VerReq, min_version, max_version, of_version_10, of_version_12, of_version_13}
use rofl_fork.Match.Masks.{
  mask_8_byte, mask_6_byte, mask_4_byte, mask_3_byte, mask_2_byte, mask_20_bits, mask_12_bits,
  mask_9_bits, mask_6_bits, mask_3_bits, mask_2_bits, mask_1_bit,
}
use rofl_fork.Ternary.{Wrap, u8, u16, u32, u64}

-- The first bytes of a field that has been cleared.
abbrev pub word : ℕ → Wrap
word n = record { hi = n; lo = 0 }

-- The value of the field, by the kind.
unfoldable pub action_field : ActionType → Wrap → Wrap
action_field ActionType.no_action w = word 0
action_field ActionType.copy_ttl_in w = word 0
action_field ActionType.pop_vlan w = word 0
action_field ActionType.pop_mpls w = word (bit_and (u16 w) mask_2_byte)
action_field ActionType.pop_gtp w = word 0
action_field ActionType.pop_pppoe w = word (bit_and (u16 w) mask_2_byte)
action_field ActionType.pop_pbb w = word (bit_and (u16 w) mask_2_byte)
action_field ActionType.push_pbb w = word (bit_and (u16 w) mask_2_byte)
action_field ActionType.push_pppoe w = word (bit_and (u16 w) mask_2_byte)
action_field ActionType.push_gtp w = word 0
action_field ActionType.push_mpls w = word (bit_and (u16 w) mask_2_byte)
action_field ActionType.push_vlan w = word (bit_and (u16 w) mask_2_byte)
action_field ActionType.copy_ttl_out w = word 0
action_field ActionType.dec_nw_ttl w = word 0
action_field ActionType.dec_mpls_ttl w = word 0
action_field ActionType.set_mpls_ttl w = word (bit_and (u8 w) mask_2_byte)
action_field ActionType.set_nw_ttl w = word (bit_and (u8 w) mask_2_byte)
action_field ActionType.set_queue w = word (bit_and (u8 w) mask_2_byte)
action_field ActionType.set_field_eth_dst w = word (bit_and (u64 w) mask_6_byte)
action_field ActionType.set_field_eth_src w = word (bit_and (u64 w) mask_6_byte)
action_field ActionType.set_field_eth_type w = word (bit_and (u16 w) mask_2_byte)
action_field ActionType.set_field_mpls_label w = word (bit_and (u32 w) mask_20_bits)
action_field ActionType.set_field_mpls_tc w = word (bit_and (u8 w) mask_3_bits)
action_field ActionType.set_field_mpls_bos w = word (bit_and (u8 w) mask_1_bit)
action_field ActionType.set_field_vlan_vid w = word (bit_and (u16 w) mask_12_bits)
action_field ActionType.set_field_vlan_pcp w = word (bit_and (u8 w) mask_3_bits)
action_field ActionType.set_field_arp_opcode w = word (bit_and (u16 w) mask_2_byte)
action_field ActionType.set_field_arp_sha w = word (bit_and (u64 w) mask_6_byte)
action_field ActionType.set_field_arp_spa w = word (bit_and (u32 w) mask_4_byte)
action_field ActionType.set_field_arp_tha w = word (bit_and (u64 w) mask_6_byte)
action_field ActionType.set_field_arp_tpa w = word (bit_and (u32 w) mask_4_byte)
action_field ActionType.set_field_nw_proto w = word (bit_and (u8 w) mask_2_byte)
action_field ActionType.set_field_nw_src w = word (bit_and (u32 w) mask_4_byte)
action_field ActionType.set_field_nw_dst w = word (bit_and (u32 w) mask_4_byte)
action_field ActionType.set_field_ip_dscp w = word (bit_and (u8 w) mask_6_bits)
action_field ActionType.set_field_ip_ecn w = word (bit_and (u8 w) mask_2_bits)
action_field ActionType.set_field_ip_proto w = word (bit_and (u8 w) mask_2_byte)
action_field ActionType.set_field_ipv4_src w = word (bit_and (u32 w) mask_4_byte)
action_field ActionType.set_field_ipv4_dst w = word (bit_and (u32 w) mask_4_byte)
action_field ActionType.set_field_ipv6_src w = w
action_field ActionType.set_field_ipv6_dst w = w
action_field ActionType.set_field_ipv6_flabel w = word (bit_and (u32 w) mask_20_bits)
action_field ActionType.set_field_ipv6_nd_target w = w
action_field ActionType.set_field_ipv6_nd_sll w = word (bit_and (u64 w) mask_6_byte)
action_field ActionType.set_field_ipv6_nd_tll w = word (bit_and (u64 w) mask_6_byte)
action_field ActionType.set_field_ipv6_exthdr w = word (bit_and (u16 w) mask_9_bits)
action_field ActionType.set_field_tcp_src w = word (bit_and (u16 w) mask_2_byte)
action_field ActionType.set_field_tcp_dst w = word (bit_and (u16 w) mask_2_byte)
action_field ActionType.set_field_udp_src w = word (bit_and (u16 w) mask_2_byte)
action_field ActionType.set_field_udp_dst w = word (bit_and (u16 w) mask_2_byte)
action_field ActionType.set_field_sctp_src w = word (bit_and (u16 w) mask_2_byte)
action_field ActionType.set_field_sctp_dst w = word (bit_and (u16 w) mask_2_byte)
action_field ActionType.set_field_tp_src w = word (bit_and (u16 w) mask_2_byte)
action_field ActionType.set_field_tp_dst w = word (bit_and (u16 w) mask_2_byte)
action_field ActionType.set_field_icmpv4_type w = word (bit_and (u8 w) mask_2_byte)
action_field ActionType.set_field_icmpv4_code w = word (bit_and (u8 w) mask_2_byte)
action_field ActionType.set_field_icmpv6_type w = word (bit_and (u8 w) mask_2_byte)
action_field ActionType.set_field_icmpv6_code w = word (bit_and (u8 w) mask_2_byte)
action_field ActionType.set_field_pbb_isid w = word (bit_and (u64 w) mask_3_byte)
action_field ActionType.set_field_tunnel_id w = word (bit_and (u64 w) mask_8_byte)
action_field ActionType.set_field_pppoe_code w = word (bit_and (u8 w) mask_2_byte)
action_field ActionType.set_field_pppoe_type w = word (bit_and (u8 w) mask_2_byte)
action_field ActionType.set_field_pppoe_sid w = word (bit_and (u16 w) mask_2_byte)
action_field ActionType.set_field_ppp_prot w = word (bit_and (u16 w) mask_2_byte)
action_field ActionType.set_field_gtp_msg_type w = word (bit_and (u8 w) mask_2_byte)
action_field ActionType.set_field_gtp_teid w = word (bit_and (u32 w) mask_4_byte)
action_field ActionType.group w = word (bit_and (u32 w) mask_4_byte)
action_field ActionType.experimenter w = word 0
action_field ActionType.output w = word (bit_and (u32 w) mask_4_byte)

abbrev pub since : ℕ → VerReq
since v = record { min_ver = v; max_ver = max_version }

abbrev pub only_10 : VerReq
only_10 = record { min_ver = of_version_10; max_ver = of_version_10 }

-- The versions of OpenFlow that have the kind.
unfoldable pub action_versions : ActionType → VerReq
action_versions ActionType.copy_ttl_in = since of_version_12
action_versions ActionType.pop_mpls = since of_version_12
action_versions ActionType.pop_gtp = since of_version_12
action_versions ActionType.pop_pppoe = since of_version_12
action_versions ActionType.pop_pbb = since of_version_13
action_versions ActionType.push_pbb = since of_version_13
action_versions ActionType.push_pppoe = since of_version_12
action_versions ActionType.push_gtp = since of_version_12
action_versions ActionType.push_mpls = since of_version_12
action_versions ActionType.push_vlan = since of_version_12
action_versions ActionType.copy_ttl_out = since of_version_12
action_versions ActionType.dec_nw_ttl = since of_version_12
action_versions ActionType.dec_mpls_ttl = since of_version_12
action_versions ActionType.set_mpls_ttl = since of_version_10
action_versions ActionType.set_nw_ttl = since of_version_10
action_versions ActionType.set_queue = since of_version_10
action_versions ActionType.set_field_mpls_label = since of_version_12
action_versions ActionType.set_field_mpls_tc = since of_version_12
action_versions ActionType.set_field_mpls_bos = since of_version_13
action_versions ActionType.set_field_arp_opcode = since of_version_10
action_versions ActionType.set_field_arp_sha = since of_version_12
action_versions ActionType.set_field_arp_spa = since of_version_10
action_versions ActionType.set_field_arp_tha = since of_version_12
action_versions ActionType.set_field_arp_tpa = since of_version_10
action_versions ActionType.set_field_nw_proto = only_10
action_versions ActionType.set_field_nw_src = only_10
action_versions ActionType.set_field_nw_dst = only_10
action_versions ActionType.set_field_ip_ecn = since of_version_12
action_versions ActionType.set_field_ip_proto = since of_version_10
action_versions ActionType.set_field_ipv6_src = since of_version_12
action_versions ActionType.set_field_ipv6_dst = since of_version_12
action_versions ActionType.set_field_ipv6_flabel = since of_version_12
action_versions ActionType.set_field_ipv6_nd_target = since of_version_12
action_versions ActionType.set_field_ipv6_nd_sll = since of_version_12
action_versions ActionType.set_field_ipv6_nd_tll = since of_version_12
action_versions ActionType.set_field_ipv6_exthdr = since of_version_13
action_versions ActionType.set_field_tcp_src = since of_version_12
action_versions ActionType.set_field_tcp_dst = since of_version_12
action_versions ActionType.set_field_udp_src = since of_version_12
action_versions ActionType.set_field_udp_dst = since of_version_12
action_versions ActionType.set_field_sctp_src = since of_version_12
action_versions ActionType.set_field_sctp_dst = since of_version_12
action_versions ActionType.set_field_tp_src = only_10
action_versions ActionType.set_field_tp_dst = only_10
action_versions ActionType.set_field_icmpv4_type = since of_version_10
action_versions ActionType.set_field_icmpv4_code = since of_version_10
action_versions ActionType.set_field_icmpv6_type = since of_version_10
action_versions ActionType.set_field_icmpv6_code = since of_version_10
action_versions ActionType.set_field_pbb_isid = since of_version_13
action_versions ActionType.set_field_tunnel_id = since of_version_13
action_versions ActionType.set_field_pppoe_code = since of_version_10
action_versions ActionType.set_field_pppoe_type = since of_version_10
action_versions ActionType.set_field_pppoe_sid = since of_version_12
action_versions ActionType.set_field_ppp_prot = since of_version_12
action_versions ActionType.set_field_gtp_msg_type = since of_version_10
action_versions ActionType.set_field_gtp_teid = since of_version_12
action_versions ActionType.group = since of_version_12
action_versions ActionType.experimenter = since of_version_12
action_versions type = since min_version

-- None for the kind 0, or without memory. The code leaves the pointer to the group as the memory has
-- it, which is `stale`.
unfoldable pub init_packet_action : Bool → Option ℕ → ActionType → Wrap → Option Action
unfolding action_field action_versions action_code
init_packet_action false stale type w = none
init_packet_action true stale type w =
    if action_code type == 0
    then none
    else some (record {
      type = type;
      field = action_field type w;
      group = stale;
      ver_req = action_versions type;
    })

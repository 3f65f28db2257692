-- ===== src/Action/Width.antt =====
-- The bits that the value of an action has, and that its creation keeps exactly these.
use rofl_fork.Action.{Action}
use rofl_fork.Action.Types.{ActionType}
use rofl_fork.Base.{ℕ}

-- The width of the value: 0 for an action that has none.
abbrev pub action_width : ActionType → ℕ
action_width ActionType.no_action = 0
action_width ActionType.copy_ttl_in = 0
action_width ActionType.pop_vlan = 0
action_width ActionType.pop_mpls = 16
action_width ActionType.pop_gtp = 0
action_width ActionType.pop_pppoe = 16
action_width ActionType.pop_pbb = 16
action_width ActionType.push_pbb = 16
action_width ActionType.push_pppoe = 16
action_width ActionType.push_gtp = 0
action_width ActionType.push_mpls = 16
action_width ActionType.push_vlan = 16
action_width ActionType.copy_ttl_out = 0
action_width ActionType.dec_nw_ttl = 0
action_width ActionType.dec_mpls_ttl = 0
action_width ActionType.set_mpls_ttl = 8
action_width ActionType.set_nw_ttl = 8
action_width ActionType.set_queue = 32
action_width ActionType.set_field_eth_dst = 48
action_width ActionType.set_field_eth_src = 48
action_width ActionType.set_field_eth_type = 16
action_width ActionType.set_field_mpls_label = 20
action_width ActionType.set_field_mpls_tc = 3
action_width ActionType.set_field_mpls_bos = 1
action_width ActionType.set_field_vlan_vid = 12
action_width ActionType.set_field_vlan_pcp = 3
action_width ActionType.set_field_arp_opcode = 16
action_width ActionType.set_field_arp_sha = 48
action_width ActionType.set_field_arp_spa = 32
action_width ActionType.set_field_arp_tha = 48
action_width ActionType.set_field_arp_tpa = 32
action_width ActionType.set_field_nw_proto = 8
action_width ActionType.set_field_nw_src = 32
action_width ActionType.set_field_nw_dst = 32
action_width ActionType.set_field_ip_dscp = 6
action_width ActionType.set_field_ip_ecn = 2
action_width ActionType.set_field_ip_proto = 8
action_width ActionType.set_field_ipv4_src = 32
action_width ActionType.set_field_ipv4_dst = 32
action_width ActionType.set_field_ipv6_src = 128
action_width ActionType.set_field_ipv6_dst = 128
action_width ActionType.set_field_ipv6_flabel = 20
action_width ActionType.set_field_ipv6_nd_target = 128
action_width ActionType.set_field_ipv6_nd_sll = 48
action_width ActionType.set_field_ipv6_nd_tll = 48
action_width ActionType.set_field_ipv6_exthdr = 9
action_width ActionType.set_field_tcp_src = 16
action_width ActionType.set_field_tcp_dst = 16
action_width ActionType.set_field_udp_src = 16
action_width ActionType.set_field_udp_dst = 16
action_width ActionType.set_field_sctp_src = 16
action_width ActionType.set_field_sctp_dst = 16
action_width ActionType.set_field_tp_src = 16
action_width ActionType.set_field_tp_dst = 16
action_width ActionType.set_field_icmpv4_type = 8
action_width ActionType.set_field_icmpv4_code = 8
action_width ActionType.set_field_icmpv6_type = 8
action_width ActionType.set_field_icmpv6_code = 8
action_width ActionType.set_field_pbb_isid = 24
action_width ActionType.set_field_tunnel_id = 64
action_width ActionType.set_field_pppoe_code = 8
action_width ActionType.set_field_pppoe_type = 8
action_width ActionType.set_field_pppoe_sid = 16
action_width ActionType.set_field_ppp_prot = 16
action_width ActionType.set_field_gtp_msg_type = 8
action_width ActionType.set_field_gtp_teid = 32
action_width ActionType.group = 32
action_width ActionType.experimenter = 0
action_width ActionType.output = 32

-- The bits that are kept: those of the kind, but 8 for the queue.
abbrev pub kept_width : ActionType → ℕ
kept_width ActionType.set_queue = 8
kept_width type = action_width type

-- ===== src/Action/Types.antt =====
-- The kinds of packet actions, of1x_packet_action_type_t of of1x_action.h, with their numbers.
use rofl_fork.Base.{ℕ, ◌≡◌, refl, List, [], ◌∷◌, ap, sym, ◌∙◌, get_elem?, some, some_injective}

pub data ActionType : Type 0 where
  no_action copy_ttl_in pop_vlan pop_mpls pop_gtp pop_pppoe pop_pbb push_pbb : ActionType
  push_pppoe push_gtp push_mpls push_vlan copy_ttl_out dec_nw_ttl dec_mpls_ttl : ActionType
  set_mpls_ttl set_nw_ttl set_queue set_field_eth_dst set_field_eth_src : ActionType
  set_field_eth_type set_field_mpls_label set_field_mpls_tc set_field_mpls_bos : ActionType
  set_field_vlan_vid set_field_vlan_pcp set_field_arp_opcode set_field_arp_sha : ActionType
  set_field_arp_spa set_field_arp_tha set_field_arp_tpa set_field_nw_proto : ActionType
  set_field_nw_src set_field_nw_dst set_field_ip_dscp set_field_ip_ecn : ActionType
  set_field_ip_proto set_field_ipv4_src set_field_ipv4_dst set_field_ipv6_src : ActionType
  set_field_ipv6_dst set_field_ipv6_flabel set_field_ipv6_nd_target : ActionType
  set_field_ipv6_nd_sll set_field_ipv6_nd_tll set_field_ipv6_exthdr : ActionType
  set_field_tcp_src set_field_tcp_dst set_field_udp_src set_field_udp_dst : ActionType
  set_field_sctp_src set_field_sctp_dst set_field_tp_src set_field_tp_dst : ActionType
  set_field_icmpv4_type set_field_icmpv4_code set_field_icmpv6_type : ActionType
  set_field_icmpv6_code set_field_pbb_isid set_field_tunnel_id : ActionType
  set_field_pppoe_code set_field_pppoe_type set_field_pppoe_sid : ActionType
  set_field_ppp_prot set_field_gtp_msg_type set_field_gtp_teid group : ActionType
  experimenter output : ActionType

unfoldable pub action_code : ActionType → ℕ
action_code no_action = 0
action_code copy_ttl_in = 1
action_code pop_vlan = 2
action_code pop_mpls = 3
action_code pop_gtp = 4
action_code pop_pppoe = 5
action_code pop_pbb = 6
action_code push_pbb = 7
action_code push_pppoe = 8
action_code push_gtp = 9
action_code push_mpls = 10
action_code push_vlan = 11
action_code copy_ttl_out = 12
action_code dec_nw_ttl = 13
action_code dec_mpls_ttl = 14
action_code set_mpls_ttl = 15
action_code set_nw_ttl = 16
action_code set_queue = 17
action_code set_field_eth_dst = 18
action_code set_field_eth_src = 19
action_code set_field_eth_type = 20
action_code set_field_mpls_label = 21
action_code set_field_mpls_tc = 22
action_code set_field_mpls_bos = 23
action_code set_field_vlan_vid = 24
action_code set_field_vlan_pcp = 25
action_code set_field_arp_opcode = 26
action_code set_field_arp_sha = 27
action_code set_field_arp_spa = 28
action_code set_field_arp_tha = 29
action_code set_field_arp_tpa = 30
action_code set_field_nw_proto = 31
action_code set_field_nw_src = 32
action_code set_field_nw_dst = 33
action_code set_field_ip_dscp = 34
action_code set_field_ip_ecn = 35
action_code set_field_ip_proto = 36
action_code set_field_ipv4_src = 37
action_code set_field_ipv4_dst = 38
action_code set_field_ipv6_src = 39
action_code set_field_ipv6_dst = 40
action_code set_field_ipv6_flabel = 41
action_code set_field_ipv6_nd_target = 42
action_code set_field_ipv6_nd_sll = 43
action_code set_field_ipv6_nd_tll = 44
action_code set_field_ipv6_exthdr = 45
action_code set_field_tcp_src = 46
action_code set_field_tcp_dst = 47
action_code set_field_udp_src = 48
action_code set_field_udp_dst = 49
action_code set_field_sctp_src = 50
action_code set_field_sctp_dst = 51
action_code set_field_tp_src = 52
action_code set_field_tp_dst = 53
action_code set_field_icmpv4_type = 54
action_code set_field_icmpv4_code = 55
action_code set_field_icmpv6_type = 56
action_code set_field_icmpv6_code = 57
action_code set_field_pbb_isid = 58
action_code set_field_tunnel_id = 59
action_code set_field_pppoe_code = 60
action_code set_field_pppoe_type = 61
action_code set_field_pppoe_sid = 62
action_code set_field_ppp_prot = 63
action_code set_field_gtp_msg_type = 64
action_code set_field_gtp_teid = 65
action_code group = 66
action_code experimenter = 67
action_code output = 68

-- The kinds in the order of their numbers.
abbrev action_types : List ActionType
action_types =
    no_action ∷ copy_ttl_in ∷ pop_vlan ∷ pop_mpls ∷ pop_gtp ∷ pop_pppoe ∷ pop_pbb ∷ push_pbb
    ∷ push_pppoe ∷ push_gtp ∷ push_mpls ∷ push_vlan ∷ copy_ttl_out ∷ dec_nw_ttl ∷ dec_mpls_ttl
    ∷ set_mpls_ttl ∷ set_nw_ttl ∷ set_queue ∷ set_field_eth_dst ∷ set_field_eth_src
    ∷ set_field_eth_type ∷ set_field_mpls_label ∷ set_field_mpls_tc ∷ set_field_mpls_bos
    ∷ set_field_vlan_vid ∷ set_field_vlan_pcp ∷ set_field_arp_opcode ∷ set_field_arp_sha
    ∷ set_field_arp_spa ∷ set_field_arp_tha ∷ set_field_arp_tpa ∷ set_field_nw_proto
    ∷ set_field_nw_src ∷ set_field_nw_dst ∷ set_field_ip_dscp ∷ set_field_ip_ecn
    ∷ set_field_ip_proto ∷ set_field_ipv4_src ∷ set_field_ipv4_dst ∷ set_field_ipv6_src
    ∷ set_field_ipv6_dst ∷ set_field_ipv6_flabel ∷ set_field_ipv6_nd_target ∷ set_field_ipv6_nd_sll
    ∷ set_field_ipv6_nd_tll ∷ set_field_ipv6_exthdr ∷ set_field_tcp_src ∷ set_field_tcp_dst
    ∷ set_field_udp_src ∷ set_field_udp_dst ∷ set_field_sctp_src ∷ set_field_sctp_dst
    ∷ set_field_tp_src ∷ set_field_tp_dst ∷ set_field_icmpv4_type ∷ set_field_icmpv4_code
    ∷ set_field_icmpv6_type ∷ set_field_icmpv6_code ∷ set_field_pbb_isid ∷ set_field_tunnel_id
    ∷ set_field_pppoe_code ∷ set_field_pppoe_type ∷ set_field_pppoe_sid ∷ set_field_ppp_prot
    ∷ set_field_gtp_msg_type ∷ set_field_gtp_teid ∷ group ∷ experimenter ∷ output ∷ []

get_elem?-action_code : (t : ActionType) → get_elem? action_types (action_code t) ≡ some t
unfolding action_code
get_elem?-action_code no_action = refl
get_elem?-action_code copy_ttl_in = refl
get_elem?-action_code pop_vlan = refl
get_elem?-action_code pop_mpls = refl
get_elem?-action_code pop_gtp = refl
get_elem?-action_code pop_pppoe = refl
get_elem?-action_code pop_pbb = refl
get_elem?-action_code push_pbb = refl
get_elem?-action_code push_pppoe = refl
get_elem?-action_code push_gtp = refl
get_elem?-action_code push_mpls = refl
get_elem?-action_code push_vlan = refl
get_elem?-action_code copy_ttl_out = refl
get_elem?-action_code dec_nw_ttl = refl
get_elem?-action_code dec_mpls_ttl = refl
get_elem?-action_code set_mpls_ttl = refl
get_elem?-action_code set_nw_ttl = refl
get_elem?-action_code set_queue = refl
get_elem?-action_code set_field_eth_dst = refl
get_elem?-action_code set_field_eth_src = refl
get_elem?-action_code set_field_eth_type = refl
get_elem?-action_code set_field_mpls_label = refl
get_elem?-action_code set_field_mpls_tc = refl
get_elem?-action_code set_field_mpls_bos = refl
get_elem?-action_code set_field_vlan_vid = refl
get_elem?-action_code set_field_vlan_pcp = refl
get_elem?-action_code set_field_arp_opcode = refl
get_elem?-action_code set_field_arp_sha = refl
get_elem?-action_code set_field_arp_spa = refl
get_elem?-action_code set_field_arp_tha = refl
get_elem?-action_code set_field_arp_tpa = refl
get_elem?-action_code set_field_nw_proto = refl
get_elem?-action_code set_field_nw_src = refl
get_elem?-action_code set_field_nw_dst = refl
get_elem?-action_code set_field_ip_dscp = refl
get_elem?-action_code set_field_ip_ecn = refl
get_elem?-action_code set_field_ip_proto = refl
get_elem?-action_code set_field_ipv4_src = refl
get_elem?-action_code set_field_ipv4_dst = refl
get_elem?-action_code set_field_ipv6_src = refl
get_elem?-action_code set_field_ipv6_dst = refl
get_elem?-action_code set_field_ipv6_flabel = refl
get_elem?-action_code set_field_ipv6_nd_target = refl
get_elem?-action_code set_field_ipv6_nd_sll = refl
get_elem?-action_code set_field_ipv6_nd_tll = refl
get_elem?-action_code set_field_ipv6_exthdr = refl
get_elem?-action_code set_field_tcp_src = refl
get_elem?-action_code set_field_tcp_dst = refl
get_elem?-action_code set_field_udp_src = refl
get_elem?-action_code set_field_udp_dst = refl
get_elem?-action_code set_field_sctp_src = refl
get_elem?-action_code set_field_sctp_dst = refl
get_elem?-action_code set_field_tp_src = refl
get_elem?-action_code set_field_tp_dst = refl
get_elem?-action_code set_field_icmpv4_type = refl
get_elem?-action_code set_field_icmpv4_code = refl
get_elem?-action_code set_field_icmpv6_type = refl
get_elem?-action_code set_field_icmpv6_code = refl
get_elem?-action_code set_field_pbb_isid = refl
get_elem?-action_code set_field_tunnel_id = refl
get_elem?-action_code set_field_pppoe_code = refl
get_elem?-action_code set_field_pppoe_type = refl
get_elem?-action_code set_field_pppoe_sid = refl
get_elem?-action_code set_field_ppp_prot = refl
get_elem?-action_code set_field_gtp_msg_type = refl
get_elem?-action_code set_field_gtp_teid = refl
get_elem?-action_code group = refl
get_elem?-action_code experimenter = refl
get_elem?-action_code output = refl

-- The numbers of the kinds are distinct.
pub action_code_injective : (a b : ActionType) → action_code a ≡ action_code b → a ≡ b
action_code_injective a b e =
    some_injective
      (sym (get_elem?-action_code a) ∙ ap (get_elem? action_types) e ∙ get_elem?-action_code b)

-- OF1X_AT_NUMBER.
abbrev pub at_number : ℕ
at_number = 69

-- ===== src/Match/Copy.antt =====
-- __of1x_copy_match of of1x_match.c: a match is built anew from the fields of the old one.
use rofl_fork.Base.{◌%◌, ◌^◌}
use rofl_fork.Ternary.{Raw, u8, u16, u32, u64}
use rofl_fork.Match.{Match}
use rofl_fork.Match.Types.{MatchType}
use rofl_fork.Match.Init.{
  init_arp_opcode_match, init_arp_sha_match, init_arp_spa_match, init_arp_tha_match,
  init_arp_tpa_match, init_eth_dst_match, init_eth_src_match, init_eth_type_match,
  init_gtp_msg_type_match, init_gtp_teid_match, init_icmpv4_code_match, init_icmpv4_type_match,
  init_icmpv6_code_match, init_icmpv6_type_match, init_ip4_dst_match, init_ip4_src_match,
  init_ip6_dst_match, init_ip6_exthdr_match, init_ip6_flabel_match, init_ip6_nd_sll_match,
  init_ip6_nd_target_match, init_ip6_nd_tll_match, init_ip6_src_match, init_ip_dscp_match,
  init_ip_ecn_match, init_ip_proto_match, init_metadata_match, init_mpls_bos_match,
  init_mpls_label_match, init_mpls_tc_match, init_nw_dst_match, init_nw_proto_match,
  init_nw_src_match, init_pbb_isid_match, init_port_in_match, init_port_in_phy_match,
  init_ppp_prot_match, init_pppoe_code_match, init_pppoe_session_match, init_pppoe_type_match,
  init_sctp_dst_match, init_sctp_src_match, init_tcp_dst_match, init_tcp_src_match,
  init_tp_dst_match, init_tp_src_match, init_tunnel_id_match, init_udp_dst_match,
  init_udp_src_match, init_vlan_pcp_match, init_vlan_vid_match,
}

copy_as : MatchType → Raw → Match → Match
unfolding init_port_in_match init_port_in_phy_match init_metadata_match init_eth_dst_match
    init_eth_src_match init_eth_type_match init_vlan_vid_match init_vlan_pcp_match
    init_mpls_label_match init_mpls_tc_match init_mpls_bos_match init_arp_opcode_match
    init_arp_tha_match init_arp_sha_match init_arp_tpa_match init_arp_spa_match init_nw_proto_match
    init_nw_src_match init_nw_dst_match init_ip4_src_match init_ip4_dst_match init_ip_proto_match
    init_ip_dscp_match init_ip_ecn_match init_ip6_src_match init_ip6_dst_match init_ip6_flabel_match
    init_ip6_nd_target_match init_ip6_nd_sll_match init_ip6_nd_tll_match init_ip6_exthdr_match
    init_icmpv6_type_match init_icmpv6_code_match init_tcp_src_match init_tcp_dst_match
    init_udp_src_match init_udp_dst_match init_sctp_src_match init_sctp_dst_match init_tp_src_match
    init_tp_dst_match init_icmpv4_type_match init_icmpv4_code_match init_pbb_isid_match
    init_tunnel_id_match init_pppoe_code_match init_pppoe_type_match init_pppoe_session_match
    init_ppp_prot_match init_gtp_msg_type_match init_gtp_teid_match
copy_as MatchType.in_port raw m = init_port_in_match raw (u32 m.value.value)
copy_as MatchType.in_phy_port raw m = init_port_in_phy_match raw (u32 m.value.value)
copy_as MatchType.metadata raw m = init_metadata_match raw (u64 m.value.value) (u64 m.value.mask)
copy_as MatchType.eth_dst raw m = init_eth_dst_match raw (u64 m.value.value) (u64 m.value.mask)
copy_as MatchType.eth_src raw m = init_eth_src_match raw (u64 m.value.value) (u64 m.value.mask)
copy_as MatchType.eth_type raw m = init_eth_type_match raw (u16 m.value.value)
copy_as MatchType.vlan_vid raw m = init_vlan_vid_match raw (u16 m.value.value) (u16 m.value.mask)
copy_as MatchType.vlan_pcp raw m = init_vlan_pcp_match raw (u8 m.value.value)
copy_as MatchType.mpls_label raw m = init_mpls_label_match raw (u32 m.value.value)
copy_as MatchType.mpls_tc raw m = init_mpls_tc_match raw (u8 m.value.value)
copy_as MatchType.mpls_bos raw m = init_mpls_bos_match raw (u8 m.value.value)
copy_as MatchType.arp_op raw m = init_arp_opcode_match raw (u16 m.value.value)
copy_as MatchType.arp_spa raw m = init_arp_spa_match raw (u32 m.value.value) (u32 m.value.mask)
copy_as MatchType.arp_tpa raw m = init_arp_tpa_match raw (u32 m.value.value) (u32 m.value.mask)
copy_as MatchType.arp_sha raw m = init_arp_sha_match raw (u64 m.value.value) (u64 m.value.mask)
copy_as MatchType.arp_tha raw m = init_arp_tha_match raw (u64 m.value.value) (u64 m.value.mask)
copy_as MatchType.nw_proto raw m = init_nw_proto_match raw (u8 m.value.value)
copy_as MatchType.nw_src raw m = init_nw_src_match raw (u32 m.value.value) (u32 m.value.mask)
copy_as MatchType.nw_dst raw m = init_nw_dst_match raw (u32 m.value.value) (u32 m.value.mask)
copy_as MatchType.ip_dscp raw m = init_ip_dscp_match raw (u8 m.value.value)
copy_as MatchType.ip_ecn raw m = init_ip_ecn_match raw (u8 m.value.value)
copy_as MatchType.ip_proto raw m = init_ip_proto_match raw (u8 m.value.value)
copy_as MatchType.ipv4_src raw m = init_ip4_src_match raw (u32 m.value.value) (u32 m.value.mask)
copy_as MatchType.ipv4_dst raw m = init_ip4_dst_match raw (u32 m.value.value) (u32 m.value.mask)
copy_as MatchType.ipv6_src raw m = init_ip6_src_match raw m.value.value m.value.mask
copy_as MatchType.ipv6_dst raw m = init_ip6_dst_match raw m.value.value m.value.mask
copy_as MatchType.ipv6_flabel raw m = init_ip6_flabel_match raw (u64 m.value.value)
copy_as MatchType.icmpv6_type raw m = init_icmpv6_type_match raw (u64 m.value.value % 2 ^ 8)
copy_as MatchType.icmpv6_code raw m = init_icmpv6_code_match raw (u64 m.value.value % 2 ^ 8)
copy_as MatchType.ipv6_nd_target raw m = init_ip6_nd_target_match raw m.value.value
copy_as MatchType.ipv6_nd_sll raw m = init_ip6_nd_sll_match raw (u64 m.value.value)
copy_as MatchType.ipv6_nd_tll raw m = init_ip6_nd_tll_match raw (u64 m.value.value)
copy_as MatchType.ipv6_exthdr raw m =
    init_ip6_exthdr_match raw (u64 m.value.value % 2 ^ 16) (u64 m.value.mask % 2 ^ 16)
copy_as MatchType.tp_src raw m = init_tp_src_match raw (u16 m.value.value)
copy_as MatchType.tp_dst raw m = init_tp_dst_match raw (u16 m.value.value)
copy_as MatchType.tcp_src raw m = init_tcp_src_match raw (u16 m.value.value)
copy_as MatchType.tcp_dst raw m = init_tcp_dst_match raw (u16 m.value.value)
copy_as MatchType.udp_src raw m = init_udp_src_match raw (u16 m.value.value)
copy_as MatchType.udp_dst raw m = init_udp_dst_match raw (u16 m.value.value)
copy_as MatchType.sctp_src raw m = init_sctp_src_match raw (u16 m.value.value)
copy_as MatchType.sctp_dst raw m = init_sctp_dst_match raw (u16 m.value.value)
copy_as MatchType.icmpv4_type raw m = init_icmpv4_type_match raw (u8 m.value.value)
copy_as MatchType.icmpv4_code raw m = init_icmpv4_code_match raw (u8 m.value.value)
copy_as MatchType.pbb_isid raw m = init_pbb_isid_match raw (u32 m.value.value) (u32 m.value.mask)
copy_as MatchType.tunnel_id raw m = init_tunnel_id_match raw (u64 m.value.value) (u64 m.value.mask)
copy_as MatchType.pppoe_code raw m = init_pppoe_code_match raw (u8 m.value.value)
copy_as MatchType.pppoe_type raw m = init_pppoe_type_match raw (u8 m.value.value)
copy_as MatchType.pppoe_sid raw m = init_pppoe_session_match raw (u16 m.value.value)
copy_as MatchType.ppp_prot raw m = init_ppp_prot_match raw (u16 m.value.value)
copy_as MatchType.gtp_msg_type raw m = init_gtp_msg_type_match raw (u8 m.value.value)
copy_as MatchType.gtp_teid raw m = init_gtp_teid_match raw (u32 m.value.value) (u32 m.value.mask)

unfoldable pub copy_match : Raw → Match → Match
unfolding copy_as
copy_match raw m = copy_as m.type raw m

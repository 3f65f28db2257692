-- ===== src/Match/Check.antt =====
-- The test of one match, __of1x_check_match of of1x_match.c.
use rofl_fork.Base.{ℕ, Bool, false, not, bit_and, ◌&&◌, ◌||◌, ◌==◌, if◌then◌else◌}
use rofl_fork.Ternary.{
  Utern, u16, utern_compare8, utern_compare16, utern_compare32, utern_compare64, utern_compare128,
}
use rofl_fork.Match.{Match}
use rofl_fork.Match.Types.{MatchType}
use rofl_fork.Match.Packet.{
  PacketMatches, eth_type_mpls_unicast, eth_type_mpls_multicast, eth_type_ipv4, eth_type_ipv6,
  eth_type_pppoe_discovery, eth_type_pppoe_session, eth_type_arp, eth_type_pbb, ip_proto_tcp,
  ip_proto_udp, ip_proto_sctp, ip_proto_icmpv4, ip_proto_icmpv6, ppp_proto_ip4, ppp_proto_ip6,
  udp_dst_port_gtpu, vlan_present_mask,
}

-- A bool as the integer that C makes of it.
abbrev pub of_bool : Bool → ℕ
of_bool b = if b then 1 else 0

module _ (pkt : PacketMatches) where
  is_mpls : Bool
  is_mpls = pkt.eth_type == eth_type_mpls_unicast || pkt.eth_type == eth_type_mpls_multicast

  is_arp : Bool
  is_arp = pkt.eth_type == eth_type_arp

  is_pppoe : Bool
  is_pppoe = pkt.eth_type == eth_type_pppoe_discovery || pkt.eth_type == eth_type_pppoe_session

  -- IPv4, IPv6 or both, directly or in a PPPoE session.
  carries_ipv4 : Bool
  carries_ipv4 =
      pkt.eth_type == eth_type_ipv4
      || (pkt.eth_type == eth_type_pppoe_session && pkt.ppp_proto == ppp_proto_ip4)

  carries_ipv6 : Bool
  carries_ipv6 =
      pkt.eth_type == eth_type_ipv6
      || (pkt.eth_type == eth_type_pppoe_session && pkt.ppp_proto == ppp_proto_ip6)

  ppp_carries_ip : Bool
  ppp_carries_ip =
      pkt.eth_type == eth_type_pppoe_session
      && (pkt.ppp_proto == ppp_proto_ip4 || pkt.ppp_proto == ppp_proto_ip6)

  -- IPv6 over PPP is left out of this one, as in the tests of the DSCP and ECN fields.
  has_tos : Bool
  has_tos =
      pkt.eth_type == eth_type_ipv4
      || pkt.eth_type == eth_type_ipv6
      || (pkt.eth_type == eth_type_pppoe_session && pkt.ppp_proto == ppp_proto_ip4)

  unfoldable pub check_type : Utern → MatchType → Bool
  unfolding is_mpls is_arp is_pppoe carries_ipv4 carries_ipv6 ppp_carries_ip has_tos
  check_type v MatchType.in_port = utern_compare32 v pkt.port_in
  check_type v MatchType.in_phy_port =
      if pkt.port_in == 0 then false else utern_compare32 v pkt.phy_port_in
  check_type v MatchType.metadata = utern_compare64 v pkt.metadata
  check_type v MatchType.eth_dst = utern_compare64 v pkt.eth_dst
  check_type v MatchType.eth_src = utern_compare64 v pkt.eth_src
  check_type v MatchType.eth_type = utern_compare16 v pkt.eth_type
  check_type v MatchType.vlan_vid =
      let present = not (bit_and (u16 v.value) vlan_present_mask == 0) in
      if present && not pkt.has_vlan
      then false
      else if not present && pkt.has_vlan
      then false
      else utern_compare16 v pkt.vlan_vid
  check_type v MatchType.vlan_pcp =
      if not (pkt.has_vlan) then false else utern_compare8 v pkt.vlan_pcp
  check_type v MatchType.mpls_label =
      if not (is_mpls) then false else utern_compare32 v pkt.mpls_label
  check_type v MatchType.mpls_tc = if not (is_mpls) then false else utern_compare8 v pkt.mpls_tc
  check_type v MatchType.mpls_bos =
      if not (is_mpls) then false else utern_compare8 v (of_bool pkt.mpls_bos)
  check_type v MatchType.arp_op = if not (is_arp) then false else utern_compare16 v pkt.arp_opcode
  check_type v MatchType.arp_spa = if not (is_arp) then false else utern_compare32 v pkt.arp_spa
  check_type v MatchType.arp_tpa = if not (is_arp) then false else utern_compare32 v pkt.arp_tpa
  check_type v MatchType.arp_sha = if not (is_arp) then false else utern_compare64 v pkt.arp_sha
  check_type v MatchType.arp_tha = if not (is_arp) then false else utern_compare64 v pkt.arp_tha
  check_type v MatchType.nw_proto =
      if not
        (pkt.eth_type == eth_type_ipv4 || pkt.eth_type == eth_type_ipv6 || is_arp || ppp_carries_ip)
      then false
      else if is_arp
      then utern_compare8 v pkt.arp_opcode
      else utern_compare8 v pkt.ip_proto
  check_type v MatchType.nw_src =
      if carries_ipv4
      then utern_compare32 v pkt.ipv4_src
      else if is_arp
      then utern_compare32 v pkt.arp_spa
      else false
  check_type v MatchType.nw_dst =
      if carries_ipv4
      then utern_compare32 v pkt.ipv4_dst
      else if is_arp
      then utern_compare32 v pkt.arp_tpa
      else false
  check_type v MatchType.ip_dscp = if not (has_tos) then false else utern_compare8 v pkt.ip_dscp
  check_type v MatchType.ip_ecn = if not (has_tos) then false else utern_compare8 v pkt.ip_ecn
  check_type v MatchType.ip_proto =
      if not (pkt.eth_type == eth_type_ipv4 || pkt.eth_type == eth_type_ipv6 || ppp_carries_ip)
      then false
      else utern_compare8 v pkt.ip_proto
  check_type v MatchType.ipv4_src =
      if not (carries_ipv4) then false else utern_compare32 v pkt.ipv4_src
  check_type v MatchType.ipv4_dst =
      if not (carries_ipv4) then false else utern_compare32 v pkt.ipv4_dst
  check_type v MatchType.ipv6_src =
      if not (carries_ipv6) then false else utern_compare128 v pkt.ipv6_src
  check_type v MatchType.ipv6_dst =
      if not (carries_ipv6) then false else utern_compare128 v pkt.ipv6_dst
  check_type v MatchType.ipv6_flabel =
      if not (carries_ipv6) then false else utern_compare64 v pkt.ipv6_flabel
  check_type v MatchType.icmpv6_type =
      if not (pkt.ip_proto == ip_proto_icmpv6) then false else utern_compare64 v pkt.icmpv6_type
  check_type v MatchType.icmpv6_code =
      if not (pkt.ip_proto == ip_proto_icmpv6) then false else utern_compare64 v pkt.icmpv6_code
  check_type v MatchType.ipv6_nd_target =
      if not (pkt.ip_proto == ip_proto_icmpv6) then false else utern_compare128 v pkt.ipv6_nd_target
  check_type v MatchType.ipv6_nd_sll =
      if not (pkt.ip_proto == ip_proto_icmpv6 && not (pkt.ipv6_nd_sll == 0))
      then false
      else utern_compare64 v pkt.ipv6_nd_sll
  check_type v MatchType.ipv6_nd_tll =
      if not (pkt.ip_proto == ip_proto_icmpv6 && not (pkt.ipv6_nd_tll == 0))
      then false
      else utern_compare64 v pkt.ipv6_nd_tll
  check_type v MatchType.ipv6_exthdr = false
  check_type v MatchType.tp_src =
      if pkt.ip_proto == ip_proto_tcp
      then utern_compare16 v pkt.tcp_src
      else if pkt.ip_proto == ip_proto_udp
      then utern_compare16 v pkt.udp_src
      else if pkt.ip_proto == ip_proto_icmpv4
      then utern_compare16 v pkt.icmpv4_type
      else false
  check_type v MatchType.tp_dst =
      if pkt.ip_proto == ip_proto_tcp
      then utern_compare16 v pkt.tcp_dst
      else if pkt.ip_proto == ip_proto_udp
      then utern_compare16 v pkt.udp_dst
      else if pkt.ip_proto == ip_proto_icmpv4
      then utern_compare16 v pkt.icmpv4_code
      else false
  check_type v MatchType.tcp_src =
      if not (pkt.ip_proto == ip_proto_tcp) then false else utern_compare16 v pkt.tcp_src
  check_type v MatchType.tcp_dst =
      if not (pkt.ip_proto == ip_proto_tcp) then false else utern_compare16 v pkt.tcp_dst
  check_type v MatchType.udp_src =
      if not (pkt.ip_proto == ip_proto_udp) then false else utern_compare16 v pkt.udp_src
  check_type v MatchType.udp_dst =
      if not (pkt.ip_proto == ip_proto_udp) then false else utern_compare16 v pkt.udp_dst
  check_type v MatchType.sctp_src =
      if not (pkt.ip_proto == ip_proto_sctp) then false else utern_compare16 v pkt.tcp_src
  check_type v MatchType.sctp_dst =
      if not (pkt.ip_proto == ip_proto_sctp) then false else utern_compare16 v pkt.tcp_dst
  check_type v MatchType.icmpv4_type =
      if not (pkt.ip_proto == ip_proto_icmpv4) then false else utern_compare8 v pkt.icmpv4_type
  check_type v MatchType.icmpv4_code =
      if not (pkt.ip_proto == ip_proto_icmpv4) then false else utern_compare8 v pkt.icmpv4_code
  check_type v MatchType.pbb_isid =
      if pkt.eth_type == eth_type_pbb then false else utern_compare32 v pkt.pbb_isid
  check_type v MatchType.tunnel_id = utern_compare64 v pkt.tunnel_id
  check_type v MatchType.pppoe_code =
      if not (is_pppoe) then false else utern_compare8 v pkt.pppoe_code
  check_type v MatchType.pppoe_type =
      if not (is_pppoe) then false else utern_compare8 v pkt.pppoe_type
  check_type v MatchType.pppoe_sid =
      if not (is_pppoe) then false else utern_compare16 v pkt.pppoe_sid
  check_type v MatchType.ppp_prot =
      if not (pkt.eth_type == eth_type_pppoe_session)
      then false
      else utern_compare16 v pkt.ppp_proto
  check_type v MatchType.gtp_msg_type =
      if not (pkt.ip_proto == ip_proto_udp || pkt.udp_dst == udp_dst_port_gtpu)
      then false
      else utern_compare8 v pkt.gtp_msg_type
  check_type v MatchType.gtp_teid =
      if not (pkt.ip_proto == ip_proto_udp || pkt.udp_dst == udp_dst_port_gtpu)
      then false
      else utern_compare32 v pkt.gtp_teid

  unfoldable pub check_match : Match → Bool
  unfolding check_type
  check_match m = check_type m.value m.type

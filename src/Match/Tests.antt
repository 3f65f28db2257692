-- ===== src/Match/Tests.antt =====
-- A packet for tests of which only the port is known.
use rofl_fork.Base.{ℕ, false}
use rofl_fork.Match.Packet.{PacketMatches}

abbrev pub packet_from : ℕ → PacketMatches
packet_from port = record {
  pkt_size_bytes = 0;
  port_in = port;
  phy_port_in = 0;
  metadata = 0;
  eth_dst = 0;
  eth_src = 0;
  eth_type = 0;
  has_vlan = false;
  vlan_vid = 0;
  vlan_pcp = 0;
  arp_opcode = 0;
  arp_sha = 0;
  arp_spa = 0;
  arp_tha = 0;
  arp_tpa = 0;
  ip_proto = 0;
  ip_dscp = 0;
  ip_ecn = 0;
  ipv4_src = 0;
  ipv4_dst = 0;
  tcp_src = 0;
  tcp_dst = 0;
  udp_src = 0;
  udp_dst = 0;
  sctp_src = 0;
  sctp_dst = 0;
  icmpv4_type = 0;
  icmpv4_code = 0;
  mpls_label = 0;
  mpls_tc = 0;
  mpls_bos = false;
  ipv6_src = record { hi = 0; lo = 0 };
  ipv6_dst = record { hi = 0; lo = 0 };
  ipv6_flabel = 0;
  ipv6_nd_target = record { hi = 0; lo = 0 };
  ipv6_nd_sll = 0;
  ipv6_nd_tll = 0;
  ipv6_exthdr = 0;
  icmpv6_code = 0;
  icmpv6_type = 0;
  pbb_isid = 0;
  tunnel_id = 0;
  pppoe_code = 0;
  pppoe_type = 0;
  pppoe_sid = 0;
  ppp_proto = 0;
  gtp_msg_type = 0;
  gtp_teid = 0;
}

-- ===== src/Match/Packet.antt =====
-- of1x_packet_matches.h: the header fields of a packet; and the protocol numbers that of1x_match.c
-- compares them with.
use rofl_fork.Base.{ℕ, Bool}
use rofl_fork.Ternary.{Wrap}

-- of1x_packet_matches_t of of1x_packet_matches.h.
pub record PacketMatches : Type 0 where
  pub pkt_size_bytes : ℕ
  pub port_in : ℕ
  pub phy_port_in : ℕ
  pub metadata : ℕ
  pub eth_dst : ℕ
  pub eth_src : ℕ
  pub eth_type : ℕ
  pub has_vlan : Bool
  pub vlan_vid : ℕ
  pub vlan_pcp : ℕ
  pub arp_opcode : ℕ
  pub arp_sha : ℕ
  pub arp_spa : ℕ
  pub arp_tha : ℕ
  pub arp_tpa : ℕ
  pub ip_proto : ℕ
  pub ip_dscp : ℕ
  pub ip_ecn : ℕ
  pub ipv4_src : ℕ
  pub ipv4_dst : ℕ
  pub tcp_src : ℕ
  pub tcp_dst : ℕ
  pub udp_src : ℕ
  pub udp_dst : ℕ
  pub sctp_src : ℕ
  pub sctp_dst : ℕ
  pub icmpv4_type : ℕ
  pub icmpv4_code : ℕ
  pub mpls_label : ℕ
  pub mpls_tc : ℕ
  pub mpls_bos : Bool
  pub ipv6_src : Wrap
  pub ipv6_dst : Wrap
  pub ipv6_flabel : ℕ
  pub ipv6_nd_target : Wrap
  pub ipv6_nd_sll : ℕ
  pub ipv6_nd_tll : ℕ
  pub ipv6_exthdr : ℕ
  pub icmpv6_code : ℕ
  pub icmpv6_type : ℕ
  pub pbb_isid : ℕ
  pub tunnel_id : ℕ
  pub pppoe_code : ℕ
  pub pppoe_type : ℕ
  pub pppoe_sid : ℕ
  pub ppp_proto : ℕ
  pub gtp_msg_type : ℕ
  pub gtp_teid : ℕ

abbrev pub eth_type_mpls_unicast : ℕ
eth_type_mpls_unicast = 0x8847

abbrev pub eth_type_mpls_multicast : ℕ
eth_type_mpls_multicast = 0x8848

abbrev pub eth_type_ipv4 : ℕ
eth_type_ipv4 = 0x0800

abbrev pub eth_type_ipv6 : ℕ
eth_type_ipv6 = 0x86dd

abbrev pub eth_type_pppoe_discovery : ℕ
eth_type_pppoe_discovery = 0x8863

abbrev pub eth_type_pppoe_session : ℕ
eth_type_pppoe_session = 0x8864

abbrev pub eth_type_arp : ℕ
eth_type_arp = 0x0806

abbrev pub eth_type_pbb : ℕ
eth_type_pbb = 0x88e7

abbrev pub ip_proto_tcp : ℕ
ip_proto_tcp = 6

abbrev pub ip_proto_udp : ℕ
ip_proto_udp = 17

abbrev pub ip_proto_sctp : ℕ
ip_proto_sctp = 132

abbrev pub ip_proto_icmpv4 : ℕ
ip_proto_icmpv4 = 1

abbrev pub ip_proto_icmpv6 : ℕ
ip_proto_icmpv6 = 58

abbrev pub ppp_proto_ip4 : ℕ
ppp_proto_ip4 = 0x0021

abbrev pub ppp_proto_ip6 : ℕ
ppp_proto_ip6 = 0x0057

abbrev pub udp_dst_port_gtpu : ℕ
udp_dst_port_gtpu = 2152

abbrev pub vlan_present_mask : ℕ
vlan_present_mask = 0x1000

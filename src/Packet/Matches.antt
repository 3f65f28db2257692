-- ===== src/Packet/Matches.antt =====
-- of1x_packet_matches.c: the header fields of a packet, as the platform reports them.
use rofl_fork.Base.{ℕ, if◌then◌else◌}
use rofl_fork.Match.Packet.{PacketMatches}
use rofl_fork.Packet.{Packet, Platform, Field, LongField}
use rofl_fork.Ternary.{Wrap}

module _ {D : Type 0} (platform : Platform D) where
  unfoldable pub update_packet_matches : Packet D → Packet D
  update_packet_matches pkt =
      let get = λ (f : Field). platform.get f pkt.buffer in
      let get_long = λ (f : LongField). platform.get_long f pkt.buffer in
      let has_vlan = platform.has_vlan pkt.buffer in
      record pkt {
        matches = record pkt.matches {
          pkt_size_bytes = get Field.size_bytes;
          has_vlan = has_vlan;
          mpls_bos = platform.get_mpls_bos pkt.buffer;
          port_in = get Field.port_in;
          phy_port_in = get Field.phy_port_in;
          eth_dst = get Field.eth_dst;
          eth_src = get Field.eth_src;
          eth_type = get Field.eth_type;
          vlan_vid = if has_vlan then get Field.vlan_vid else 0;
          vlan_pcp = if has_vlan then get Field.vlan_pcp else 0;
          ip_proto = get Field.ip_proto;
          ip_ecn = get Field.ip_ecn;
          ip_dscp = get Field.ip_dscp;
          arp_opcode = get Field.arp_opcode;
          arp_sha = get Field.arp_sha;
          arp_spa = get Field.arp_spa;
          arp_tha = get Field.arp_tha;
          arp_tpa = get Field.arp_tpa;
          ipv4_src = get Field.ipv4_src;
          ipv4_dst = get Field.ipv4_dst;
          tcp_dst = get Field.tcp_dst;
          tcp_src = get Field.tcp_src;
          udp_dst = get Field.udp_dst;
          udp_src = get Field.udp_src;
          sctp_dst = get Field.sctp_dst;
          sctp_src = get Field.sctp_src;
          icmpv4_type = get Field.icmpv4_type;
          icmpv4_code = get Field.icmpv4_code;
          mpls_label = get Field.mpls_label;
          mpls_tc = get Field.mpls_tc;
          pppoe_code = get Field.pppoe_code;
          pppoe_type = get Field.pppoe_type;
          pppoe_sid = get Field.pppoe_sid;
          ppp_proto = get Field.ppp_proto;
          ipv6_flabel = get Field.ipv6_flabel;
          ipv6_nd_sll = get Field.ipv6_nd_sll;
          ipv6_nd_tll = get Field.ipv6_nd_tll;
          ipv6_exthdr = get Field.ipv6_exthdr;
          icmpv6_type = get Field.icmpv6_type;
          icmpv6_code = get Field.icmpv6_code;
          pbb_isid = get Field.pbb_isid;
          tunnel_id = get Field.tunnel_id;
          gtp_msg_type = get Field.gtp_msg_type;
          gtp_teid = get Field.gtp_teid;
          ipv6_src = get_long LongField.ipv6_src;
          ipv6_dst = get_long LongField.ipv6_dst;
          ipv6_nd_target = get_long LongField.ipv6_nd_target;
        };
      }

  unfoldable pub init_packet_matches : Packet D → Packet D
  unfolding update_packet_matches
  init_packet_matches pkt =
      update_packet_matches (record pkt { matches = record pkt.matches { metadata = 0 } })

-- The assignment to the member of a field.
unfoldable pub assign : Field → ℕ → PacketMatches → PacketMatches
assign Field.size_bytes n m = record m { pkt_size_bytes = n }
assign Field.port_in n m = record m { port_in = n }
assign Field.phy_port_in n m = record m { phy_port_in = n }
assign Field.eth_dst n m = record m { eth_dst = n }
assign Field.eth_src n m = record m { eth_src = n }
assign Field.eth_type n m = record m { eth_type = n }
assign Field.vlan_vid n m = record m { vlan_vid = n }
assign Field.vlan_pcp n m = record m { vlan_pcp = n }
assign Field.ip_proto n m = record m { ip_proto = n }
assign Field.ip_ecn n m = record m { ip_ecn = n }
assign Field.ip_dscp n m = record m { ip_dscp = n }
assign Field.arp_opcode n m = record m { arp_opcode = n }
assign Field.arp_sha n m = record m { arp_sha = n }
assign Field.arp_spa n m = record m { arp_spa = n }
assign Field.arp_tha n m = record m { arp_tha = n }
assign Field.arp_tpa n m = record m { arp_tpa = n }
assign Field.ipv4_src n m = record m { ipv4_src = n }
assign Field.ipv4_dst n m = record m { ipv4_dst = n }
assign Field.tcp_dst n m = record m { tcp_dst = n }
assign Field.tcp_src n m = record m { tcp_src = n }
assign Field.udp_dst n m = record m { udp_dst = n }
assign Field.udp_src n m = record m { udp_src = n }
assign Field.sctp_dst n m = record m { sctp_dst = n }
assign Field.sctp_src n m = record m { sctp_src = n }
assign Field.icmpv4_type n m = record m { icmpv4_type = n }
assign Field.icmpv4_code n m = record m { icmpv4_code = n }
assign Field.mpls_label n m = record m { mpls_label = n }
assign Field.mpls_tc n m = record m { mpls_tc = n }
assign Field.pppoe_code n m = record m { pppoe_code = n }
assign Field.pppoe_type n m = record m { pppoe_type = n }
assign Field.pppoe_sid n m = record m { pppoe_sid = n }
assign Field.ppp_proto n m = record m { ppp_proto = n }
assign Field.ipv6_flabel n m = record m { ipv6_flabel = n }
assign Field.ipv6_nd_sll n m = record m { ipv6_nd_sll = n }
assign Field.ipv6_nd_tll n m = record m { ipv6_nd_tll = n }
assign Field.ipv6_exthdr n m = record m { ipv6_exthdr = n }
assign Field.icmpv6_type n m = record m { icmpv6_type = n }
assign Field.icmpv6_code n m = record m { icmpv6_code = n }
assign Field.pbb_isid n m = record m { pbb_isid = n }
assign Field.tunnel_id n m = record m { tunnel_id = n }
assign Field.gtp_msg_type n m = record m { gtp_msg_type = n }
assign Field.gtp_teid n m = record m { gtp_teid = n }

unfoldable pub assign_long : LongField → Wrap → PacketMatches → PacketMatches
assign_long LongField.ipv6_src n m = record m { ipv6_src = n }
assign_long LongField.ipv6_dst n m = record m { ipv6_dst = n }
assign_long LongField.ipv6_nd_target n m = record m { ipv6_nd_target = n }

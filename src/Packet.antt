-- ===== src/Packet.antt =====
-- platform/packet.h: what the platform does with a packet. It is a parameter of the model, since
-- each platform brings its own; `D` is the packet data that it keeps. A platform_packet_set function
-- of a header field is the edit `set_field` of the field, and a get function is `get` of it.
pub mod Matches
use rofl_fork.Action.{WriteActions}
use rofl_fork.Base.{ℕ, Bool, List, Option}
use rofl_fork.Match.Packet.{PacketMatches}
use rofl_fork.Ternary.{Wrap}

-- The fields that are read as numbers.
pub data Field : Type 0 where
  size_bytes port_in phy_port_in eth_dst eth_src eth_type vlan_vid vlan_pcp ip_proto : Field
  ip_ecn ip_dscp arp_opcode arp_sha arp_spa arp_tha arp_tpa ipv4_src ipv4_dst tcp_dst : Field
  tcp_src udp_dst udp_src sctp_dst sctp_src icmpv4_type icmpv4_code mpls_label mpls_tc : Field
  pppoe_code pppoe_type pppoe_sid ppp_proto ipv6_flabel ipv6_nd_sll ipv6_nd_tll : Field
  ipv6_exthdr icmpv6_type icmpv6_code pbb_isid tunnel_id gtp_msg_type gtp_teid : Field

-- The fields of 128 bits.
pub data LongField : Type 0 where
  ipv6_src ipv6_dst ipv6_nd_target : LongField

-- The calls that change a packet, without their prefix platform_packet_.
pub data Edit : Type 0 where
  set_field : Field → ℕ → Edit
  set_long_field : LongField → Wrap → Edit
  set_mpls_bos : Bool → Edit
  set_queue set_mpls_ttl set_nw_ttl : ℕ → Edit
  copy_ttl_in copy_ttl_out dec_nw_ttl dec_mpls_ttl pop_vlan pop_gtp push_gtp : Edit
  pop_mpls pop_pppoe pop_pbb push_pppoe push_mpls push_vlan push_pbb : ℕ → Edit

-- datapacket_t: the platform's data, the header fields, and the set of actions to write.
pub record Packet (D : Type 0) : Type 0 where
  pub buffer : D
  pub matches : PacketMatches
  pub write_actions : WriteActions

-- Where a packet is sent: a port at an address, or one of the meta ports.
pub data OutPort : Type 0 where
  port : ℕ → OutPort
  flood_meta_port all_meta_port in_port_meta_port : OutPort

-- of_packet_in_reason_t.
pub data PacketInReason : Type 0 where
  no_match action : PacketInReason

-- What is done with packets: the calls that create or release one, and the updates of the counters of
-- a bucket and of a group, each with the address of the group and the size of the packet.
pub data PacketEvent (D : Type 0) : Type 0 where
  replicated dropped : Packet D → PacketEvent D
  sent : Packet D → OutPort → PacketEvent D
  packet_in : ℕ → Packet D → PacketInReason → PacketEvent D
  bucket_update : ℕ → ℕ → ℕ → PacketEvent D
  group_update : ℕ → ℕ → PacketEvent D

-- The replica of a packet, or none without memory, may depend on all that was done before.
pub record Platform (D : Type 0) : Type 0 where
  pub get : Field → D → ℕ
  pub get_long : LongField → D → Wrap
  pub has_vlan : D → Bool
  pub get_mpls_bos : D → Bool
  pub edit : Edit → D → D
  pub replicate : List (PacketEvent D) → Packet D → Option (Packet D)

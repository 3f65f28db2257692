-- ===== src/Process/Header.antt =====
-- of1x_action.c: the cases of __of1x_process_packet_action that read and write a packet's header. Each
-- calls the platform, and then updates the header fields that the pipeline keeps.
use rofl_fork.Action.Types.{ActionType}
use rofl_fork.Base.{ℕ, Bool, true, ◌&&◌, not, Option, none, some, ◌==◌, if◌then◌else◌}
use rofl_fork.Match.{of_version_10}
use rofl_fork.Match.Packet.{
  eth_type_ipv4, eth_type_arp, ip_proto_tcp, ip_proto_udp, ip_proto_icmpv4,
}
use rofl_fork.Packet.{
  Packet, Platform, Field, LongField, Edit, set_field, set_long_field, set_mpls_bos, set_queue,
  set_mpls_ttl, set_nw_ttl,
}
use rofl_fork.Packet.Matches.{assign, assign_long}
use rofl_fork.Ternary.{Wrap, u8, u16, u32, u64}

-- OF1X_ETH_TYPE_8021Q.
abbrev pub eth_type_8021q : ℕ
eth_type_8021q = 0x8100

-- The cases that set one field, with the field and the value that they set.
unfoldable pub plain_field : ActionType → Wrap → Option (Field × ℕ)
plain_field ActionType.set_field_eth_dst w = some (Field.eth_dst, u64 w)
plain_field ActionType.set_field_eth_src w = some (Field.eth_src, u64 w)
plain_field ActionType.set_field_eth_type w = some (Field.eth_type, u16 w)
plain_field ActionType.set_field_arp_opcode w = some (Field.arp_opcode, u16 w)
plain_field ActionType.set_field_arp_sha w = some (Field.arp_sha, u64 w)
plain_field ActionType.set_field_arp_spa w = some (Field.arp_spa, u32 w)
plain_field ActionType.set_field_arp_tha w = some (Field.arp_tha, u64 w)
plain_field ActionType.set_field_arp_tpa w = some (Field.arp_tpa, u32 w)
plain_field ActionType.set_field_ip_dscp w = some (Field.ip_dscp, u8 w)
plain_field ActionType.set_field_ip_ecn w = some (Field.ip_ecn, u8 w)
plain_field ActionType.set_field_ip_proto w = some (Field.ip_proto, u8 w)
plain_field ActionType.set_field_ipv4_src w = some (Field.ipv4_src, u32 w)
plain_field ActionType.set_field_ipv4_dst w = some (Field.ipv4_dst, u32 w)
plain_field ActionType.set_field_tcp_src w = some (Field.tcp_src, u16 w)
plain_field ActionType.set_field_tcp_dst w = some (Field.tcp_dst, u16 w)
plain_field ActionType.set_field_udp_src w = some (Field.udp_src, u16 w)
plain_field ActionType.set_field_udp_dst w = some (Field.udp_dst, u16 w)
plain_field ActionType.set_field_sctp_src w = some (Field.sctp_src, u16 w)
plain_field ActionType.set_field_sctp_dst w = some (Field.sctp_dst, u16 w)
plain_field ActionType.set_field_icmpv4_type w = some (Field.icmpv4_type, u8 w)
plain_field ActionType.set_field_icmpv4_code w = some (Field.icmpv4_code, u8 w)
plain_field ActionType.set_field_mpls_label w = some (Field.mpls_label, u32 w)
plain_field ActionType.set_field_mpls_tc w = some (Field.mpls_tc, u8 w)
plain_field ActionType.set_field_pppoe_code w = some (Field.pppoe_code, u8 w)
plain_field ActionType.set_field_pppoe_type w = some (Field.pppoe_type, u8 w)
plain_field ActionType.set_field_pppoe_sid w = some (Field.pppoe_sid, u16 w)
plain_field ActionType.set_field_ppp_prot w = some (Field.ppp_proto, u16 w)
plain_field ActionType.set_field_ipv6_flabel w = some (Field.ipv6_flabel, u64 w)
plain_field ActionType.set_field_ipv6_nd_sll w = some (Field.ipv6_nd_sll, u64 w)
plain_field ActionType.set_field_ipv6_nd_tll w = some (Field.ipv6_nd_tll, u64 w)
plain_field ActionType.set_field_ipv6_exthdr w = some (Field.ipv6_exthdr, u16 w)
plain_field ActionType.set_field_icmpv6_type w = some (Field.icmpv6_type, u8 w)
plain_field ActionType.set_field_icmpv6_code w = some (Field.icmpv6_code, u8 w)
plain_field ActionType.set_field_gtp_msg_type w = some (Field.gtp_msg_type, u8 w)
plain_field ActionType.set_field_gtp_teid w = some (Field.gtp_teid, u32 w)
plain_field ActionType.set_field_pbb_isid w = some (Field.pbb_isid, u32 w)
plain_field ActionType.set_field_tunnel_id w = some (Field.tunnel_id, u64 w)
plain_field type w = none

module _ {D : Type 0} (platform : Platform D) where
  -- A call of the platform that changes the packet.
  abbrev pub call : Edit → Packet D → Packet D
  call e pkt = record pkt { buffer = platform.edit e pkt.buffer }

  abbrev pub set : Field → ℕ → Packet D → Packet D
  set f n pkt = record (call (set_field f n) pkt) { matches = assign f n pkt.matches }

  abbrev pub set_long : LongField → Wrap → Packet D → Packet D
  set_long f w pkt = record (call (set_long_field f w) pkt) {
    matches = assign_long f w pkt.matches;
  }

  abbrev pub update_size : Packet D → Packet D
  update_size pkt = record pkt {
    matches = record pkt.matches { pkt_size_bytes = platform.get Field.size_bytes pkt.buffer };
  }

  abbrev pub update_type : Packet D → Packet D
  update_type pkt = update_size (record pkt {
    matches = record pkt.matches { eth_type = platform.get Field.eth_type pkt.buffer };
  })

  abbrev pub update_vlan : Bool → Packet D → Packet D
  update_vlan has_vlan pkt = record pkt {
    matches = record pkt.matches {
      has_vlan = has_vlan;
      vlan_vid = if has_vlan then platform.get Field.vlan_vid pkt.buffer else 0;
      vlan_pcp = if has_vlan then platform.get Field.vlan_pcp pkt.buffer else 0;
    };
  }

  -- What a switch of version 1.0 does first for a packet without a VLAN tag; `other` is the field of
  -- the tag that is cleared.
  unfoldable pub push_vlan_first : ℕ → Field → ℕ → Packet D → Packet D
  unfolding assign
  push_vlan_first of_ver other tag pkt =
      let pushed =
        call (set_field other 0)
          (call (set_field Field.eth_type eth_type_8021q) (call (Edit.push_vlan tag) pkt)) in
      let matches = record (assign other 0 pkt.matches) {
        has_vlan = true;
        eth_type = eth_type_8021q;
      } in
      if of_ver == of_version_10 && not pkt.matches.has_vlan
      then update_size (record pushed { matches = matches })
      else pkt

  -- The fields of version 1.0, which mean another field for each protocol.
  unfoldable pub set_by_eth_type : Field → Field → ℕ → Packet D → Packet D
  unfolding assign
  set_by_eth_type ipv4 arp n pkt =
      if pkt.matches.eth_type == eth_type_ipv4
      then set ipv4 n pkt
      else if pkt.matches.eth_type == eth_type_arp
      then set arp n pkt
      else pkt

  unfoldable pub set_by_ip_proto : Field → Field → Field → Wrap → Packet D → Packet D
  unfolding assign
  set_by_ip_proto tcp udp icmpv4 w pkt =
      if pkt.matches.ip_proto == ip_proto_tcp
      then set tcp (u16 w) pkt
      else if pkt.matches.ip_proto == ip_proto_udp
      then set udp (u16 w) pkt
      else if pkt.matches.ip_proto == ip_proto_icmpv4
      then set icmpv4 (u8 w) pkt
      else pkt

  -- The cases that do more than to set one field.
  unfoldable pub process_other : ℕ → ActionType → Wrap → Packet D → Packet D
  unfolding assign assign_long push_vlan_first set_by_eth_type set_by_ip_proto
  process_other v ActionType.copy_ttl_in w pkt = call Edit.copy_ttl_in pkt
  process_other v ActionType.copy_ttl_out w pkt = call Edit.copy_ttl_out pkt
  process_other v ActionType.dec_nw_ttl w pkt = call Edit.dec_nw_ttl pkt
  process_other v ActionType.dec_mpls_ttl w pkt = call Edit.dec_mpls_ttl pkt
  process_other v ActionType.set_mpls_ttl w pkt = call (set_mpls_ttl (u8 w)) pkt
  process_other v ActionType.set_nw_ttl w pkt = call (set_nw_ttl (u8 w)) pkt
  process_other v ActionType.set_queue w pkt = call (set_queue (u32 w)) pkt
  process_other v ActionType.pop_vlan w pkt =
      let q = call Edit.pop_vlan pkt in update_type (update_vlan (platform.has_vlan q.buffer) q)
  process_other v ActionType.push_vlan w pkt =
      update_type (update_vlan true (call (Edit.push_vlan (u16 w)) pkt))
  process_other v ActionType.pop_mpls w pkt = update_type (call (Edit.pop_mpls (u16 w)) pkt)
  process_other v ActionType.push_mpls w pkt = update_type (call (Edit.push_mpls (u16 w)) pkt)
  process_other v ActionType.pop_pppoe w pkt = update_type (call (Edit.pop_pppoe (u16 w)) pkt)
  process_other v ActionType.push_pppoe w pkt = update_type (call (Edit.push_pppoe (u16 w)) pkt)
  process_other v ActionType.pop_pbb w pkt = update_type (call (Edit.pop_pbb (u16 w)) pkt)
  process_other v ActionType.push_pbb w pkt = update_type (call (Edit.push_pbb (u16 w)) pkt)
  process_other v ActionType.pop_gtp w pkt = update_size (call Edit.pop_gtp pkt)
  process_other v ActionType.push_gtp w pkt = update_size (call Edit.push_gtp pkt)
  process_other v ActionType.set_field_vlan_vid w pkt =
      set Field.vlan_vid (u16 w) (push_vlan_first v Field.vlan_pcp (u16 w) pkt)
  process_other v ActionType.set_field_vlan_pcp w pkt =
      set Field.vlan_pcp (u8 w) (push_vlan_first v Field.vlan_vid (u16 w) pkt)
  process_other v ActionType.set_field_nw_proto w pkt =
      set_by_eth_type Field.ip_proto Field.arp_opcode (u8 w) pkt
  process_other v ActionType.set_field_nw_src w pkt =
      set_by_eth_type Field.ipv4_src Field.arp_spa (u32 w) pkt
  process_other v ActionType.set_field_nw_dst w pkt =
      set_by_eth_type Field.ipv4_dst Field.arp_tpa (u32 w) pkt
  process_other v ActionType.set_field_tp_src w pkt =
      set_by_ip_proto Field.tcp_src Field.udp_src Field.icmpv4_type w pkt
  process_other v ActionType.set_field_tp_dst w pkt =
      set_by_ip_proto Field.tcp_dst Field.udp_dst Field.icmpv4_code w pkt
  process_other v ActionType.set_field_mpls_bos w pkt =
      let q = call (set_mpls_bos (not (u8 w == 0))) pkt in
      record q { matches = record q.matches { mpls_bos = not (u8 w == 0) } }
  process_other v ActionType.set_field_ipv6_src w pkt = set_long LongField.ipv6_src w pkt
  process_other v ActionType.set_field_ipv6_dst w pkt = set_long LongField.ipv6_dst w pkt
  process_other v ActionType.set_field_ipv6_nd_target w pkt =
      set_long LongField.ipv6_nd_target w pkt
  process_other v type w pkt = pkt

  -- A case that reads or writes the header, in a switch of the version.
  unfoldable pub process_header : ℕ → ActionType → Wrap → Packet D → Packet D
  unfolding plain_field assign process_other
  process_header v type w pkt = elim (plain_field type w) [
    | some (f, n) ↦ set f n pkt
    | none ↦ process_other v type w pkt
  ]

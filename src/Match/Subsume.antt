-- ===== src/Match/Subsume.antt =====
-- What __of1x_is_submatch means for packets: the packets that meet the narrow match meet the wide one.
use rofl_fork.Base.{◌≡◌, ◌≢◌, refl, true, arith, ℕ, ◌%◌, ◌^◌}
use rofl_fork.Ternary.{
  Utern, UternType, Wrap, utern8_t, utern16_t, utern32_t, utern64_t, utern128_t, utern_is_contained,
  word_contained, utern_compare8, utern_compare16, utern_compare32, utern_compare64,
  utern_compare128, u8, u16, u32, u64, low64,
}
use rofl_fork.Ternary.Contained.{word_contained_sound}
use rofl_fork.Match.{Match, is_submatch}
use rofl_fork.Match.Check.{check_match, check_type, of_bool}
use rofl_fork.Match.Packet.{PacketMatches}
use rofl_fork.Match.Types.{MatchType, match_code, match_code_injective}

wider8 :
    (e t : Utern)
    → e.type ≡ utern8_t
    → utern_is_contained e t ≡ true
    → (x : ℕ) → utern_compare8 t x ≡ true
    → utern_compare8 e x ≡ true
unfolding utern_is_contained utern_compare8 word_contained
wider8 e t p h x c =
    let w : word_contained (u8 e.value) (u8 e.mask) (u8 t.value) (u8 t.mask) ≡ true =
      ground arith in
    word_contained_sound (u8 e.value) (u8 e.mask) (u8 t.value) (u8 t.mask) (x % 2 ^ 8) w c

wider16 :
    (e t : Utern)
    → e.type ≡ utern16_t
    → utern_is_contained e t ≡ true
    → (x : ℕ) → utern_compare16 t x ≡ true
    → utern_compare16 e x ≡ true
unfolding utern_is_contained utern_compare16 word_contained
wider16 e t p h x c =
    let w : word_contained (u16 e.value) (u16 e.mask) (u16 t.value) (u16 t.mask) ≡ true =
      ground arith in
    word_contained_sound (u16 e.value) (u16 e.mask) (u16 t.value) (u16 t.mask) (x % 2 ^ 16) w c

wider32 :
    (e t : Utern)
    → e.type ≡ utern32_t
    → utern_is_contained e t ≡ true
    → (x : ℕ) → utern_compare32 t x ≡ true
    → utern_compare32 e x ≡ true
unfolding utern_is_contained utern_compare32 word_contained
wider32 e t p h x c =
    let w : word_contained (u32 e.value) (u32 e.mask) (u32 t.value) (u32 t.mask) ≡ true =
      ground arith in
    word_contained_sound (u32 e.value) (u32 e.mask) (u32 t.value) (u32 t.mask) (x % 2 ^ 32) w c

wider64 :
    (e t : Utern)
    → e.type ≡ utern64_t
    → utern_is_contained e t ≡ true
    → (x : ℕ) → utern_compare64 t x ≡ true
    → utern_compare64 e x ≡ true
unfolding utern_is_contained utern_compare64 word_contained
wider64 e t p h x c =
    let w : word_contained (u64 e.value) (u64 e.mask) (u64 t.value) (u64 t.mask) ≡ true =
      ground arith in
    word_contained_sound (u64 e.value) (u64 e.mask) (u64 t.value) (u64 t.mask) (x % 2 ^ 64) w c

wider128 :
    (e t : Utern)
    → e.type ≡ utern128_t
    → utern_is_contained e t ≡ true
    → (x : Wrap) → utern_compare128 t x ≡ true
    → utern_compare128 e x ≡ true
unfolding utern_is_contained utern_compare128 word_contained
wider128 e t p h x c =
    let a : word_contained (u64 e.value) (u64 e.mask) (u64 t.value) (u64 t.mask) ≡ true =
      ground arith in
    let b : word_contained (low64 e.value) (low64 e.mask) (low64 t.value) (low64 t.mask) ≡ true =
      ground arith in
    let k = word_contained_sound (u64 e.value) (u64 e.mask) (u64 t.value) (u64 t.mask) (u64 x) a in
    let l =
      word_contained_sound (low64 e.value) (low64 e.mask) (low64 t.value) (low64 t.mask) (low64 x)
        b in
    ground (arith, k, l)

-- The type of the value that the test of a kind compares, and for IPV6_EXTHDR, whose test always fails,
-- that of its constructor. The constructors give the values these types, but for the type and code
-- of ICMPv6: those have 8 bits, and 64 are compared.
abbrev pub compared_type : MatchType → UternType
compared_type MatchType.in_port = utern32_t
compared_type MatchType.in_phy_port = utern32_t
compared_type MatchType.metadata = utern64_t
compared_type MatchType.eth_dst = utern64_t
compared_type MatchType.eth_src = utern64_t
compared_type MatchType.eth_type = utern16_t
compared_type MatchType.vlan_vid = utern16_t
compared_type MatchType.vlan_pcp = utern8_t
compared_type MatchType.mpls_label = utern32_t
compared_type MatchType.mpls_tc = utern8_t
compared_type MatchType.mpls_bos = utern8_t
compared_type MatchType.arp_op = utern16_t
compared_type MatchType.arp_spa = utern32_t
compared_type MatchType.arp_tpa = utern32_t
compared_type MatchType.arp_sha = utern64_t
compared_type MatchType.arp_tha = utern64_t
compared_type MatchType.nw_proto = utern8_t
compared_type MatchType.nw_src = utern32_t
compared_type MatchType.nw_dst = utern32_t
compared_type MatchType.ip_dscp = utern8_t
compared_type MatchType.ip_ecn = utern8_t
compared_type MatchType.ip_proto = utern8_t
compared_type MatchType.ipv4_src = utern32_t
compared_type MatchType.ipv4_dst = utern32_t
compared_type MatchType.ipv6_src = utern128_t
compared_type MatchType.ipv6_dst = utern128_t
compared_type MatchType.ipv6_flabel = utern64_t
compared_type MatchType.icmpv6_type = utern64_t
compared_type MatchType.icmpv6_code = utern64_t
compared_type MatchType.ipv6_nd_target = utern128_t
compared_type MatchType.ipv6_nd_sll = utern64_t
compared_type MatchType.ipv6_nd_tll = utern64_t
compared_type MatchType.ipv6_exthdr = utern16_t
compared_type MatchType.tp_src = utern16_t
compared_type MatchType.tp_dst = utern16_t
compared_type MatchType.tcp_src = utern16_t
compared_type MatchType.tcp_dst = utern16_t
compared_type MatchType.udp_src = utern16_t
compared_type MatchType.udp_dst = utern16_t
compared_type MatchType.sctp_src = utern16_t
compared_type MatchType.sctp_dst = utern16_t
compared_type MatchType.icmpv4_type = utern8_t
compared_type MatchType.icmpv4_code = utern8_t
compared_type MatchType.pbb_isid = utern32_t
compared_type MatchType.tunnel_id = utern64_t
compared_type MatchType.pppoe_code = utern8_t
compared_type MatchType.pppoe_type = utern8_t
compared_type MatchType.pppoe_sid = utern16_t
compared_type MatchType.ppp_prot = utern16_t
compared_type MatchType.gtp_msg_type = utern8_t
compared_type MatchType.gtp_teid = utern32_t

-- The test of one kind, VLAN identifiers apart: there, the value of the match decides too whether the
-- packet must have a tag.
check_type_wider :
    (pkt : PacketMatches) (k : MatchType) (e t : Utern)
    → k ≢ MatchType.vlan_vid
    → e.type ≡ compared_type k
    → utern_is_contained e t ≡ true
    → check_type pkt t k ≡ true
    → check_type pkt e k ≡ true
unfolding check_type
check_type_wider pkt MatchType.in_port e t d p h c = ground (arith, wider32 e t p h pkt.port_in)
check_type_wider pkt MatchType.in_phy_port e t d p h c =
    ground (arith, wider32 e t p h pkt.phy_port_in)
check_type_wider pkt MatchType.metadata e t d p h c = ground (arith, wider64 e t p h pkt.metadata)
check_type_wider pkt MatchType.eth_dst e t d p h c = ground (arith, wider64 e t p h pkt.eth_dst)
check_type_wider pkt MatchType.eth_src e t d p h c = ground (arith, wider64 e t p h pkt.eth_src)
check_type_wider pkt MatchType.eth_type e t d p h c = ground (arith, wider16 e t p h pkt.eth_type)
check_type_wider pkt MatchType.vlan_vid e t d p h c = ground (arith, d refl)
check_type_wider pkt MatchType.vlan_pcp e t d p h c = ground (arith, wider8 e t p h pkt.vlan_pcp)
check_type_wider pkt MatchType.mpls_label e t d p h c =
    ground (arith, wider32 e t p h pkt.mpls_label)
check_type_wider pkt MatchType.mpls_tc e t d p h c = ground (arith, wider8 e t p h pkt.mpls_tc)
check_type_wider pkt MatchType.mpls_bos e t d p h c =
    ground (arith, wider8 e t p h (of_bool pkt.mpls_bos))
check_type_wider pkt MatchType.arp_op e t d p h c = ground (arith, wider16 e t p h pkt.arp_opcode)
check_type_wider pkt MatchType.arp_spa e t d p h c = ground (arith, wider32 e t p h pkt.arp_spa)
check_type_wider pkt MatchType.arp_tpa e t d p h c = ground (arith, wider32 e t p h pkt.arp_tpa)
check_type_wider pkt MatchType.arp_sha e t d p h c = ground (arith, wider64 e t p h pkt.arp_sha)
check_type_wider pkt MatchType.arp_tha e t d p h c = ground (arith, wider64 e t p h pkt.arp_tha)
check_type_wider pkt MatchType.nw_proto e t d p h c =
    ground (arith, wider8 e t p h pkt.arp_opcode, wider8 e t p h pkt.ip_proto)
check_type_wider pkt MatchType.nw_src e t d p h c =
    ground (arith, wider32 e t p h pkt.ipv4_src, wider32 e t p h pkt.arp_spa)
check_type_wider pkt MatchType.nw_dst e t d p h c =
    ground (arith, wider32 e t p h pkt.ipv4_dst, wider32 e t p h pkt.arp_tpa)
check_type_wider pkt MatchType.ip_dscp e t d p h c = ground (arith, wider8 e t p h pkt.ip_dscp)
check_type_wider pkt MatchType.ip_ecn e t d p h c = ground (arith, wider8 e t p h pkt.ip_ecn)
check_type_wider pkt MatchType.ip_proto e t d p h c = ground (arith, wider8 e t p h pkt.ip_proto)
check_type_wider pkt MatchType.ipv4_src e t d p h c = ground (arith, wider32 e t p h pkt.ipv4_src)
check_type_wider pkt MatchType.ipv4_dst e t d p h c = ground (arith, wider32 e t p h pkt.ipv4_dst)
check_type_wider pkt MatchType.ipv6_src e t d p h c = ground (arith, wider128 e t p h pkt.ipv6_src)
check_type_wider pkt MatchType.ipv6_dst e t d p h c = ground (arith, wider128 e t p h pkt.ipv6_dst)
check_type_wider pkt MatchType.ipv6_flabel e t d p h c =
    ground (arith, wider64 e t p h pkt.ipv6_flabel)
check_type_wider pkt MatchType.icmpv6_type e t d p h c =
    ground (arith, wider64 e t p h pkt.icmpv6_type)
check_type_wider pkt MatchType.icmpv6_code e t d p h c =
    ground (arith, wider64 e t p h pkt.icmpv6_code)
check_type_wider pkt MatchType.ipv6_nd_target e t d p h c =
    ground (arith, wider128 e t p h pkt.ipv6_nd_target)
check_type_wider pkt MatchType.ipv6_nd_sll e t d p h c =
    ground (arith, wider64 e t p h pkt.ipv6_nd_sll)
check_type_wider pkt MatchType.ipv6_nd_tll e t d p h c =
    ground (arith, wider64 e t p h pkt.ipv6_nd_tll)
check_type_wider pkt MatchType.ipv6_exthdr e t d p h c = ground arith
check_type_wider pkt MatchType.tp_src e t d p h c = ground (
  arith,
  wider16 e t p h pkt.tcp_src,
  wider16 e t p h pkt.udp_src,
  wider16 e t p h pkt.icmpv4_type,
)
check_type_wider pkt MatchType.tp_dst e t d p h c = ground (
  arith,
  wider16 e t p h pkt.tcp_dst,
  wider16 e t p h pkt.udp_dst,
  wider16 e t p h pkt.icmpv4_code,
)
check_type_wider pkt MatchType.tcp_src e t d p h c = ground (arith, wider16 e t p h pkt.tcp_src)
check_type_wider pkt MatchType.tcp_dst e t d p h c = ground (arith, wider16 e t p h pkt.tcp_dst)
check_type_wider pkt MatchType.udp_src e t d p h c = ground (arith, wider16 e t p h pkt.udp_src)
check_type_wider pkt MatchType.udp_dst e t d p h c = ground (arith, wider16 e t p h pkt.udp_dst)
check_type_wider pkt MatchType.sctp_src e t d p h c = ground (arith, wider16 e t p h pkt.tcp_src)
check_type_wider pkt MatchType.sctp_dst e t d p h c = ground (arith, wider16 e t p h pkt.tcp_dst)
check_type_wider pkt MatchType.icmpv4_type e t d p h c =
    ground (arith, wider8 e t p h pkt.icmpv4_type)
check_type_wider pkt MatchType.icmpv4_code e t d p h c =
    ground (arith, wider8 e t p h pkt.icmpv4_code)
check_type_wider pkt MatchType.pbb_isid e t d p h c = ground (arith, wider32 e t p h pkt.pbb_isid)
check_type_wider pkt MatchType.tunnel_id e t d p h c = ground (arith, wider64 e t p h pkt.tunnel_id)
check_type_wider pkt MatchType.pppoe_code e t d p h c =
    ground (arith, wider8 e t p h pkt.pppoe_code)
check_type_wider pkt MatchType.pppoe_type e t d p h c =
    ground (arith, wider8 e t p h pkt.pppoe_type)
check_type_wider pkt MatchType.pppoe_sid e t d p h c = ground (arith, wider16 e t p h pkt.pppoe_sid)
check_type_wider pkt MatchType.ppp_prot e t d p h c = ground (arith, wider16 e t p h pkt.ppp_proto)
check_type_wider pkt MatchType.gtp_msg_type e t d p h c =
    ground (arith, wider8 e t p h pkt.gtp_msg_type)
check_type_wider pkt MatchType.gtp_teid e t d p h c = ground (arith, wider32 e t p h pkt.gtp_teid)

-- A packet that meets a match also meets each match that is reported to contain it, if the latter has
-- a value of the type that is compared for its kind, and the kind is not the VLAN identifier.
pub check_match-is_submatch :
    (pkt : PacketMatches) (sub m : Match)
    → sub.type ≢ MatchType.vlan_vid
    → sub.value.type ≡ compared_type sub.type
    → is_submatch sub m ≡ true
    → check_match pkt m ≡ true
    → check_match pkt sub ≡ true
unfolding is_submatch check_match
check_match-is_submatch pkt sub m d p h c =
    let q : match_code m.type ≡ match_code sub.type = ground arith in
    let e = match_code_injective m.type sub.type q in
    let w : utern_is_contained sub.value m.value ≡ true = ground arith in
    check_type_wider pkt sub.type sub.value m.value d p w (rw e at c)

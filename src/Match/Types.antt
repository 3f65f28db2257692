-- ===== src/Match/Types.antt =====
-- The kinds of match fields, of1x_match_type_t of of1x_match.h, with their numbers.
use rofl_fork.Base.{ℕ, ◌≡◌, refl, List, [], ◌∷◌, ap, sym, ◌∙◌, get_elem?, some, some_injective}

pub data MatchType : Type 0 where
  in_port in_phy_port metadata eth_dst eth_src eth_type vlan_vid vlan_pcp mpls_label mpls_tc :
      MatchType
  mpls_bos arp_op arp_spa arp_tpa arp_sha arp_tha nw_proto nw_src nw_dst ip_dscp ip_ecn : MatchType
  ip_proto ipv4_src ipv4_dst ipv6_src ipv6_dst ipv6_flabel icmpv6_type icmpv6_code : MatchType
  ipv6_nd_target ipv6_nd_sll ipv6_nd_tll ipv6_exthdr tp_src tp_dst tcp_src tcp_dst udp_src :
      MatchType
  udp_dst sctp_src sctp_dst icmpv4_type icmpv4_code pbb_isid tunnel_id pppoe_code pppoe_type :
      MatchType
  pppoe_sid ppp_prot gtp_msg_type gtp_teid : MatchType

unfoldable pub match_code : MatchType → ℕ
match_code in_port = 0
match_code in_phy_port = 1
match_code metadata = 2
match_code eth_dst = 3
match_code eth_src = 4
match_code eth_type = 5
match_code vlan_vid = 6
match_code vlan_pcp = 7
match_code mpls_label = 8
match_code mpls_tc = 9
match_code mpls_bos = 10
match_code arp_op = 11
match_code arp_spa = 12
match_code arp_tpa = 13
match_code arp_sha = 14
match_code arp_tha = 15
match_code nw_proto = 16
match_code nw_src = 17
match_code nw_dst = 18
match_code ip_dscp = 19
match_code ip_ecn = 20
match_code ip_proto = 21
match_code ipv4_src = 22
match_code ipv4_dst = 23
match_code ipv6_src = 24
match_code ipv6_dst = 25
match_code ipv6_flabel = 26
match_code icmpv6_type = 27
match_code icmpv6_code = 28
match_code ipv6_nd_target = 29
match_code ipv6_nd_sll = 30
match_code ipv6_nd_tll = 31
match_code ipv6_exthdr = 32
match_code tp_src = 33
match_code tp_dst = 34
match_code tcp_src = 35
match_code tcp_dst = 36
match_code udp_src = 37
match_code udp_dst = 38
match_code sctp_src = 39
match_code sctp_dst = 40
match_code icmpv4_type = 41
match_code icmpv4_code = 42
match_code pbb_isid = 43
match_code tunnel_id = 44
match_code pppoe_code = 45
match_code pppoe_type = 46
match_code pppoe_sid = 47
match_code ppp_prot = 48
match_code gtp_msg_type = 49
match_code gtp_teid = 50

-- The kinds in the order of their numbers.
abbrev match_types : List MatchType
match_types =
    in_port ∷ in_phy_port ∷ metadata ∷ eth_dst ∷ eth_src ∷ eth_type ∷ vlan_vid ∷ vlan_pcp
    ∷ mpls_label ∷ mpls_tc ∷ mpls_bos ∷ arp_op ∷ arp_spa ∷ arp_tpa ∷ arp_sha ∷ arp_tha ∷ nw_proto
    ∷ nw_src ∷ nw_dst ∷ ip_dscp ∷ ip_ecn ∷ ip_proto ∷ ipv4_src ∷ ipv4_dst ∷ ipv6_src ∷ ipv6_dst
    ∷ ipv6_flabel ∷ icmpv6_type ∷ icmpv6_code ∷ ipv6_nd_target ∷ ipv6_nd_sll ∷ ipv6_nd_tll
    ∷ ipv6_exthdr ∷ tp_src ∷ tp_dst ∷ tcp_src ∷ tcp_dst ∷ udp_src ∷ udp_dst ∷ sctp_src ∷ sctp_dst
    ∷ icmpv4_type ∷ icmpv4_code ∷ pbb_isid ∷ tunnel_id ∷ pppoe_code ∷ pppoe_type ∷ pppoe_sid
    ∷ ppp_prot ∷ gtp_msg_type ∷ gtp_teid ∷ []

get_elem?-match_code : (t : MatchType) → get_elem? match_types (match_code t) ≡ some t
unfolding match_code
get_elem?-match_code in_port = refl
get_elem?-match_code in_phy_port = refl
get_elem?-match_code metadata = refl
get_elem?-match_code eth_dst = refl
get_elem?-match_code eth_src = refl
get_elem?-match_code eth_type = refl
get_elem?-match_code vlan_vid = refl
get_elem?-match_code vlan_pcp = refl
get_elem?-match_code mpls_label = refl
get_elem?-match_code mpls_tc = refl
get_elem?-match_code mpls_bos = refl
get_elem?-match_code arp_op = refl
get_elem?-match_code arp_spa = refl
get_elem?-match_code arp_tpa = refl
get_elem?-match_code arp_sha = refl
get_elem?-match_code arp_tha = refl
get_elem?-match_code nw_proto = refl
get_elem?-match_code nw_src = refl
get_elem?-match_code nw_dst = refl
get_elem?-match_code ip_dscp = refl
get_elem?-match_code ip_ecn = refl
get_elem?-match_code ip_proto = refl
get_elem?-match_code ipv4_src = refl
get_elem?-match_code ipv4_dst = refl
get_elem?-match_code ipv6_src = refl
get_elem?-match_code ipv6_dst = refl
get_elem?-match_code ipv6_flabel = refl
get_elem?-match_code icmpv6_type = refl
get_elem?-match_code icmpv6_code = refl
get_elem?-match_code ipv6_nd_target = refl
get_elem?-match_code ipv6_nd_sll = refl
get_elem?-match_code ipv6_nd_tll = refl
get_elem?-match_code ipv6_exthdr = refl
get_elem?-match_code tp_src = refl
get_elem?-match_code tp_dst = refl
get_elem?-match_code tcp_src = refl
get_elem?-match_code tcp_dst = refl
get_elem?-match_code udp_src = refl
get_elem?-match_code udp_dst = refl
get_elem?-match_code sctp_src = refl
get_elem?-match_code sctp_dst = refl
get_elem?-match_code icmpv4_type = refl
get_elem?-match_code icmpv4_code = refl
get_elem?-match_code pbb_isid = refl
get_elem?-match_code tunnel_id = refl
get_elem?-match_code pppoe_code = refl
get_elem?-match_code pppoe_type = refl
get_elem?-match_code pppoe_sid = refl
get_elem?-match_code ppp_prot = refl
get_elem?-match_code gtp_msg_type = refl
get_elem?-match_code gtp_teid = refl

-- The numbers of the kinds are distinct.
pub match_code_injective : (a b : MatchType) → match_code a ≡ match_code b → a ≡ b
match_code_injective a b e =
    some_injective
      (sym (get_elem?-match_code a) ∙ ap (get_elem? match_types) e ∙ get_elem?-match_code b)

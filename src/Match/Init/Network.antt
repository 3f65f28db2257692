-- ===== src/Match/Init/Network.antt =====
-- The constructors of the network layer, IPv4, IPv6 and ICMPv6 matches in of1x_match.c. The block for the
-- value comes as an argument; the code does not test it for NULL.
use rofl_fork.Base.{ℕ, bit_and, false, not, ◌==◌}
use rofl_fork.Ternary.{Raw, Wrap, new_bits, utern8_t, utern16_t, utern32_t, utern64_t, utern128_t}
use rofl_fork.Match.Types.{MatchType}
use rofl_fork.Match.Masks.{
  full_address, mask_1_byte, mask_20_bits, mask_2_bits, mask_48_bits, mask_4_byte, mask_6_bits,
  mask_9_bits, same_address,
}
use rofl_fork.Match.{Match, new_match, of_version_10, of_version_12, of_version_13, max_version}

unfoldable pub init_nw_proto_match : Raw → ℕ → Match
init_nw_proto_match raw value =
    new_match MatchType.nw_proto (new_bits 8 utern8_t raw value mask_1_byte) of_version_10
      of_version_10 (false)

unfoldable pub init_nw_src_match : Raw → ℕ → ℕ → Match
init_nw_src_match raw value mask =
    new_match MatchType.nw_src (new_bits 32 utern32_t raw value mask) of_version_10 of_version_10
      (not (bit_and mask mask_4_byte == mask_4_byte))

unfoldable pub init_nw_dst_match : Raw → ℕ → ℕ → Match
init_nw_dst_match raw value mask =
    new_match MatchType.nw_dst (new_bits 32 utern32_t raw value mask) of_version_10 of_version_10
      (not (bit_and mask mask_4_byte == mask_4_byte))

unfoldable pub init_ip4_src_match : Raw → ℕ → ℕ → Match
init_ip4_src_match raw value mask =
    new_match MatchType.ipv4_src (new_bits 32 utern32_t raw value mask) of_version_10 max_version
      (not (bit_and mask mask_4_byte == mask_4_byte))

unfoldable pub init_ip4_dst_match : Raw → ℕ → ℕ → Match
init_ip4_dst_match raw value mask =
    new_match MatchType.ipv4_dst (new_bits 32 utern32_t raw value mask) of_version_10 max_version
      (not (bit_and mask mask_4_byte == mask_4_byte))

unfoldable pub init_ip_proto_match : Raw → ℕ → Match
init_ip_proto_match raw value =
    new_match MatchType.ip_proto (new_bits 8 utern8_t raw value mask_1_byte) of_version_10
      max_version (false)

unfoldable pub init_ip_dscp_match : Raw → ℕ → Match
init_ip_dscp_match raw value =
    new_match MatchType.ip_dscp (new_bits 8 utern8_t raw (bit_and value mask_6_bits) mask_6_bits)
      of_version_10 max_version (false)

unfoldable pub init_ip_ecn_match : Raw → ℕ → Match
init_ip_ecn_match raw value =
    new_match MatchType.ip_ecn (new_bits 8 utern8_t raw (bit_and value mask_2_bits) mask_2_bits)
      of_version_12 max_version (false)

unfoldable pub init_ip6_src_match : Raw → Wrap → Wrap → Match
init_ip6_src_match raw value mask =
    new_match MatchType.ipv6_src (record { type = utern128_t; value = value; mask = mask })
      of_version_12 max_version (not (same_address mask full_address))

unfoldable pub init_ip6_dst_match : Raw → Wrap → Wrap → Match
init_ip6_dst_match raw value mask =
    new_match MatchType.ipv6_dst (record { type = utern128_t; value = value; mask = mask })
      of_version_12 max_version (not (same_address mask full_address))

unfoldable pub init_ip6_flabel_match : Raw → ℕ → Match
init_ip6_flabel_match raw value =
    new_match MatchType.ipv6_flabel
      (new_bits 64 utern64_t raw (bit_and value mask_20_bits) mask_20_bits) of_version_12
      max_version (false)

unfoldable pub init_ip6_nd_target_match : Raw → Wrap → Match
init_ip6_nd_target_match raw value =
    new_match MatchType.ipv6_nd_target
      (record { type = utern128_t; value = value; mask = full_address }) of_version_12 max_version
      (false)

unfoldable pub init_ip6_nd_sll_match : Raw → ℕ → Match
init_ip6_nd_sll_match raw value =
    new_match MatchType.ipv6_nd_sll
      (new_bits 64 utern64_t raw (bit_and value mask_48_bits) mask_48_bits) of_version_12
      max_version (false)

unfoldable pub init_ip6_nd_tll_match : Raw → ℕ → Match
init_ip6_nd_tll_match raw value =
    new_match MatchType.ipv6_nd_tll
      (new_bits 64 utern64_t raw (bit_and value mask_48_bits) mask_48_bits) of_version_12
      max_version (false)

unfoldable pub init_ip6_exthdr_match : Raw → ℕ → ℕ → Match
init_ip6_exthdr_match raw value mask =
    new_match MatchType.ipv6_exthdr
      (new_bits 16 utern16_t raw (bit_and value mask_9_bits) (bit_and mask mask_9_bits))
      of_version_13 max_version (not (bit_and mask mask_9_bits == mask_9_bits))

unfoldable pub init_icmpv6_type_match : Raw → ℕ → Match
init_icmpv6_type_match raw value =
    new_match MatchType.icmpv6_type (new_bits 8 utern8_t raw value mask_1_byte) of_version_12
      max_version (false)

unfoldable pub init_icmpv6_code_match : Raw → ℕ → Match
init_icmpv6_code_match raw value =
    new_match MatchType.icmpv6_code (new_bits 8 utern8_t raw value mask_1_byte) of_version_12
      max_version (false)

-- ===== src/Match/Init/Transport.antt =====
-- The constructors of the transport, tunnel, PPP and GTP matches in of1x_match.c. The block for the
-- value comes as an argument; the code does not test it for NULL.
use rofl_fork.Base.{ℕ, bit_and, false, not, ◌==◌, if◌then◌else◌}
use rofl_fork.Ternary.{Raw, new_bits, utern8_t, utern16_t, utern32_t, utern64_t}
use rofl_fork.Match.Types.{MatchType}
use rofl_fork.Match.Masks.{
  mask_1_byte, mask_2_byte, mask_3_byte, mask_4_bits, mask_4_byte, mask_8_byte,
}
use rofl_fork.Match.{Match, new_match, of_version_10, of_version_12, of_version_13, max_version}

unfoldable pub init_tcp_src_match : Raw → ℕ → Match
init_tcp_src_match raw value =
    new_match MatchType.tcp_src (new_bits 16 utern16_t raw value mask_2_byte) of_version_12
      max_version (false)

unfoldable pub init_tcp_dst_match : Raw → ℕ → Match
init_tcp_dst_match raw value =
    new_match MatchType.tcp_dst (new_bits 16 utern16_t raw value mask_2_byte) of_version_12
      max_version (false)

unfoldable pub init_udp_src_match : Raw → ℕ → Match
init_udp_src_match raw value =
    new_match MatchType.udp_src (new_bits 16 utern16_t raw value mask_2_byte) of_version_12
      max_version (false)

unfoldable pub init_udp_dst_match : Raw → ℕ → Match
init_udp_dst_match raw value =
    new_match MatchType.udp_dst (new_bits 16 utern16_t raw value mask_2_byte) of_version_12
      max_version (false)

unfoldable pub init_sctp_src_match : Raw → ℕ → Match
init_sctp_src_match raw value =
    new_match MatchType.sctp_src (new_bits 16 utern16_t raw value mask_2_byte) of_version_12
      max_version (false)

unfoldable pub init_sctp_dst_match : Raw → ℕ → Match
init_sctp_dst_match raw value =
    new_match MatchType.sctp_dst (new_bits 16 utern16_t raw value mask_2_byte) of_version_12
      max_version (false)

unfoldable pub init_tp_src_match : Raw → ℕ → Match
init_tp_src_match raw value =
    new_match MatchType.tp_src (new_bits 16 utern16_t raw value mask_2_byte) of_version_10
      of_version_10 (false)

unfoldable pub init_tp_dst_match : Raw → ℕ → Match
init_tp_dst_match raw value =
    new_match MatchType.tp_dst (new_bits 16 utern16_t raw value mask_2_byte) of_version_10
      of_version_10 (false)

unfoldable pub init_icmpv4_type_match : Raw → ℕ → Match
init_icmpv4_type_match raw value =
    new_match MatchType.icmpv4_type (new_bits 8 utern8_t raw value mask_1_byte) of_version_12
      max_version (false)

unfoldable pub init_icmpv4_code_match : Raw → ℕ → Match
init_icmpv4_code_match raw value =
    new_match MatchType.icmpv4_code (new_bits 8 utern8_t raw value mask_1_byte) of_version_12
      max_version (false)

unfoldable pub init_pbb_isid_match : Raw → ℕ → ℕ → Match
init_pbb_isid_match raw value mask =
    new_match MatchType.pbb_isid
      (new_bits 32 utern32_t raw (bit_and value mask_3_byte) (bit_and mask mask_3_byte))
      of_version_13 max_version (if bit_and mask mask_3_byte == mask_3_byte then false else false)

unfoldable pub init_tunnel_id_match : Raw → ℕ → ℕ → Match
init_tunnel_id_match raw value mask =
    new_match MatchType.tunnel_id (new_bits 64 utern64_t raw value mask) of_version_13 max_version
      (not (mask == mask_8_byte))

unfoldable pub init_pppoe_code_match : Raw → ℕ → Match
init_pppoe_code_match raw value =
    new_match MatchType.pppoe_code (new_bits 8 utern8_t raw (bit_and value mask_1_byte) mask_1_byte)
      of_version_12 max_version (false)

unfoldable pub init_pppoe_type_match : Raw → ℕ → Match
init_pppoe_type_match raw value =
    new_match MatchType.pppoe_type (new_bits 8 utern8_t raw (bit_and value mask_4_bits) mask_4_bits)
      of_version_12 max_version (false)

unfoldable pub init_pppoe_session_match : Raw → ℕ → Match
init_pppoe_session_match raw value =
    new_match MatchType.pppoe_sid (new_bits 16 utern16_t raw value mask_2_byte) of_version_12
      max_version (false)

unfoldable pub init_ppp_prot_match : Raw → ℕ → Match
init_ppp_prot_match raw value =
    new_match MatchType.ppp_prot (new_bits 16 utern16_t raw value mask_2_byte) of_version_12
      max_version (false)

unfoldable pub init_gtp_msg_type_match : Raw → ℕ → Match
init_gtp_msg_type_match raw value =
    new_match MatchType.gtp_msg_type (new_bits 8 utern8_t raw value mask_1_byte) of_version_12
      max_version (false)

unfoldable pub init_gtp_teid_match : Raw → ℕ → ℕ → Match
init_gtp_teid_match raw value mask =
    new_match MatchType.gtp_teid (new_bits 32 utern32_t raw value mask) of_version_12 max_version
      (not (mask == mask_4_byte))

-- ===== src/Match/Init/Link.antt =====
-- The constructors of the port, metadata, Ethernet, VLAN, MPLS and ARP matches in of1x_match.c. The block for the
-- value comes as an argument; the code does not test it for NULL.
use rofl_fork.Base.{ℕ, bit_and, false, not, ◌==◌}
use rofl_fork.Ternary.{Raw, new_bits, utern8_t, utern16_t, utern32_t, utern64_t}
use rofl_fork.Match.Types.{MatchType}
use rofl_fork.Match.Masks.{
  mask_13_bits, mask_1_bit, mask_20_bits, mask_2_byte, mask_3_bits, mask_48_bits, mask_4_byte,
  mask_8_byte, vlan_id_mask,
}
use rofl_fork.Match.{Match, new_match, of_version_10, of_version_12, of_version_13, max_version}

unfoldable pub init_port_in_match : Raw → ℕ → Match
init_port_in_match raw value =
    new_match MatchType.in_port (new_bits 32 utern32_t raw value mask_4_byte) of_version_10
      max_version (false)

unfoldable pub init_port_in_phy_match : Raw → ℕ → Match
init_port_in_phy_match raw value =
    new_match MatchType.in_phy_port (new_bits 32 utern32_t raw value mask_4_byte) of_version_12
      max_version (false)

unfoldable pub init_metadata_match : Raw → ℕ → ℕ → Match
init_metadata_match raw value mask =
    new_match MatchType.metadata (new_bits 64 utern64_t raw value mask) of_version_12 max_version
      (not (bit_and mask mask_8_byte == mask_8_byte))

unfoldable pub init_eth_dst_match : Raw → ℕ → ℕ → Match
init_eth_dst_match raw value mask =
    new_match MatchType.eth_dst
      (new_bits 64 utern64_t raw (bit_and value mask_48_bits) (bit_and mask mask_48_bits))
      of_version_10 max_version (not (bit_and mask mask_48_bits == mask_48_bits))

unfoldable pub init_eth_src_match : Raw → ℕ → ℕ → Match
init_eth_src_match raw value mask =
    new_match MatchType.eth_src
      (new_bits 64 utern64_t raw (bit_and value mask_48_bits) (bit_and mask mask_48_bits))
      of_version_10 max_version (not (bit_and mask mask_48_bits == mask_48_bits))

unfoldable pub init_eth_type_match : Raw → ℕ → Match
init_eth_type_match raw value =
    new_match MatchType.eth_type (new_bits 16 utern16_t raw value mask_2_byte) of_version_10
      max_version (false)

unfoldable pub init_vlan_vid_match : Raw → ℕ → ℕ → Match
init_vlan_vid_match raw value mask =
    new_match MatchType.vlan_vid
      (new_bits 16 utern16_t raw (bit_and value mask_13_bits) (bit_and mask vlan_id_mask))
      of_version_10 max_version (not (bit_and mask mask_13_bits == mask_13_bits))

unfoldable pub init_vlan_pcp_match : Raw → ℕ → Match
init_vlan_pcp_match raw value =
    new_match MatchType.vlan_pcp (new_bits 8 utern8_t raw (bit_and value mask_3_bits) mask_3_bits)
      of_version_10 max_version (false)

unfoldable pub init_mpls_label_match : Raw → ℕ → Match
init_mpls_label_match raw value =
    new_match MatchType.mpls_label
      (new_bits 32 utern32_t raw (bit_and value mask_20_bits) mask_20_bits) of_version_12
      max_version (false)

unfoldable pub init_mpls_tc_match : Raw → ℕ → Match
init_mpls_tc_match raw value =
    new_match MatchType.mpls_tc (new_bits 8 utern8_t raw (bit_and value mask_3_bits) mask_3_bits)
      of_version_12 max_version (false)

unfoldable pub init_mpls_bos_match : Raw → ℕ → Match
init_mpls_bos_match raw value =
    new_match MatchType.mpls_bos (new_bits 8 utern8_t raw (bit_and value mask_1_bit) mask_1_bit)
      of_version_13 max_version (false)

unfoldable pub init_arp_opcode_match : Raw → ℕ → Match
init_arp_opcode_match raw value =
    new_match MatchType.arp_op (new_bits 16 utern16_t raw value mask_2_byte) of_version_10
      max_version (false)

unfoldable pub init_arp_tha_match : Raw → ℕ → ℕ → Match
init_arp_tha_match raw value mask =
    new_match MatchType.arp_tha
      (new_bits 64 utern64_t raw (bit_and value mask_48_bits) (bit_and mask mask_48_bits))
      of_version_12 max_version (not (bit_and mask mask_48_bits == mask_48_bits))

unfoldable pub init_arp_sha_match : Raw → ℕ → ℕ → Match
init_arp_sha_match raw value mask =
    new_match MatchType.arp_sha
      (new_bits 64 utern64_t raw (bit_and value mask_48_bits) (bit_and mask mask_48_bits))
      of_version_12 max_version (not (bit_and mask mask_48_bits == mask_48_bits))

unfoldable pub init_arp_tpa_match : Raw → ℕ → ℕ → Match
init_arp_tpa_match raw value mask =
    new_match MatchType.arp_tpa (new_bits 32 utern32_t raw value mask) of_version_10 max_version
      (not (mask == mask_4_byte))

unfoldable pub init_arp_spa_match : Raw → ℕ → ℕ → Match
init_arp_spa_match raw value mask =
    new_match MatchType.arp_spa (new_bits 32 utern32_t raw value mask) of_version_10 max_version
      (not (mask == mask_4_byte))

-- ===== src/Match/Masks.antt =====
-- The masks of of1x_utils.h and of1x_match.h.
use rofl_fork.Base.{ℕ, Bool, ◌==◌, ◌&&◌}
use rofl_fork.Ternary.{Wrap}

abbrev pub mask_8_byte : ℕ
mask_8_byte = 0xffffffffffffffff

abbrev pub mask_6_byte : ℕ
mask_6_byte = 0xffffffffffff

abbrev pub mask_4_byte : ℕ
mask_4_byte = 0xffffffff

abbrev pub mask_3_byte : ℕ
mask_3_byte = 0xffffff

abbrev pub mask_2_byte : ℕ
mask_2_byte = 0xffff

abbrev pub mask_1_byte : ℕ
mask_1_byte = 0xff

abbrev pub mask_48_bits : ℕ
mask_48_bits = 0xffffffffffff

abbrev pub mask_20_bits : ℕ
mask_20_bits = 0xfffff

abbrev pub mask_13_bits : ℕ
mask_13_bits = 0x1fff

abbrev pub mask_12_bits : ℕ
mask_12_bits = 0xfff

abbrev pub mask_9_bits : ℕ
mask_9_bits = 0x1ff

abbrev pub mask_6_bits : ℕ
mask_6_bits = 0x3f

abbrev pub mask_4_bits : ℕ
mask_4_bits = 0xf

abbrev pub mask_3_bits : ℕ
mask_3_bits = 0x7

abbrev pub mask_2_bits : ℕ
mask_2_bits = 0x3

abbrev pub mask_1_bit : ℕ
mask_1_bit = 0x1

abbrev pub vlan_id_mask : ℕ
vlan_id_mask = 0xfff

abbrev pub full_address : Wrap
full_address = record { hi = 0xffffffffffffffff; lo = 0xffffffffffffffff }

-- memcmp of two addresses.
abbrev pub same_address : Wrap → Wrap → Bool
same_address a b = (a.hi == b.hi) && (a.lo == b.lo)

-- ===== src/Base/Checksum.antt =====
-- `fmt.Sprintf("%08x", crc32.ChecksumIEEE(data))`: the IEEE checksum of package hash/crc32, bit by
-- bit, and its eight hexadecimal digits.
use Prim.Native.Nat.{ℕ, zero, suc, ◌+◌, ◌-◌, ◌/◌, ◌%◌, bit_xor}
use mathlib.Core.Path.{◌≡◌, refl}
use mathlib.Core.List.{[], ◌∷◌, ◌++◌}
use levels.Base.Tests.{ltb, ◌==◌, if◌then◌else◌}
use levels.Base.Text.{Str, Bytes, codes}

shift_bits : ℕ → ℕ → ℕ
shift_bits zero crc = crc
shift_bits (suc n) crc =
    shift_bits n (if crc % 2 == 1 then bit_xor (crc / 2) 0xedb88320 else crc / 2)

crc_bytes : ℕ → Bytes → ℕ
unfolding shift_bits
crc_bytes crc [] = crc
crc_bytes crc (b ∷ bytes) = crc_bytes (shift_bits 8 (bit_xor crc b)) bytes

unfoldable pub crc32 : Bytes → ℕ
unfolding crc_bytes
crc32 bytes = bit_xor (crc_bytes 0xffffffff bytes) 0xffffffff

hex_digits : ℕ → ℕ → Str
hex_digits zero n = []
hex_digits (suc k) n =
    let d = n % 16 in hex_digits k (n / 16) ++ (if ltb d 10 then b'0' + d else b'a' + (d - 10)) ∷ []

unfoldable pub checksum : Bytes → Str
unfolding crc32 hex_digits
checksum bytes = hex_digits 8 (crc32 bytes)

-- The check value of the CRC-32 catalogue.
check_value : checksum (codes "123456789") ≡ codes "cbf43926"
unfolding checksum
check_value = refl

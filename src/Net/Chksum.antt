-- ===== src/Net/Chksum.antt =====
-- src/net/chksum.c: the checksum of the internet protocols, over bytes.
pub mod Sum
mod Tests
use onix.Base.{
  ℕ, zero, suc, ◌+◌, ◌-◌, ◌*◌, ◌/◌, ◌%◌, ◌^◌, Option, none, some, List, [], ◌∷◌, ◌==◌, leb,
  if◌then◌else◌, bit_xor,
}
use onix.Net.TcpOption.{htons}

-- `(sum & 0xFFFF) + (sum >> 16)`
abbrev pub fold : ℕ → ℕ
fold sum = sum % 2 ^ 16 + sum / 2 ^ 16

abbrev pub fold_early : ℕ → ℕ
fold_early sum = if leb (2 ^ 31) sum then fold sum else sum

-- The loop of `chksum` over the bytes, and what it adds for an odd one.
pub add_words : List ℕ → ℕ → ℕ
add_words [] sum = sum
add_words (a ∷ []) sum = (sum + a) % 2 ^ 32
add_words (a ∷ b ∷ ptr) sum = add_words ptr ((fold_early sum + (a + b * 2 ^ 8)) % 2 ^ 32)

-- The last loop of `chksum`, on fuel.
pub fold_loop : ℕ → ℕ → Option ℕ
fold_loop zero sum = none
fold_loop (suc fuel) sum =
    let rest = fold_loop fuel (fold sum) in if sum / 2 ^ 16 == 0 then some (sum % 2 ^ 16) else rest

-- `chksum`
pub chksum : ℕ → List ℕ → ℕ → Option ℕ
chksum fuel bytes sum = fold_loop fuel (add_words bytes sum)

-- `~sum` of an `u16`
abbrev pub complement_u16 : Option ℕ → Option ℕ
complement_u16 none = none
complement_u16 (some sum) = some (65535 - sum)

-- `ip_chksum`
pub ip_chksum : ℕ → List ℕ → Option ℕ
ip_chksum fuel bytes = complement_u16 (chksum fuel bytes 0)

-- The sum of the pseudo header of `inet_chksum`, with the two halves of each address.
abbrev pub pseudo : ℕ → ℕ → ℕ → ℕ → ℕ
pseudo len dst src proto =
    dst % 2 ^ 16 + dst / 2 ^ 16 + src % 2 ^ 16 + src / 2 ^ 16 + htons proto + htons len

-- `inet_chksum`
pub inet_chksum : ℕ → List ℕ → ℕ → ℕ → ℕ → ℕ → Option ℕ
inet_chksum fuel bytes len dst src proto =
    complement_u16 (chksum fuel bytes (pseudo len dst src proto))

-- A step of `eth_fcs` for one bit: `CRC_POLY` is 0xEDB88320.
pub crc_bit : ℕ → ℕ
crc_bit crc = if crc % 2 == 1 then bit_xor (crc / 2) 0xEDB88320 else crc / 2

pub crc_bits : ℕ → ℕ → ℕ
crc_bits zero crc = crc
crc_bits (suc n) crc = crc_bits n (crc_bit crc)

-- The loop of `eth_fcs` over the bytes.
pub crc_bytes : List ℕ → ℕ → ℕ
crc_bytes [] crc = crc
crc_bytes (a ∷ ptr) crc = crc_bytes ptr (crc_bits 8 (bit_xor crc a))

-- `eth_fcs`
pub eth_fcs : List ℕ → ℕ
eth_fcs bytes = 2 ^ 32 - 1 - crc_bytes bytes (2 ^ 32 - 1)

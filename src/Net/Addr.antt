-- ===== src/Net/Addr.antt =====
-- src/net/addr.c: addresses of the internet and of the link. An internet address is the `u32` that its four
-- bytes make, the first one lowest; a link address is its bytes.
pub mod Parse
mod Tests
use onix.Base.{
  ℕ, zero, suc, ◌+◌, ◌-◌, ◌*◌, ◌/◌, ◌%◌, ◌^◌, Bool, true, false, not, Option, none, some, List, [],
  ◌∷◌, ◌==◌, ltb, leb, if◌then◌else◌, ◌&&◌, ◌||◌, bit_and,
}
use onix.Base.Int.{ℤ, pos, neg}
use onix.Base.Bits.{complement}

-- The loop of `eth_addr_isany`.
pub eth_addr_isany : List ℕ → Bool
eth_addr_isany [] = true
eth_addr_isany (a ∷ addr) = if a == 0 then eth_addr_isany addr else false

-- `eth_addr_cmp` of addresses of one length.
pub eth_addr_cmp : List ℕ → List ℕ → Bool
eth_addr_cmp [] addr = true
eth_addr_cmp (a ∷ addr1) [] = true
eth_addr_cmp (a ∷ addr1) (b ∷ addr2) = if a == b then eth_addr_cmp addr1 addr2 else false

-- `ip_addr_cmp`
unfoldable pub ip_addr_cmp : ℕ → ℕ → Bool
ip_addr_cmp a1 a2 = a1 == a2

-- `ip_addr_maskcmp`
unfoldable pub ip_addr_maskcmp : ℕ → ℕ → ℕ → Bool
ip_addr_maskcmp a1 a2 m = bit_and a1 m == bit_and a2 m

-- `ip_addr_isbroadcast`
unfoldable pub ip_addr_isbroadcast : ℕ → ℕ → Bool
ip_addr_isbroadcast a m =
    (bit_and a (complement 32 m) == complement 32 m) || ((a == 2 ^ 32 - 1) || (a == 0))

-- `ip_addr_isany`, of an address that is not `NULL`.
unfoldable pub ip_addr_isany : ℕ → Bool
ip_addr_isany a = a == 0

-- `ip_addr_ismulticast`: `ntohl` moves the mask to the first byte.
unfoldable pub ip_addr_ismulticast : ℕ → Bool
ip_addr_ismulticast a = bit_and a 0xF0 == 0xE0

abbrev pub dot : ℕ
dot = 46

-- The loop of `inet_aton` over one number, with its digits so far: `none` where a character is no digit,
-- and else the value, the number of digits, and the rest of the text. `value` wraps at 32 bits.
pub part_loop : List ℕ → ℕ → ℕ → Option (ℕ × ℕ × List ℕ)
part_loop [] value k = some (value, k, [])
part_loop (c ∷ cs) value k =
    let rest = part_loop cs ((value * 10 + (c - 48)) % 2 ^ 32) (k + 1) in
    if c == dot then some (value, k, c ∷ cs) else if leb 48 c && leb c 57 then rest else none

-- `parts[i] = value`
abbrev pub set_part : ℕ → ℕ → ℕ → ℕ
set_part i value parts =
    parts % 2 ^ (8 * i) + value * 2 ^ (8 * i) + parts / 2 ^ (8 * i + 8) * 2 ^ (8 * i + 8)

-- The outer loop of `inet_aton`, with the numbers left, over the text before its end; `parts` are the
-- bytes of the array, which start with what the stack had. After the last character of the text the
-- code steps over the terminator: where a number is then still due, it reads what lies behind the text,
-- and the result is `none`.
pub aton_loop : ℕ → ℕ → List ℕ → ℕ → Option (ℤ × ℕ)
aton_loop zero i cs parts = some (pos 0, parts)
aton_loop (suc left) i [] parts = some (pos 0, parts)
aton_loop (suc left) i (c ∷ cs) parts = elim (part_loop (c ∷ cs) 0 0) [
  | none ↦ some (neg 101, parts)
  | some r ↦ if (r.1 == 0) || leb 256 r.0 then some (neg 101, parts) else elim r.2 [
    | [] ↦ if left == 0 then some (pos 0, set_part i r.0 parts) else none
    | d ∷ ds ↦ aton_loop left (i + 1) ds (set_part i r.0 parts)
  ]
]

-- `inet_aton`: the result, and the address.
pub inet_aton : List ℕ → ℕ → Option (ℤ × ℕ)
inet_aton str parts = aton_loop 4 0 str parts

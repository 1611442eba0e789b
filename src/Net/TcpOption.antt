-- ===== src/Net/TcpOption.antt =====
-- src/net/tcp_option.c: the options behind a TCP header, written and parsed. A pointer is the list
-- of the bytes from its place to the end of its buffer; `none` is an access past that end.
pub mod Laws
mod Tests
use onix.Base.{
  ℕ, zero, suc, ◌+◌, ◌-◌, ◌*◌, ◌/◌, ◌%◌, ◌^◌, Bool, true, false, Option, none, some, List, [], ◌∷◌,
  ◌++◌, take, drop, ◌==◌, ltb, if◌then◌else◌, ◌>>=◌,
}
use onix.Base.Int.{ℤ, pos, neg}
use onix.Libc.Memory.{memset}

-- `htons` and `ntohs`: the two bytes of an `u16` change places.
pub htons : ℕ → ℕ
htons s = s % 2 ^ 8 * 2 ^ 8 + s / 2 ^ 8 % 2 ^ 8

abbrev pub opt_end : ℕ
opt_end = 0

abbrev pub opt_nop : ℕ
opt_nop = 1

abbrev pub opt_mss : ℕ
opt_mss = 2

-- `EOPTION`
abbrev pub eoption : ℕ
eoption = 103

-- `*(u16 *)ptr`, with the low byte first.
pub load_u16 : List ℕ → Option ℕ
load_u16 [] = none
load_u16 (a ∷ []) = none
load_u16 (a ∷ b ∷ ptr) = some (a + b * 2 ^ 8)

pub store_u16 : List ℕ → ℕ → Option (List ℕ)
store_u16 [] v = none
store_u16 (a ∷ []) v = none
store_u16 (a ∷ b ∷ ptr) v = some ((v % 2 ^ 8) ∷ (v / 2 ^ 8 % 2 ^ 8) ∷ ptr)

-- How `tcp_parse_option` ends: with a result and `snd_mss`, with an access outside the options, or not
-- within its fuel.
pub data Parsed : Type 0 where
  ended : ℤ → ℕ → Parsed
  outside : Parsed
  unended : Parsed

-- The loop of `tcp_parse_option`, on fuel, with the bytes left before `payload`.
pub parse_loop : ℕ → ℕ → List ℕ → ℕ → Parsed
parse_loop zero left ptr mss = unended
parse_loop (suc fuel) zero ptr mss = ended (pos 0) mss
parse_loop (suc fuel) (suc left) [] mss = outside
parse_loop (suc fuel) (suc left) (type ∷ ptr) mss = elim (type == opt_end) [
  | true ↦ ended (pos 0) mss
  | false ↦ elim (type == opt_nop) [
    | true ↦ parse_loop fuel left ptr mss
    | false ↦ elim ptr [
      | [] ↦ outside
      | size ∷ value ↦ elim (type == opt_mss) [
        | true ↦ elim (size == 4) [
          | false ↦ ended (neg eoption) mss
          | true ↦ elim (load_u16 value) [
            | none ↦ outside
            | some v ↦ parse_loop fuel (suc left - size) (drop size (type ∷ size ∷ value)) (htons v)
          ]
        ]
        | false ↦ parse_loop fuel (suc left - size) (drop size (type ∷ size ∷ value)) mss
      ]
    ]
  ]
]

-- `tcp_parse_option` of the options of a header of `len` words, which begins 20 bytes before them.
pub tcp_parse_option : ℕ → ℕ → List ℕ → ℕ → Parsed
tcp_parse_option fuel len options mss = parse_loop fuel (len * 4 - 20) options mss

-- What `tcp_write_option` leaves: its result, `len`, and the options.
pub record Written : Type 0 where
  pub result : ℕ
  pub len : ℕ
  pub options : List ℕ

-- `tcp_write_option`
pub tcp_write_option : Bool → ℕ → List ℕ → Option Written
tcp_write_option false rcv_mss options =
    some (record { result = 20; len = 20 / 4; options = options })
tcp_write_option true rcv_mss [] = none
tcp_write_option true rcv_mss (a ∷ []) = none
tcp_write_option true rcv_mss (a ∷ b ∷ value) = do
  value' ← store_u16 value (htons rcv_mss)
  ending ← memset (drop 2 value') 0 4
  some (record {
    result = 8 + 20;
    len = (20 + 8) / 4;
    options = opt_mss ∷ 4 ∷ take 2 value' ++ ending;
  })

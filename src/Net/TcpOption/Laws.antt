-- ===== src/Net/TcpOption/Laws.antt =====
-- Writing and parsing options.
use onix.Base.{
  ℕ, zero, suc, ◌+◌, ◌-◌, ◌*◌, ◌/◌, ◌%◌, ◌^◌, ◌≤◌, ◌<◌, ◌≡◌, refl, true, some, List, [], ◌∷◌,
  length, drop, arith,
}
use onix.Base.Int.{pos}
use onix.Libc.Memory.Laws.{memset-replicate}
use onix.Net.TcpOption.{
  htons, ended, unended, load_u16, store_u16, parse_loop, tcp_parse_option, Written,
  tcp_write_option,
}

htons-htons : (s : ℕ) → s < 2 ^ 16 → htons (htons s) ≡ s
unfolding htons
htons-htons s h = omega arith

load-store : (v : ℕ) → v < 2 ^ 16 → v % 2 ^ 8 + v / 2 ^ 8 % 2 ^ 8 * 2 ^ 8 ≡ v
load-store v h = omega arith

htons-lt : (s : ℕ) → htons s < 2 ^ 16
unfolding htons
htons-lt s = omega arith

-- With room for the 8 bytes of its options, `tcp_write_option` of a SYN returns, and
-- `tcp_parse_option` of what it wrote takes the sender's `rcv_mss` for `snd_mss`, in two rounds.
pub tcp_parse_option-tcp_write_option :
    (options : List ℕ) (rcv_mss mss fuel : ℕ)
    → rcv_mss < 2 ^ 16
    → 8 ≤ length options
    → (w : Written) × (tcp_write_option true rcv_mss options ≡ some w)
      × (tcp_parse_option (suc (suc fuel)) w.len w.options mss ≡ ended (pos 0) rcv_mss)
unfolding tcp_write_option tcp_parse_option parse_loop store_u16 load_u16
tcp_parse_option-tcp_write_option [] m mss fuel h room = absurd (omega arith)
tcp_parse_option-tcp_write_option (a ∷ []) m mss fuel h room = absurd (omega arith)
tcp_parse_option-tcp_write_option (a ∷ b ∷ []) m mss fuel h room = absurd (omega arith)
tcp_parse_option-tcp_write_option (a ∷ b ∷ c ∷ []) m mss fuel h room = absurd (omega arith)
tcp_parse_option-tcp_write_option (a ∷ b ∷ c ∷ d ∷ r) m mss fuel h room =
    let cleared = memset-replicate r 0 4 (omega arith) in
    let back : htons (htons m % 2 ^ 8 + htons m / 2 ^ 8 % 2 ^ 8 * 2 ^ 8) ≡ m =
      rw (load-store (htons m) (htons-lt m)) (htons-htons m h) in
    (
      record {
        result = 28;
        len = 7;
        options = 2 ∷ 4 ∷ (htons m % 2 ^ 8) ∷ (htons m / 2 ^ 8 % 2 ^ 8) ∷ 0 ∷ 0 ∷ 0 ∷ 0 ∷ drop 4 r;
      },
      rw cleared refl,
      rw back refl,
    )

hang_loop :
    (fuel left type : ℕ) (r : List ℕ) (mss : ℕ)
    → 0 < left
    → 3 ≤ type
    → parse_loop fuel left (type ∷ 0 ∷ r) mss ≡ unended
unfolding parse_loop
hang_loop zero left type r mss l h = refl
hang_loop (suc fuel) zero type r mss l h = absurd (omega arith)
hang_loop (suc fuel) (suc left) type r mss l h =
    let e : suc left - 0 ≡ suc left = omega arith in
    ground (arith, e, hang_loop fuel (suc left) type r mss l h)

-- When the options begin with one of size 0 that is neither an end, nor padding, nor a segment size,
-- `tcp_parse_option` accesses nothing outside them and does not end: no fuel is enough.
pub tcp_parse_option-unended :
    (fuel len type : ℕ) (r : List ℕ) (mss : ℕ)
    → 6 ≤ len
    → 3 ≤ type
    → tcp_parse_option fuel len (type ∷ 0 ∷ r) mss ≡ unended
unfolding tcp_parse_option
tcp_parse_option-unended fuel len type r mss h k =
    hang_loop fuel (len * 4 - 20) type r mss (omega arith) k

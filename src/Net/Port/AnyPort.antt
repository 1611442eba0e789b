-- ===== src/Net/Port/AnyPort.antt =====
-- Asking for any port: `port_get` of port 0.
use onix.Base.{
  ℕ, zero, suc, ◌+◌, ◌-◌, ◌%◌, ◌^◌, ◌≤◌, ◌<◌, ◌≡◌, ◌≢◌, ◌∙◌, true, false, some, ℕ_discrete, arith,
}
use onix.Base.Int.{pos}
use onix.Libc.Bitmap.{Bitmap, test}
use onix.Libc.Bitmap.Bits.{at, written}
use onix.Net.Port.{next_port, port_get}
use onix.Net.Port.Named.{IsPortMap, test_port, set_port, written-IsPortMap, at_port}

-- `p` is the first free port from `q` on.
abbrev pub FirstFree : Bitmap → ℕ → ℕ → Type 0
FirstFree m q p = (at m p ≡ 0) × ((i : ℕ) → q ≤ i → i < p → at m i ≢ 0)

next_port-FirstFree :
    {m : Bitmap} (fuel q p : ℕ)
    → IsPortMap m
    → q ≤ p
    → p < 2 ^ 16
    → p - q < fuel
    → FirstFree m q p
    → next_port fuel m q ≡ some ((p + 1) % 2 ^ 16)
unfolding next_port
next_port-FirstFree zero q p v lo hi h f = absurd (omega arith)
next_port-FirstFree (suc fuel) q p v lo hi h f = elim (ℕ_discrete q p) [
  | yes e ↦ ground (arith, test_port v q)
  | no ne ↦
      let next : (q + 1) % 2 ^ 16 ≡ q + 1 = omega arith in
      ground (
        arith,
        test_port v q,
        f.1 q,
        next,
        next_port-FirstFree fuel (q + 1) p v (omega arith) hi (omega arith)
            (f.0, λ i l r. f.1 i (omega arith) r),
      )
]

-- `port_get` of port 0 tests the ports from 4096 on, and where `p` is the first free one it returns
-- and marks not `p` but the port after it, modulo 65536.
pub port_get_any :
    {m : Bitmap} (p : ℕ)
    → IsPortMap m
    → 4096 ≤ p
    → p < 2 ^ 16
    → FirstFree m 4096 p
    → port_get m 0 ≡ some (pos ((p + 1) % 2 ^ 16), written m ((p + 1) % 2 ^ 16) true)
unfolding port_get
port_get_any {m} p v lo hi f = rw (
  next_port-FirstFree (2 ^ 16) 4096 p v lo hi (omega arith) f,
  set_port v ((p + 1) % 2 ^ 16) true (omega arith),
)

-- Where port `p` is the first free one from 4096 on and the port after it is taken, `port_get` of
-- port 0 hands that taken port out a second time and leaves `p` free.
pub port_get_any-taken :
    {m : Bitmap} (p : ℕ)
    → IsPortMap m
    → 4096 ≤ p
    → p + 1 < 2 ^ 16
    → FirstFree m 4096 p
    → test m (p + 1) ≡ some true
    → (m' : Bitmap) × (port_get m 0 ≡ some (pos (p + 1), m')) × (test m' p ≡ some false)
port_get_any-taken {m} p v lo hi f taken =
    let next : (p + 1) % 2 ^ 16 ≡ p + 1 = omega arith in
    (
      written m (p + 1) true,
      rw next at (port_get_any p v lo (omega arith) f),
      test_port (written-IsPortMap v (p + 1) true) p (omega arith)
          ∙ ground (arith, at_port v (p + 1) p true hi),
    )

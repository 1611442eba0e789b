-- ===== src/Net/Port/Named.antt =====
-- Asking for a port by its number, and giving it back.
use onix.Base.{
  ℕ, ◌+◌, ◌^◌, ◌<◌, ◌≡◌, ◌≢◌, ◌∙◌, ◌⊎◌, inl, inr, refl, Bool, true, false, some, ℕ_discrete, ◌==◌,
  if◌then◌else◌, arith,
}
use onix.Base.Int.{ℤ, pos, neg}
use onix.Libc.Bitmap.{Bitmap, test, set_bit}
use onix.Libc.Bitmap.Bits.{
  IsValid, at, test-at, written, set_bit-written, written-IsValid, at-written,
}
use onix.Net.Port.{eoccupied, port_get, port_put}

-- The map that `port_init` makes room for: two pages, from port 0 on.
pub record IsPortMap (m : Bitmap) : Type 0 where
  pub valid : IsValid m
  pub pages : m.length ≡ 8192
  pub from_zero : m.offset ≡ 0

module _ {m : Bitmap} (v : IsPortMap m) where
  pub test_port : (p : ℕ) → p < 2 ^ 16 → test m p ≡ some (if at m p == 0 then false else true)
  test_port p h =
      let place : m.offset + p ≡ p = omega (arith, v.from_zero) in
      let read : test m (m.offset + p) ≡ some (if at m p == 0 then false else true) =
        test-at p v.valid (omega (arith, v.pages)) ∙ ground arith in
      rw place at read

  pub set_port : (p : ℕ) (value : Bool) → p < 2 ^ 16 → set_bit m p value ≡ some (written m p value)
  set_port p value h =
      let place : m.offset + p ≡ p = omega (arith, v.from_zero) in
      let wrote = set_bit-written m p value (omega (arith, v.pages, v.valid.storage)) in
      rw place at wrote

  pub written-IsPortMap : (p : ℕ) (value : Bool) → IsPortMap (written m p value)
  written-IsPortMap p value = record {
    valid = written-IsValid p value v.valid;
    pages = v.pages;
    from_zero = v.from_zero;
  }

  pub at_port :
      (p q : ℕ) (value : Bool)
      → p < 2 ^ 16
      → at (written m p value) q ≡ (if p == q then (if value then 1 else 0) else at m q)
  at_port p q value h = at-written m p q value (omega (arith, v.pages, v.valid.storage))

-- The outcome of `port_get` for a port that is named: a free port is returned, taken from then on,
-- with all others as they were; a taken one is refused with the map as it was.
abbrev pub Granted : Bitmap → ℕ → ℤ × Bitmap → Type 0
Granted m port (r, m') =
    ((at m port ≡ 0)
      × (r ≡ pos port)
      × IsPortMap m'
      × ((q : ℕ) → at m' q ≡ (if port == q then 1 else at m q)))
    ⊎ ((at m port ≢ 0) × (r ≡ neg eoccupied) × (m' ≡ m))

module _ {m : Bitmap} (v : IsPortMap m) (port : ℕ) (named : 0 < port) (small : port < 2 ^ 16) where
  get-free : at m port ≡ 0 → port_get m port ≡ some (pos port, written m port true)
  unfolding port_get
  get-free free = ground (arith, test_port v port small, set_port v port true small)

  -- `port_get` for a port other than 0 returns: a taken port is refused with `-EOCCUPIED` and the
  -- map stays as it was, a free one is returned and exactly its bit is set.
  pub port_get-Granted : (r : ℤ × Bitmap) × (port_get m port ≡ some r) × Granted m port r
  unfolding port_get
  port_get-Granted = elim (ℕ_discrete (at m port) 0) [
    | yes free ↦ (
      (pos port, written m port true),
      get-free free,
      inl (
        free,
        refl,
        written-IsPortMap v port true,
        λ q. ground (arith, at_port v port q true small),
      ),
    )
    | no taken ↦
        ((neg eoccupied, m), ground (arith, test_port v port small), inr (taken, refl, refl))
  ]

  put-taken : at m port ≢ 0 → port_put m port ≡ some (written m port false)
  unfolding port_put
  put-taken taken = ground (arith, test_port v port small, set_port v port false small)

-- A free port that `port_get` is asked for by its number can be given back: `port_put` accepts it,
-- and then every port is as it was before.
pub port_put-port_get :
    {m : Bitmap} (port : ℕ)
    → IsPortMap m
    → 0 < port
    → port < 2 ^ 16
    → at m port ≡ 0
    → (m' m'' : Bitmap) × (port_get m port ≡ some (pos port, m'))
      × (port_put m' port ≡ some m'')
      × IsPortMap m''
      × ((q : ℕ) → at m'' q ≡ at m q)
port_put-port_get {m} port v named small free =
    let m' = written m port true in
    let v' = written-IsPortMap v port true in
    (
      m',
      written m' port false,
      get-free v port named small free,
      put-taken v' port named small (ground (arith, at_port v port port true small)),
      written-IsPortMap v' port false,
      λ q. ground (arith, at_port v port q true small, at_port v' port q false small),
    )

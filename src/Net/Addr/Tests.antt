-- ===== src/Net/Addr/Tests.antt =====
-- The address 192.168.0.33.
use onix.Base.{◌+◌, ◌*◌, ◌^◌, ◌≡◌, some, ◌∷◌, [], arith}
use onix.Base.Int.{pos}
use onix.Net.Addr.{dot, inet_aton}
use onix.Net.Addr.Parse.{written, inet_aton-written}

inet_aton-written_example :
    inet_aton (written 192 (dot ∷ written 168 (dot ∷ written 0 (dot ∷ written 33 [])))) 77
    ≡ some (pos 0, 192 + 168 * 2 ^ 8 + 0 * 2 ^ 16 + 33 * 2 ^ 24)
inet_aton-written_example =
    inet_aton-written 192 168 0 33 77 (omega arith) (omega arith) (omega arith) (omega arith)
      (omega arith)

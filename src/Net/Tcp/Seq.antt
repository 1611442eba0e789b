-- ===== src/Net/Tcp/Seq.antt =====
-- The order of sequence numbers, against the order of places in the stream.
use onix.Base.{ℕ, ◌+◌, ◌%◌, ◌^◌, ◌<◌, ◌≡◌, ltb, leb, arith}
use onix.Net.Tcp.{seq_lt, seq_leq}

-- Two places of a stream less than 2 ^ 31 apart are in the order of their sequence numbers, which are
-- the places modulo 2 ^ 32.
pub seq_leq-places :
    (p q : ℕ) → p < q + 2 ^ 31 → q < p + 2 ^ 31 → seq_leq (p % 2 ^ 32) (q % 2 ^ 32) ≡ leb p q
seq_leq-places p q h k = ground arith

pub seq_lt-places :
    (p q : ℕ) → p < q + 2 ^ 31 → q < p + 2 ^ 31 → seq_lt (p % 2 ^ 32) (q % 2 ^ 32) ≡ ltb p q
seq_lt-places p q h k = ground arith

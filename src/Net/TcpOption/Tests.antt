-- ===== src/Net/TcpOption/Tests.antt =====
-- The theorems of tcp_option.c at concrete headers.
use onix.Base.{◌≡◌, true, some, [], ◌∷◌, replicate, arith}
use onix.Base.Int.{pos}
use onix.Net.TcpOption.{Written, ended, unended, tcp_parse_option, tcp_write_option}
use onix.Net.TcpOption.Laws.{tcp_parse_option-unended, tcp_parse_option-tcp_write_option}

tcp_parse_option-tcp_write_option_example :
    (w : Written) × (tcp_write_option true 1460 (replicate 8 170) ≡ some w)
    × (tcp_parse_option 2 w.len w.options 536 ≡ ended (pos 0) 1460)
tcp_parse_option-tcp_write_option_example =
    tcp_parse_option-tcp_write_option (replicate 8 170) 1460 536 0 (omega arith) (omega arith)

-- A timestamp option of size 0, in a header of six words.
tcp_parse_option-unended_example : tcp_parse_option 1000 6 (8 ∷ 0 ∷ 0 ∷ 0 ∷ []) 536 ≡ unended
tcp_parse_option-unended_example =
    tcp_parse_option-unended 1000 6 8 (0 ∷ 0 ∷ []) 536 (omega arith) (omega arith)

-- ===== src/Net/Tcp/Process/Transitions.antt =====
-- A received segment moves one connection, along one of the moves.
use onix.Net.Tcp.Process.Moves.{Moves}
use onix.Net.Tcp.Stack.{Stack}

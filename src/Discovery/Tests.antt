-- ===== src/Discovery/Tests.antt =====
-- Examples for the theorems on src/discovery.cpp.
use fring.Common.{◌≡◌, refl, arith, [], ◌∷◌, ◌++◌, ok}
use fring.Common.Text.{codes}
use fring.NodeTable.{make_table}
use fring.Discovery.{Discovery, cmd_ping, cmd_pong, receive, receive_pong}
use fring.Discovery.Commands.{receive-command, receive_ignores_command}

abbrev idle : Discovery
idle = record { node_table = make_table (codes "abcdefgh"); sent = [] }

receive-command_example :
    (receive 5 (codes "ip") 80 (codes "12345678" ++ cmd_ping ∷ []) idle
      ≡ ok (record idle {
        sent =
            idle.sent
            ++ record {
              ip = codes "ip";
              port = 80;
              text = idle.node_table.self_id ++ cmd_pong ∷ [];
            }
              ∷ [];
      }))
    × (receive 5 (codes "ip") 80 (codes "12345678" ++ cmd_pong ∷ []) idle
        ≡ receive_pong 5 (codes "12345678") (codes "ip") 80 idle)
receive-command_example = receive-command 5 (codes "ip") 80 (codes "12345678") idle refl

receive_ignores_command_example :
    receive 5 (codes "ip") 80 (codes "00000000100000000000000000000002" ++ cmd_ping ∷ []) idle
    ≡ receive 5 (codes "ip") 80 (codes "00000000100000000000000000000002" ++ cmd_pong ∷ []) idle
receive_ignores_command_example =
    receive_ignores_command 5 (codes "ip") 80 (codes "00000000100000000000000000000002") cmd_ping
      cmd_pong idle (omega arith)

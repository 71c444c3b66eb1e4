-- ===== src/Evaluation/Server/Tests.antt =====
-- The server at concrete messages.
use fring.Common.{◌≡◌, refl, Bool, true, List, [], ◌∷◌, ◌++◌, some, ok, All}
use fring.Common.Text.{Bytes, codes}
use fring.Evaluation.{init, Protobuf, message}
use fring.Evaluation.Server.{NodeDatabase, EvalServer, make_eval_server, handle_table, receive}
use fring.Evaluation.Server.Pages.{Entry, paged, concat, IsPage, all_to_all}
use fring.Evaluation.Server.Pages.Chunks.{handle_table_lem}
use fring.Evaluation.Server.Registration.{with_db, Grown, registered, receive_lem}

-- every text is a registration from the ports 7000 and 7001
abbrev registering : Protobuf
registering = record {
  serialize = λ msg. some [];
  parse = λ text.
      some
        (record (message init) { init = record { bootstrap_port = 7000; broadcast_port = 7001 } });
}

abbrev in_order : NodeDatabase → NodeDatabase
in_order db = db

abbrev always : Bytes → Bool
always file = true

abbrev one_node : NodeDatabase
one_node = (0, record { ip = codes "10.0.0.1"; bootstrap_port = 7000; broadcast_port = 7001 }) ∷ []

abbrev running : EvalServer
running = record (make_eval_server (codes "log")) { has_server = true; db = some one_node }

handle_table_lem_example :
    (chunks : List (List Entry)) × (concat chunks ≡ in_order one_node)
    × All IsPage chunks
    × (handle_table registering in_order always running
        ≡ ok (record running {
          sent = running.sent ++ all_to_all registering (in_order one_node) (paged chunks);
        }))
unfolding make_eval_server
handle_table_lem_example =
    handle_table_lem registering in_order always running one_node refl refl refl

receive_lem_example :
    Grown one_node
      (registered (codes "10.0.0.2") (registering.parse []))
      (receive registering in_order always (codes "10.0.0.2") 7000 [] (with_db running one_node))
receive_lem_example =
    receive_lem registering in_order always (codes "10.0.0.2") running one_node (refl, tt) 7000 []

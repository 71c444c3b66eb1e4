-- ===== src/Evaluation/Client/ConfiguredTests.antt =====
-- An evaluation of three nodes, of which the last takes its configuration.
use fring.Common.{
  ℕ, ◌≡◌, refl, arith, Bool, true, false, List, [], ◌∷◌, ◌++◌, Option, some, none, length,
  get_elem?, ok,
}
use fring.Common.Text.{Bytes, codes}
use fring.NodeTable.{Ptr, Map}
use fring.Ids.{Sizes, Units, units_to_string, unit_sizes, convert_id_string_to_int}
use fring.Ids.Text.{Fits}
use fring.Ids.Number.{parts_of}
use fring.Ids.RoundTrip.{IsRegular}
use fring.Peer.State.{Env, Datagram}
use fring.Peer.Ring.{Deliver}
use fring.Evaluation.{BootstrapMessage, Protobuf, EvalConfig}
use fring.Evaluation.Server.{
  NodeRecord, NodeDatabase, EvalServer, make_eval_server, config_message, handle_config,
}
use fring.Evaluation.ClientState.{EvalClient, make_eval_client}
use fring.Evaluation.Client.{receive}
use fring.Evaluation.Client.Configured.{numbered, configured_as, handle_config-receive}

abbrev sizes : Sizes
sizes = record {
  num_nodes_in_dist = 10;
  num_cnodes_in_dist = 3;
  num_nodes_in_city = 12;
  num_cnodes_in_city = 3;
  num_nodes_in_state = 12;
  num_cnodes_in_state = 3;
  num_nodes_in_country = 9;
  num_cnodes_in_country = 3;
  num_nodes_in_continent = 6;
  num_cnodes_in_continent = 3;
  num_continents = 2;
}

abbrev units : Units
units = record {
  num_dists_in_city = 4;
  num_cities_in_state = 4;
  num_states_in_country = 3;
  num_countries_in_continent = 2;
  num_nodes_in_one_dist = 10;
  num_nodes_in_one_city = 40;
  num_nodes_in_one_state = 160;
  num_nodes_in_one_country = 480;
  num_nodes_in_one_continent = 960;
}

sizes-IsRegular : IsRegular sizes
sizes-IsRegular = record {
  same_contacts = refl;
  dists = omega arith;
  cities = omega arith;
  states = omega arith;
  countries = omega arith;
}

two-Fits : Fits (parts_of units 2)
two-Fits = record {
  continent = omega arith;
  country = omega arith;
  state = omega arith;
  city = omega arith;
  district = omega arith;
  single = omega arith;
}

abbrev run_2 : EvalConfig
run_2 = record { run_id = codes "r2"; str_node_id = []; eval_type = 0; sizes = sizes }

-- a wire format for the configurations of one run: the number of the node
abbrev read : Bytes → Option BootstrapMessage
read [] = none
read (key ∷ text) = some (numbered (config_message run_2) key)

abbrev numbers : Protobuf
numbers = record { serialize = λ msg. some (msg.config.node_id ∷ []); parse = read }

abbrev record_at : Bytes → NodeRecord
record_at ip = record { ip = ip; bootstrap_port = 7000; broadcast_port = 7001 }

abbrev three : NodeDatabase
three =
    (0, record_at (codes "10.0.0.1"))
    ∷ (1, record_at (codes "10.0.0.2"))
    ∷ (2, record_at (codes "10.0.0.3"))
    ∷ []

abbrev server : EvalServer
server = record (make_eval_server (codes "log")) { has_server = true; db = some three }

abbrev client : EvalClient
client = make_eval_client 7000 7001 (codes "10.0.0.9") 6000

abbrev env : Env
env = record { rand = λ n. n; clock = λ n. n; log_opens = λ n. true }

abbrev deliver : Deliver
deliver = λ msg text ids p. ok p

abbrev hash : Bytes → ℕ
hash text = 0

abbrev as_it_is : Map Ptr → Map Ptr
as_it_is m = m

abbrev in_order : NodeDatabase → NodeDatabase
in_order db = db

abbrev never : Bytes → Bool
never file = false

abbrev no_log : Bytes → Bytes → Bytes
no_log run_id node_id = []

handle_config-receive_example :
    (server' : EvalServer) × (new : List Datagram) × (text id : Bytes) × (handle_config numbers
        in_order never run_2 server
      ≡ ok server')
    × (server'.sent ≡ server.sent ++ new)
    × (length new ≡ 3)
    × (get_elem? new 2 ≡ some (record { ip = codes "10.0.0.3"; port = 7000; text = text }))
    × (receive env deliver hash as_it_is numbers no_log 100 (codes "10.0.0.9") 6000 text client
        ≡ ok (configured_as env client run_2 id))
    × (convert_id_string_to_int id sizes ≡ ok 2)
unfolding units_to_string unit_sizes make_eval_client make_eval_server
handle_config-receive_example =
    handle_config-receive numbers in_order never env deliver hash as_it_is no_log 100 server three
      client run_2 units 2 2 (record_at (codes "10.0.0.3")) (codes "10.0.0.9") 6000 refl refl
      sizes-IsRegular refl (omega arith) refl (omega arith) refl two-Fits refl

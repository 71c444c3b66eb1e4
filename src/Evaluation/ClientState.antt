-- ===== src/Evaluation/ClientState.antt =====
-- The state of a client of the evaluation, in evaluation/include/eval_client.h, and the parts of
-- evaluation/src/eval_client.cpp that need nothing from outside: the rows of a page, the reset, the
-- lines of a log.
use fring.Common.{
  ℕ, zero, suc, Bool, true, false, List, [], ◌∷◌, ◌++◌, Option, none, some, ◌==◌, if◌then◌else◌,
  get_elem?, replicate, Result, ok, undefined, or_fail, as_int, ◌>>=◌,
}
use fring.Common.Text.{Bytes, beq}
use fring.Node.{Node, to_port}
use fring.NodeTable.{NodeTable}
use fring.NodeTableEth.{NodeTableEth}
use fring.Ids.{Sizes, convert_id_int_to_string}
use fring.Peer.State.{Datagram, PeerManager}
use fring.Eth.State.{PeerManagerEth}
use fring.Evaluation.{push_log, Table, BootstrapMessage, EvalConfig, message}
use fring.Evaluation.Rings.{NodeList}

-- The fields, with null pointers as `none`, then what happened outside: the datagrams sent, the
-- pauses before a log is sent, and how many random numbers were drawn and times read.
pub record EvalClient : Type 0 where
  pub has_server : Bool
  pub local_bootstrap_port : ℕ
  pub local_broadcast_port : ℕ
  pub bootstrap_server_ip : Bytes
  pub bootstrap_server_port : ℕ
  pub eval_config : Option EvalConfig
  pub node_list : Option NodeList
  pub self : Option Node
  pub node_table : Option NodeTable
  pub peer_manager : Option PeerManager
  pub node_table_eth : Option NodeTableEth
  pub peer_manager_eth : Option PeerManagerEth
  pub sent : List Datagram
  pub delays : List ℕ
  pub draws : ℕ
  pub ticks : ℕ

unfoldable pub make_eval_client : ℕ → ℕ → Bytes → ℕ → EvalClient
make_eval_client bootstrap_port broadcast_port server_ip server_port = record {
  has_server = false;
  local_bootstrap_port = to_port bootstrap_port;
  local_broadcast_port = to_port broadcast_port;
  bootstrap_server_ip = server_ip;
  bootstrap_server_port = to_port server_port;
  eval_config = none;
  node_list = none;
  self = none;
  node_table = none;
  peer_manager = none;
  node_table_eth = none;
  peer_manager_eth = none;
  sent = [];
  delays = [];
  draws = 0;
  ticks = 0;
}

unfoldable pub generate_random_workload : ℕ → Bytes
generate_random_workload workload_size = replicate workload_size b'S'

-- `(*node_list_)[id] = address`: a key that is there gets the new value
unfoldable pub assign : Bytes → Bytes × ℕ → NodeList → NodeList
assign id address [] = (id, address) ∷ []
assign id address ((key, old) ∷ nodes) =
    if beq key id then (key, address) ∷ nodes else (key, old) ∷ assign id address nodes

-- the loop over the rows of a page, the first at `i`; a row that is not there is undefined
unfoldable pub list_rows : Sizes → Table → ℕ → ℕ → NodeList → Result NodeList
list_rows c t zero i nodes = ok nodes
list_rows c t (suc rows) i nodes = do
  table_id ← or_fail (get_elem? t.table_ids i) undefined
  number ← as_int table_id
  str_id ← convert_id_int_to_string number c
  ip ← or_fail (get_elem? t.table_ips i) undefined
  port ← or_fail (get_elem? t.table_ports i) undefined
  list_rows c t rows (suc i) (assign str_id (ip, to_port port) nodes)

-- the reset at the head of the handler of a configuration
unfoldable pub reset : Option EvalConfig → EvalClient → EvalClient
reset none s = s
reset (some old) s =
    if old.eval_type == 0
    then record s { peer_manager = none; node_table = none; self = none }
    else record s { peer_manager_eth = none; node_table_eth = none; self = none }

abbrev pub lines_per_message : ℕ
lines_per_message = 200

-- the lines that `std::getline` reads: `line` is the one begun
unfoldable pub get_lines : Bytes → Bytes → List Bytes
get_lines [] [] = []
get_lines (c ∷ line) [] = (c ∷ line) ∷ []
get_lines line (c ∷ text) =
    let rest = get_lines [] text in
    let longer = get_lines (line ++ c ∷ []) text in if c == 10 then line ∷ rest else longer

-- The log messages that `send_push_log` makes, of one buffer each.
unfoldable pub log_message : Bytes → Bytes → Bytes → BootstrapMessage
log_message run_id node_id buffer = record (message push_log) {
  push_log = record { run_id = run_id; node_id = node_id; log = buffer };
}

abbrev pub listed : Option NodeList → NodeList
listed none = []
listed (some nodes) = nodes

abbrev pub is_none {ℓ} : {A : Type ℓ} → Option A → Bool
is_none none = true
is_none (some a) = false

-- what follows a message, unless the call returned early
abbrev pub and_then : Option EvalClient → EvalClient → (EvalClient → EvalClient) → EvalClient
and_then none s next = s
and_then (some s') s next = next s'

abbrev pub same : EvalClient → EvalClient
same s = s

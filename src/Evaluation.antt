-- ===== src/Evaluation.antt =====
-- evaluation/proto/bootstrap_message.proto and the `EvalConfig` of include/utils.h: what the
-- evaluation server and its clients send to each other. Protocol Buffers turn a message into a text
-- and back; they are a parameter.
pub mod Server
pub mod Rings
pub mod ClientState
pub mod Client
use fring.Common.{
  ltb, ◌&&◌, ◌∷◌, true, int_mod, if◌then◌else◌, Result, ok, err, negative_int, ℕ, ◌%◌, ◌^◌, Bool,
  false, List, [], Option,
}
use fring.Common.Text.{Bytes}
use fring.Ids.{Sizes}

-- `BootstrapMessage::Type`; a number that is none of these is kept.
pub data Kind : Type 0 where
  init config table broadcast pull_log push_log : Kind
  unknown : ℕ → Kind

pub record Init : Type 0 where
  pub bootstrap_port : ℕ
  pub broadcast_port : ℕ

-- `kademlia` is the value of `eval_type`.
pub record Config : Type 0 where
  pub run_id : Bytes
  pub kademlia : Bool
  pub node_id : ℕ
  pub sizes : Sizes

pub record Table : Type 0 where
  pub table_size : ℕ
  pub table_ids : List ℕ
  pub table_ips : List Bytes
  pub table_ports : List ℕ
  pub is_end : Bool

pub record PushLog : Type 0 where
  pub run_id : Bytes
  pub node_id : Bytes
  pub log : Bytes

-- The messages inside that were not set have their default values.
pub record BootstrapMessage : Type 0 where
  pub type : Kind
  pub init : Init
  pub config : Config
  pub table : Table
  pub workload_size : ℕ
  pub pull_run_id : Bytes
  pub push_log : PushLog

-- a `uint32`
abbrev pub to_uint32 : ℕ → ℕ
to_uint32 n = n % 2 ^ 32

abbrev pub empty_table : Table
empty_table = record {
  table_size = 0;
  table_ids = [];
  table_ips = [];
  table_ports = [];
  is_end = false;
}

abbrev pub no_sizes : Sizes
no_sizes = record {
  num_nodes_in_dist = 0;
  num_cnodes_in_dist = 0;
  num_nodes_in_city = 0;
  num_cnodes_in_city = 0;
  num_nodes_in_state = 0;
  num_cnodes_in_state = 0;
  num_nodes_in_country = 0;
  num_cnodes_in_country = 0;
  num_nodes_in_continent = 0;
  num_cnodes_in_continent = 0;
  num_continents = 0;
}

abbrev pub counts_of : Sizes → List ℕ
counts_of c =
    c.num_nodes_in_dist ∷ c.num_cnodes_in_dist ∷ c.num_nodes_in_city ∷ c.num_cnodes_in_city
    ∷ c.num_nodes_in_state ∷ c.num_cnodes_in_state ∷ c.num_nodes_in_country
    ∷ c.num_cnodes_in_country ∷ c.num_nodes_in_continent ∷ c.num_cnodes_in_continent
    ∷ c.num_continents ∷ []

abbrev pub all_ints : List ℕ → Bool
all_ints [] = true
all_ints (n ∷ ns) = ltb n int_mod && all_ints ns

-- the counts of a message, which are `uint32`, as `int`s
abbrev pub int_sizes : Sizes → Result Sizes
int_sizes c = if all_ints (counts_of c) then ok c else err negative_int

-- `BootstrapMessage()` with its type set
abbrev pub message : Kind → BootstrapMessage
message type = record {
  type = type;
  init = record { bootstrap_port = 0; broadcast_port = 0 };
  config = record { run_id = []; kademlia = false; node_id = 0; sizes = no_sizes };
  table = empty_table;
  workload_size = 0;
  pull_run_id = [];
  push_log = record { run_id = []; node_id = []; log = [] };
}

-- `SerializeToString`, which may fail and leave the text as it is, and `ParseFromString`
pub record Protobuf : Type 0 where
  pub serialize : BootstrapMessage → Option Bytes
  pub parse : Bytes → Option BootstrapMessage

-- `struct EvalConfig`
pub record EvalConfig : Type 0 where
  pub run_id : Bytes
  pub str_node_id : Bytes
  pub eval_type : ℕ
  pub sizes : Sizes

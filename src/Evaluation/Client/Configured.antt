-- ===== src/Evaluation/Client/Configured.antt =====
-- The configuration of the server becomes the configuration of each client.
use fring.Common.{
  ℕ, suc, ◌<◌, ◌≡◌, refl, sym, ◌∙◌, ap, arith, Bool, true, false, if◌then◌else◌, ◌==◌, List, [],
  ◌∷◌, ◌++◌, append_assoc, append-nil, map, some, get_elem?, get_elem?-map, length, length-map, ok,
  int_mod, as_int_lem,
}
use native.Mathlib.Nat.{mod-eq_of_lt}
use fring.Common.Text.{Bytes}
use fring.Node.{make_node}
use fring.NodeTable.{Ptr, Map}
use fring.Ids.{Units, units_to_string, convert_id_int_to_string, convert_id_string_to_int}
use fring.Ids.Text.{Fits}
use fring.Ids.Number.{parts_of}
use fring.Ids.RoundTrip.{IsRegular, convert_id_string_to_int-convert_id_int_to_string}
use fring.Peer.State.{Env, Datagram}
use fring.Peer.Ring.{Deliver}
use fring.App.{localhost}
use fring.Evaluation.{BootstrapMessage, Protobuf, EvalConfig, to_uint32, counts_of, all_ints}
use fring.Evaluation.Server.{
  NodeRecord, NodeDatabase, EvalServer, buffer_of, config_message, send_configs, handle_config,
  send_config,
}
use fring.Evaluation.Server.Pages.{Entry}
use fring.Evaluation.ClientState.{EvalClient, reset}
use fring.Evaluation.Client.{on_config, on_message, dispatch, receive}

-- the message with the number of a node, and the datagram for it
abbrev pub numbered : BootstrapMessage → ℕ → BootstrapMessage
numbered msg key = record msg { config = record msg.config { node_id = to_uint32 key } }

abbrev pub numbered_for : Protobuf → BootstrapMessage → Entry → Datagram
numbered_for proto msg e = record {
  ip = e.1.ip;
  port = e.1.bootstrap_port;
  text = buffer_of proto (numbered msg e.0);
}

-- a running server that has a configuration
abbrev ready : EvalServer → BootstrapMessage → EvalServer
ready s msg = record s { has_server = true; eval_config = some msg }

-- the client after the configuration, with its id
abbrev pub configured_as : Env → EvalClient → EvalConfig → Bytes → EvalClient
configured_as env client c id = record (reset client.eval_config client) {
  eval_config = some (record c { str_node_id = id; eval_type = if c.eval_type == 0 then 0 else 1 });
  self = some (make_node (env.clock client.ticks) id localhost client.local_broadcast_port);
  ticks = suc client.ticks;
}

-- the kind of network, as a message carries it
kind_lem :
    (b : Bool) → ◌≡◌ {A = ℕ} (if if b then false else true then 1 else 0) (if b then 0 else 1)
kind_lem true = refl
kind_lem false = refl

module _ (proto : Protobuf) (order : NodeDatabase → NodeDatabase) (opens : Bytes → Bool) where
  -- The configurations go to the nodes in order; they differ in the number alone.
  send_configs-sent :
      (db : NodeDatabase) (msg : BootstrapMessage) (s : EvalServer)
      → (send_configs proto order opens db (ready s msg)).sent
        ≡ s.sent ++ map (numbered_for proto msg) db
  unfolding send_configs send_config
  send_configs-sent [] msg s = sym (append-nil s.sent)
  send_configs-sent (e ∷ db) msg s =
      send_configs-sent db (numbered msg e.0)
        (record s { sent = s.sent ++ numbered_for proto msg e ∷ [] })
      ∙ append_assoc s.sent (numbered_for proto msg e ∷ []) (map (numbered_for proto msg) db)

  module _ (env : Env) (deliver : Deliver) (hash : Bytes → ℕ) (iterate : Map Ptr → Map Ptr)
      (records : Bytes → Bytes → Bytes) (fuel : ℕ) where
    receive-numbered :
        (ip : Bytes) (port : ℕ) (client : EvalClient) (c : EvalConfig) (key : ℕ) (id : Bytes)
        → proto.parse (buffer_of proto (numbered (config_message c) key))
          ≡ some (numbered (config_message c) key)
        → key < int_mod
        → all_ints (counts_of c.sizes) ≡ true
        → convert_id_int_to_string key c.sizes ≡ ok id
        → receive env deliver hash iterate proto records fuel ip port
            (buffer_of proto (numbered (config_message c) key))
            client
          ≡ ok (configured_as env client c id)
    unfolding receive dispatch on_message on_config config_message
    receive-numbered ip port client c key id faithful small ints written =
        let same : to_uint32 key ≡ key = mod-eq_of_lt (omega (arith, small)) in
        ap (λ found. dispatch env deliver hash iterate proto records fuel found client) faithful
        ∙ rw (same, as_int_lem key small, ints, written)
            (ap
              (λ kind. ok (record (configured_as env client c id) {
                eval_config = some (record c { str_node_id = id; eval_type = kind });
              }))
              (kind_lem (c.eval_type == 0)))

    -- What a running server sends for a configuration with regular counts, and what a client makes
    -- of it, if the counts are `int`s and Protocol Buffers give back the configuration they were given: each node is sent one
    -- message, and the client that takes the message for the node with the number `key`, an `int`
    -- whose parts fit, has the configuration of the server with an id that is read as `key`, and no
    -- PeerManager or table of the kind it had before.
    pub handle_config-receive :
        (server : EvalServer) (db : NodeDatabase) (client : EvalClient) (c : EvalConfig) (u : Units)
        (i key : ℕ) (r : NodeRecord) (ip : Bytes) (port : ℕ)
        → server.db ≡ some db
        → server.has_server ≡ true
        → IsRegular c.sizes
        → units_to_string c.sizes ≡ ok u
        → 0 < u.num_nodes_in_one_continent
        → get_elem? (order db) i ≡ some (key, r)
        → key < int_mod
        → all_ints (counts_of c.sizes) ≡ true
        → Fits (parts_of u key)
        → proto.parse (buffer_of proto (numbered (config_message c) key))
          ≡ some (numbered (config_message c) key)
        → (server' : EvalServer) × (new : List Datagram) × (text id : Bytes) × (handle_config proto
              order opens c server
            ≡ ok server')
          × (server'.sent ≡ server.sent ++ new)
          × (length new ≡ length (order db))
          × (get_elem? new i ≡ some (record { ip = r.ip; port = r.bootstrap_port; text = text }))
          × (receive env deliver hash iterate proto records fuel ip port text client
              ≡ ok (configured_as env client c id))
          × (convert_id_string_to_int id c.sizes ≡ ok key)
    unfolding handle_config
    handle_config-receive server db client c u i key r ip port e h regular us pos_units found small
          ints fits faithful =
        let (id, written, size, readback) =
          convert_id_string_to_int-convert_id_int_to_string key c.sizes u regular us pos_units fits
            small in
        let msg = config_message c in
        (
          send_configs proto order opens (order db) (record server { eval_config = some msg }),
          map (numbered_for proto msg) (order db),
          buffer_of proto (numbered msg key),
          id,
          rw e refl,
          ap
                (λ b.
                  (send_configs proto order opens (order db)
                    (record server { eval_config = some msg; has_server = b })).sent)
                h
              ∙ send_configs-sent (order db) msg server,
          length-map (numbered_for proto msg) (order db),
          get_elem?-map (numbered_for proto msg) (order db) i found,
          receive-numbered ip port client c key id faithful small ints written,
          readback,
        )

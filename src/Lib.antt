-- ===== src/Lib.antt =====
-- FRING, a peer-to-peer network whose nodes stand in rings: a ring of nodes for each district,
-- above it rings of the contact nodes of districts, cities, states, countries and continents. A
-- message goes up through contact nodes to the top ring, along a binomial tree within each ring,
-- and down again. This library models the node of that network in C++ and proves what its parts do.
--
-- The parts and their files:
--   Common   the Boolean tests, lists, `int`s, results with faults and byte strings that all parts
--            use. A fault is an exception (out_of_range, invalid_argument, bad_weak_ptr) or undefined
--            behaviour.
--   Decimal  the printing and reading of numbers by the C++ library (setw, to_string, stoi, >>).
--   Params   include/param_constants.h.
--   Node     include/node.h, src/node.cpp.
--   NodeTable  include/node_table.h, src/node_table.cpp: the rings of a node. The operations keep
--            their names. A shared_ptr is an index into a heap of nodes, so two maps may hold one
--            object; Access has the well-formedness and the accessors, Order the places in a ring's
--            vector, Sharing the pings.
--   Message  include/message.h, src/message.cpp: a message, its log line, and the table of messages
--            (Table: what it holds after any run; Csv: the buffer of the log line).
--   Ids      src/utils.cpp: convert_ID_int_to_string and convert_ID_string_to_int.
--   Wire     the packet in src/peer_manager.cpp: what PeerManager::send prints (data_string) and
--            what PeerManager::receive parses (parse_packet).
--   Peer     include/peer_manager.h, src/peer_manager.cpp: State has the state of a PeerManager;
--            Ring has send and broadcast_within_ring; Handlers has the other operations, on_receive
--            and receive. Tree is the broadcast tree on orders, Targets relates the loops to it,
--            Reach follows a whole broadcast in a ring, Logging and Within show what is sent,
--            Delay treats the simulated delay against the parts that two ids share, Regions the
--            parts of ids, Receive the handler of a message, Election and Elected the election of
--            contact nodes.
--   NodeTableEth, Eth  include/node_table_eth.h, src/node_table_eth.cpp, include/peer_manager_eth.h,
--            src/peer_manager_eth.cpp: the gossip of the Ethereum-like network. State, Packet and
--            Gossip have the operations; Members, RoundTrip, Draws, Keeps, Delay and Once the theorems.
--            std::hash is a parameter.
--   Forming  the loops of BaseApp::form_structure in src/app.cpp, which
--            EvalClient::create_hgfr_table repeats: the ring of a district (form_district), a ring
--            above it (form_ring), and the exchange of the contact nodes. Where a node's address
--            comes from is a parameter. Valid, Rounds and Loops treat what the loops keep, Exchange
--            the exchange, Neighbours the predecessor and the successor, Stages the levels, Listed the
--            vector of the district.
--   App      include/app.h, src/app.cpp: the application of the ring network, with the rings level by
--            level. Plans and Faults say when the loops return, Formed treats form_structure,
--            Neighbours and District the ring of the own district, Ordinary the nodes that form no
--            ring above it.
--   FormingEth, AppEth  include/app_eth.h, src/app_eth.cpp, and with them
--            EvalClient::create_kad_table: the numbers of the neighbours and the loops over all ids.
--            Distinct and Draws treat the numbers drawn, Loops the loops over
--            all ids, Collected, Complete and AppEth.Formed the table.
--   Evaluation  evaluation/proto/bootstrap_message.proto and EvalConfig in include/utils.h. Server is
--            evaluation/src/eval_server.cpp (Pages: the node table in pages; Registration: the
--            numbers of the nodes), ClientState and Client are evaluation/src/eval_client.cpp
--            (Configured: the configuration; Paging and Listing: the pages as the client takes them;
--            Logs: the log sent in parts), and Rings its create_hgfr_table (Formed).
--   Discovery  include/discovery.h, src/discovery.cpp: pings and pongs (Commands). The constructor throws
--            (make_discovery); the handlers are treated as if an object had come about.
--
-- How the parts interact: a datagram is parsed (Wire), logged (Message) and handled (Peer), which
-- reads the rings (NodeTable) and sends datagrams. The outside is explicit: a PeerManager carries
-- the lists of datagrams sent, log lines written and delays slept, and `Env` gives the values of
-- rand(), of the clock, and whether the log file opens. The transport is the list of datagrams. An
-- application forms the node table from the node's id and makes a PeerManager over it. In an
-- evaluation the nodes register with the server, which numbers them, sends each its configuration and then all
-- their addresses in pages; with the last page a client forms its table. Protocol Buffers are a
-- parameter: a text for a message, and a message for a text.
--
-- Bounds and fuel: the loops of broadcast_within_ring have 64 rounds, enough for any `int`, as the
-- powers of two double; the sums that they assign to an `int` are checked to fit it, which they
-- do in a ring of at most 2^30 peers. The loop over the commas of a packet has one round more than the text has
-- bytes. A handler that sends to its own node calls itself; on_receive has fuel for the depth of
-- such calls, and a message within a ring needs none. The loops that draw places until enough are
-- different end only by the numbers drawn; their fuel is the number of draws. The loops
-- that form tables have as many rounds as their counts say. A size_t wraps at 2^64, an unsigned
-- short at 2^16; an `int` that overflows is a fault, and a size_t that becomes an `int` keeps its
-- lower 32 bits. The numbers of nodes and the counts are natural numbers; where one arrives as a uint32
-- that would be negative as an `int`, the model stops with the fault negative_int, and what the code
-- would do with it is not modelled. The sums with pow are exact in a double.
--
-- Iteration over an unordered_map or unordered_set is in the order of the list that models it, or in
-- the one that the parameter `iterate` gives; no statement fixes that order.
--
-- Not modelled: the transport over Boost.Asio in src/transport.cpp (sockets and threads); the
-- reading of the arguments of the programs and the commands of the evaluation server's main, but for
-- pull_log_all; what is printed on the console; the directories and the head of the log file; and
-- stop, which only calls the transport.
pub mod Common
pub mod Decimal
pub mod Params
pub mod Node
pub mod NodeTable
pub mod Message
pub mod Ids
pub mod Wire
pub mod Peer
pub mod NodeTableEth
pub mod Eth
pub mod Discovery
pub mod Forming
pub mod App
pub mod FormingEth
pub mod AppEth
pub mod Evaluation

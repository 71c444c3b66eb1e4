-- ===== src/Evaluation/Client/Listing.antt =====
-- The node table of the server, page by page, becomes the node list of the client.
use mathlib.Core.Path.{fun_ext}
use fring.Common.{
  as_int, as_int_lem, int_mod, All, Option, ℕ, suc, ◌<◌, ◌≡◌, refl, sym, ◌∙◌, ap, arith, Bool, true,
  false, if◌then◌else◌, List, [], ◌∷◌, ◌++◌, append_assoc, append-nil, map, some, length,
  length-append, get_elem?, get_elem?-append_at, get_elem?-map, Result, ok, err, ◌>>=◌, >>=-eq-ok,
  >>=-assoc,
}
use fring.Common.Text.{Bytes, beq, beq_iff}
use fring.NodeTable.{Ptr, Map, lookup}
use fring.Node.{to_port}
use fring.Ids.{Sizes, convert_id_int_to_string}
use fring.Peer.State.{Env}
use fring.Peer.Ring.{Deliver}
use fring.Evaluation.{BootstrapMessage, Protobuf, EvalConfig}
use fring.Evaluation.Rings.{NodeList}
use fring.Evaluation.Server.{NodeDatabase, EvalServer, buffer_of, handle_table}
use fring.Evaluation.Server.Pages.{Entry, id_of, ip_of, port_of, page, paged, concat, all_to_all}
use fring.Evaluation.Server.Pages.Chunks.{handle_table_lem}
use fring.Evaluation.ClientState.{EvalClient, assign, list_rows, listed}
use fring.Evaluation.Client.{on_table, on_message, dispatch, receive, start_evaluation}

-- the id of the node of an entry
written : Sizes → Entry → Result Bytes
written c e = as_int (id_of e) >>= λ number. convert_id_int_to_string number c

-- The number of the entry is an `int` and can be written as an id.
abbrev pub IsWritten : Sizes → Entry → Type 0
IsWritten c e =
    (id_of e < int_mod) × ((id : Bytes) × (convert_id_int_to_string (id_of e) c ≡ ok id))

abbrev pub is_id : Result Bytes → Bytes → Bool
is_id (err fault) x = false
is_id (ok id) x = beq id x

-- The address of an id: that of the last entry whose number is written as the id, and where none is
-- the one that it had before.
abbrev pub latest : Sizes → Bytes → List Entry → Option (Bytes × ℕ) → Option (Bytes × ℕ)
latest c x [] old = old
latest c x (e ∷ entries) old = latest c x entries (
    if is_id (convert_id_int_to_string (id_of e) c) x
    then some (ip_of e, to_port (port_of e))
    else old)

-- The node list after the entries of the server: the id of each number gets its address.
abbrev listed_all : Sizes → List Entry → NodeList → Result NodeList
unfolding written
listed_all c [] nodes = ok nodes
listed_all c (e ∷ entries) nodes = written c e >>= λ str_id.
    listed_all c entries (assign str_id (ip_of e, to_port (port_of e)) nodes)

lookup-assign :
    (x id : Bytes) (address : Bytes × ℕ) (nodes : NodeList)
    → lookup x (assign id address nodes) ≡ (if beq id x then some address else lookup x nodes)
unfolding lookup assign
lookup-assign x id address [] = refl
lookup-assign x id address ((key, old) ∷ nodes) =
    ground (arith, lookup-assign x id address nodes, beq_iff key id, beq_iff key x, beq_iff id x)

listed_all-latest :
    (c : Sizes) (entries : List Entry) (nodes : NodeList)
    → All (IsWritten c) entries
    → (nodes' : NodeList) × (listed_all c entries nodes ≡ ok nodes')
      × ((x : Bytes) → lookup x nodes' ≡ latest c x entries (lookup x nodes))
unfolding listed_all written
listed_all-latest c [] nodes w = (nodes, refl, λ x. refl)
listed_all-latest c (e ∷ entries) nodes ((small, (id, we)), ws) =
    let address : Bytes × ℕ = (ip_of e, to_port (port_of e)) in
    let (nodes', all, found) = listed_all-latest c entries (assign id address nodes) ws in
    (
      nodes',
      rw (as_int_lem (id_of e) small, we) all,
      λ x. rw we (found x ∙ ap (latest c x entries) (lookup-assign x id address nodes)),
    )

listed_all-append :
    (c : Sizes) (xs ys : List Entry) (nodes : NodeList)
    → listed_all c (xs ++ ys) nodes ≡ (listed_all c xs nodes >>= listed_all c ys)
unfolding listed_all
listed_all-append c [] ys nodes = refl
listed_all-append c (e ∷ xs) ys nodes =
    let call = written c e in
    let rest = λ (str_id : Bytes). assign str_id (ip_of e, to_port (port_of e)) nodes in
    ap (λ next. call >>= next) (fun_ext (λ str_id. listed_all-append c xs ys (rest str_id)))
    ∙ sym (>>=-assoc call (λ str_id. listed_all c xs (rest str_id)) (listed_all c ys))

-- The loop over the rows of a page lists its entries.
list_rows_from :
    (c : Sizes) (whole : List Entry) (is_last : Bool) (pre rest : List Entry) (i : ℕ)
    (nodes : NodeList)
    → whole ≡ pre ++ rest
    → i ≡ length pre
    → list_rows c (page is_last whole).table (length rest) i nodes ≡ listed_all c rest nodes
unfolding list_rows listed_all written
list_rows_from c whole is_last pre [] i nodes e h = refl
list_rows_from c whole is_last pre (r ∷ rest) i nodes e h =
    let found : get_elem? whole i ≡ some r = rw (e, h) (get_elem?-append_at pre r rest) in
    let convert : ℕ → Result Bytes = λ number. convert_id_int_to_string number c in
    let next : Bytes → Result NodeList = λ str_id.
      list_rows c (page is_last whole).table (length rest) (suc i)
        (assign str_id (ip_of r, to_port (port_of r)) nodes) in
    rw
      (
        get_elem?-map id_of whole i found,
        get_elem?-map ip_of whole i found,
        get_elem?-map port_of whole i found,
      )
      (sym (>>=-assoc (as_int (id_of r)) convert next)
        ∙ ap (λ next. written c r >>= next)
            (fun_ext (λ str_id.
              list_rows_from c whole is_last (pre ++ r ∷ []) rest (suc i)
                (assign str_id (ip_of r, to_port (port_of r)) nodes)
                (e ∙ sym (append_assoc pre (r ∷ []) rest))
                (omega (arith, h, length-append pre (r ∷ []))))))

list_rows_lem :
    (c : Sizes) (chunk : List Entry) (is_last : Bool) (nodes : NodeList)
    → list_rows c (page is_last chunk).table (length chunk) 0 nodes ≡ listed_all c chunk nodes
list_rows_lem c chunk is_last nodes = list_rows_from c chunk is_last [] chunk 0 nodes refl refl

abbrev pub configured : EvalClient → EvalConfig → EvalClient
configured s c = record s { eval_config = some c }

abbrev pub with_nodes : EvalClient → NodeList → EvalClient
with_nodes s nodes = record s { node_list = some nodes }

module _ (env : Env) (deliver : Deliver) (hash : Bytes → ℕ) (iterate : Map Ptr → Map Ptr)
    (proto : Protobuf) (records : Bytes → Bytes → Bytes) (fuel : ℕ) where
  -- the texts that arrive, one after the other
  abbrev pub receive_all : Bytes → ℕ → List Bytes → EvalClient → Result EvalClient
  receive_all ip port [] s = ok s
  receive_all ip port (text ∷ texts) s =
      receive env deliver hash iterate proto records fuel ip port text s
      >>= receive_all ip port texts

  abbrev pub start : EvalConfig → NodeList → EvalClient → Result EvalClient
  start = start_evaluation env deliver hash iterate proto records fuel

  module _
      (faithful : (chunk : List Entry) (is_last : Bool)
        → proto.parse (buffer_of proto (page is_last chunk)) ≡ some (page is_last chunk))
      (ip : Bytes) (port : ℕ) where
    after_page : EvalConfig → Bool → EvalClient → NodeList → Result EvalClient
    after_page c is_last s nodes =
        let s' = configured (with_nodes s nodes) c in if is_last then start c nodes s' else ok s'

    receive-page :
        (c : EvalConfig) (chunk : List Entry) (is_last : Bool) (s : EvalClient)
        → receive env deliver hash iterate proto records fuel ip port
            (buffer_of proto (page is_last chunk))
            (configured s c)
          ≡ (listed_all c.sizes chunk (listed s.node_list) >>= after_page c is_last s)
    unfolding receive dispatch on_message on_table after_page
    receive-page c chunk is_last s =
        ap (λ found. dispatch env deliver hash iterate proto records fuel found (configured s c))
          (faithful chunk is_last)
        ∙ ap (λ rows. rows >>= after_page c is_last s)
            (list_rows_lem c.sizes chunk is_last (listed s.node_list))

    ends : (r : Result EvalClient) → (r >>= receive_all ip port []) ≡ r
    ends (err fault) = refl
    ends (ok s) = refl

    receive_pages :
        (c : EvalConfig) (first : List Entry) (chunks : List (List Entry)) (s : EvalClient)
        (nodes : NodeList)
        → listed_all c.sizes (concat (first ∷ chunks)) (listed s.node_list) ≡ ok nodes
        → receive_all ip port (map (buffer_of proto) (paged (first ∷ chunks))) (configured s c)
          ≡ start c nodes (configured (with_nodes s nodes) c)
    unfolding after_page
    receive_pages c first [] s nodes e =
        let all : listed_all c.sizes first (listed s.node_list) ≡ ok nodes =
          ap (λ entries. listed_all c.sizes entries (listed s.node_list)) (sym (append-nil first))
          ∙ e in
        ap (λ r. r >>= receive_all ip port []) (receive-page c first true s)
        ∙ ap (λ r. (r >>= after_page c true s) >>= receive_all ip port []) all
        ∙ ends (start c nodes (configured (with_nodes s nodes) c))
    receive_pages c first (next ∷ chunks) s nodes e =
        let (mid, e1, e2) = >>=-eq-ok (listed_all c.sizes first (listed s.node_list)) _ (
          sym (listed_all-append c.sizes first (concat (next ∷ chunks)) (listed s.node_list))
          ∙ e) in
        let rest = receive_all ip port (map (buffer_of proto) (paged (next ∷ chunks))) in
        ap (λ r. r >>= rest) (receive-page c first false s)
        ∙ ap (λ r. (r >>= after_page c false s) >>= rest) e1
        ∙ receive_pages c next chunks (with_nodes s mid) nodes e2

    -- What a running server with a node sends for its node table, and what a configured client makes
    -- of it, if Protocol Buffers give back the pages that they were given and every number in the
    -- database is an `int` that can be written as an id: the client takes the pages one after the
    -- other, and with the last one, not before, it starts the evaluation with a node list in which
    -- each id has the address of the last entry whose number is written as it, and an id of no entry
    -- the address that it had before, if it had one.
    pub handle_table-receive :
        (order : NodeDatabase → NodeDatabase) (opens : Bytes → Bool) (server : EvalServer)
        (db : NodeDatabase) (client : EvalClient) (c : EvalConfig)
        → server.db ≡ some db
        → server.has_server ≡ true
        → length (order db) ≡ length db
        → 0 < length db
        → All (IsWritten c.sizes) (order db)
        → (pages : List BootstrapMessage) × (nodes : NodeList) × (handle_table proto order opens
              server
            ≡ ok (record server { sent = server.sent ++ all_to_all proto (order db) pages }))
          × (receive_all ip port (map (buffer_of proto) pages) (configured client c)
              ≡ start c nodes (configured (with_nodes client nodes) c))
          × ((x : Bytes)
              → lookup x nodes ≡ latest c.sizes x (order db) (lookup x (listed client.node_list)))
    handle_table-receive order opens server db client c e h same some_node w =
        let (chunks, joined, sized, sent) = handle_table_lem proto order opens server db e h same in
        let (nodes, all, found) =
          listed_all-latest c.sizes (order db) (listed client.node_list) w in
        (paged chunks, nodes, sent, received nodes all chunks joined, found)
      where
        received :
            (nodes : NodeList)
            → listed_all c.sizes (order db) (listed client.node_list) ≡ ok nodes
            → (chunks : List (List Entry)) → concat chunks ≡ order db
            → receive_all ip port (map (buffer_of proto) (paged chunks)) (configured client c)
              ≡ start c nodes (configured (with_nodes client nodes) c)
        received nodes all [] j = absurd (omega (arith, ap length j, same, some_node))
        received nodes all (first ∷ chunks) j =
            receive_pages c first chunks client nodes
              (ap (λ l. listed_all c.sizes l (listed client.node_list)) j ∙ all)

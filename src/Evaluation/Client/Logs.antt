-- ===== src/Evaluation/Client/Logs.antt =====
-- The log of a client, from its file to the file of the server.
use fring.Common.{
  ℕ, ◌≡◌, refl, sym, ◌∙◌, ap, arith, inl, inr, Bool, Bool-cases, true, List, [], ◌∷◌, ◌++◌,
  append_assoc, append-nil, map, some, All, ◌==◌, Result, ok, ◌>>=◌,
}
use fring.Common.Text.{Bytes}
use fring.NodeTable.{Ptr, Map}
use fring.Peer.State.{Env}
use fring.Peer.Ring.{Deliver}
use fring.Evaluation.{BootstrapMessage, Protobuf}
use fring.Evaluation.Server.{
  NodeDatabase, EvalServer, buffer_of, log_name, receive, dispatch, on_message,
}
use fring.Evaluation.Server.Pages.{concat}
use fring.Evaluation.ClientState.{EvalClient, log_message, get_lines}
use fring.Evaluation.Client.{push_lines, who_logs, send_push_log}
use fring.Evaluation.Client.Paging.{
  joined, joined-append, IsPart, log_messages, to_server, having_sent, push_lines_lem,
}

-- The lines of a text that ends with a line end are the text again.
joined-get_lines :
    (line t : Bytes) → joined (get_lines line (t ++ 10 ∷ [])) ≡ line ++ (t ++ 10 ∷ [])
unfolding get_lines
joined-get_lines line [] = refl
joined-get_lines line (c ∷ t) =
    let ended = joined-get_lines [] t in
    let longer = joined-get_lines (line ++ c ∷ []) t in
    elim (Bool-cases (c == 10)) [
      | inl z ↦
          let is_end : c ≡ 10 = ground (arith, z) in
          rw z (ap (λ l. line ++ 10 ∷ l) ended ∙ ap (λ b. line ++ b ∷ (t ++ 10 ∷ [])) (sym is_end))
      | inr z ↦ rw z (longer ∙ append_assoc line (c ∷ []) (t ++ 10 ∷ []))
    ]

-- what was appended, in order
abbrev pub content : List (Bytes × Bytes) → Bytes
content [] = []
content ((file, text) ∷ written) = text ++ content written

abbrev pub IsTo : Bytes → Bytes × Bytes → Type 0
IsTo file e = e.0 ≡ file

module _ (proto : Protobuf) (order : NodeDatabase → NodeDatabase) (opens : Bytes → Bool)
    (ip : Bytes) (port : ℕ) where
  -- the server takes the texts, one after the other
  abbrev pub take_all : List Bytes → EvalServer → Result EvalServer
  take_all [] s = ok s
  take_all (text ∷ texts) s = receive proto order opens ip port text s >>= take_all texts

  module _ (run_id node_id : Bytes)
      (faithful : (log : Bytes)
        → proto.parse (buffer_of proto (log_message run_id node_id log))
          ≡ some (log_message run_id node_id log)) where
    abbrev pub file_of : EvalServer → Bytes
    file_of s = log_name s.log_dir (log_message run_id node_id [])

    abbrev having_written : EvalServer → List (Bytes × Bytes) → EvalServer
    having_written s new = record s { written = s.written ++ new }

    receive_log :
        (log : Bytes) (s : EvalServer)
        → opens (file_of s) ≡ true
        → receive proto order opens ip port (buffer_of proto (log_message run_id node_id log)) s
          ≡ ok (having_written s ((file_of s, log) ∷ []))
    unfolding receive dispatch on_message log_message
    receive_log log s h =
        ap (λ found. dispatch proto order opens ip found s) (faithful log) ∙ rw h refl

    take_logs :
        (parts : List (List Bytes)) (s : EvalServer)
        → opens (file_of s) ≡ true
        → (new : List (Bytes × Bytes)) × (take_all
              (map (buffer_of proto) (log_messages run_id node_id parts))
              s
            ≡ ok (having_written s new))
          × (content new ≡ joined (concat parts))
          × All (IsTo (file_of s)) new
    take_logs [] s h =
        ([], ap (λ l. ok (record s { written = l })) (sym (append-nil s.written)), refl, tt)
    take_logs (part ∷ parts) s h =
        let entry : Bytes × Bytes = (file_of s, joined part) in
        let (new, taken, same, named) = take_logs parts (having_written s (entry ∷ [])) h in
        let texts = map (buffer_of proto) (log_messages run_id node_id parts) in
        (
          entry ∷ new,
          ap (λ r. r >>= take_all texts) (receive_log (joined part) s h)
              ∙ taken
              ∙ ap (λ l. ok (record s { written = l })) (append_assoc s.written (entry ∷ []) new),
          ap (λ l. joined part ++ l) same ∙ sym (joined-append part (concat parts)),
          (refl, named),
        )

    -- A client that is asked for its log sends it whole, in messages of 1 to 200 lines, and the
    -- server that takes these messages in order appends to the file of this run and node exactly
    -- what the client's log file holds, if that ends with a line end, the client's transport runs,
    -- the server's file opens, and Protocol Buffers write every message and give back those of logs.
    pub send_push_log-take_all :
        (env : Env) (deliver : Deliver) (hash : Bytes → ℕ) (iterate : Map Ptr → Map Ptr)
        (records : Bytes → Bytes → Bytes) (client : EvalClient) (server : EvalServer) (log : Bytes)
        → ((msg : BootstrapMessage) → (text : Bytes) × (proto.serialize msg ≡ some text))
        → who_logs env deliver hash iterate proto records client ≡ ok (run_id, node_id)
        → records run_id node_id ≡ log ++ 10 ∷ []
        → client.has_server ≡ true
        → opens (file_of server) ≡ true
        → (parts : List (List Bytes)) × All IsPart parts
          × (send_push_log env deliver hash iterate proto records client
              ≡ ok
                  (having_sent client (to_server proto client (log_messages run_id node_id parts))))
          × ((new : List (Bytes × Bytes)) × (take_all
                  (map (buffer_of proto) (log_messages run_id node_id parts))
                  server
                ≡ ok (having_written server new))
              × (content new ≡ records run_id node_id)
              × All (IsTo (file_of server)) new)
    unfolding send_push_log
    send_push_log-take_all env deliver hash iterate records client server log writes who ends h o =
        let next : Bytes × Bytes → Result EvalClient = λ w. ok (
          push_lines env deliver hash iterate proto records w.0 w.1 (get_lines [] (records w.0 w.1))
            [] 0 client) in
        let lines = get_lines [] (records run_id node_id) in
        let (parts, cut, sized, sent) =
          push_lines_lem env deliver hash iterate proto records writes run_id node_id lines client
            h in
        let (new, taken, same, named) = take_logs parts server o in
        (
          parts,
          sized,
          ap (λ r. r >>= next) who ∙ ap ok sent,
          (
            new,
            taken,
            same
                ∙ ap joined cut
                ∙ ap (λ t. joined (get_lines [] t)) ends
                ∙ joined-get_lines [] log
                ∙ sym ends,
            named,
          ),
        )

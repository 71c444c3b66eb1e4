-- ===== src/Peer/Logging.antt =====
-- What a `send` to another node does.
use fring.Common.{
  ℕ, suc, ◌+◌, ◌^◌, ◌≤◌, ◌<◌, ◌≡◌, ◌≢◌, refl, arith, inl, inr, [], ◌∷◌, ◌++◌, length, length-append,
  ok, Bool-cases, if◌then◌else◌, ◌∙◌, append-nil,
}
use fring.Common.Text.{Bytes, beq_ne}
use fring.Decimal.{setw}
use fring.Decimal.RoundTrip.{IsInt, length-setw}
use fring.Node.{Node}
use fring.Message.{
  Message, MessageTable, to_csv_string, csv_line, put, insert_sent, num_msgs_in_total,
  set_message_id,
}
use fring.Wire.{IdSet, data_string}
use fring.Message.Csv.{to_csv_string_fits}
use fring.Peer.State.{Env, Datagram, PeerManager, next_message_id, append_message_record, log_sent}
use fring.Peer.Ring.{Deliver, send, send_remote}

length-put :
    (key : ℕ) (msg : Message) (table : MessageTable)
    → length (put key msg table) ≤ suc (length table)
unfolding put
length-put key msg [] = omega arith
length-put key msg ((k, m) ∷ table) = ground (arith, length-put key msg table)

-- A message whose ids have 64 bytes at most and whose numbers fit their C++ types.
pub record IsShort (msg : Message) : Type 0 where
  pub broadcast : length msg.broadcast_id ≤ 64
  pub sender : length msg.sender_id ≤ 64
  pub receiver : length msg.receiver_id ≤ 64
  pub type : IsInt msg.type
  pub order : IsInt msg.node_order
  pub level : msg.from_level < 2 ^ 64

-- The clock returns 64-bit values.
abbrev pub ClockFits : Env → Type 0
ClockFits env = (t : ℕ) → env.clock t < 2 ^ 64

length-put_sent :
    (now : ℕ) (table : MessageTable) (msg : Message)
    → length (insert_sent now table msg).0 ≤ suc (length table)
unfolding insert_sent
length-put_sent now table msg = length-put msg.io_timestamp _ table

-- What `growth` messages to other nodes leave alone, how much the message table may grow, and how
-- many times they read the clock.
pub record Keeps (growth : ℕ) (p p' : PeerManager) : Type 0 where
  pub node : p'.node ≡ p.node
  pub node_table : p'.node_table ≡ p.node_table
  pub broadcasted : p'.broadcasted_msgs ≡ p.broadcasted_msgs
  pub run_id : p'.run_id ≡ p.run_id
  pub delays : p'.delays ≡ p.delays
  pub draws : p'.draws ≡ p.draws
  pub ticks : p'.ticks ≡ p.ticks + growth
  pub messages : length p'.msg_table ≤ growth + length p.msg_table

pub Keeps-refl : (p : PeerManager) → Keeps 0 p p
Keeps-refl p = record {
  node = refl;
  node_table = refl;
  broadcasted = refl;
  run_id = refl;
  delays = refl;
  draws = refl;
  ticks = omega arith;
  messages = omega arith;
}

pub Keeps-suc :
    (b : ℕ) {p p' p'' : PeerManager} → Keeps 1 p p' → Keeps b p' p'' → Keeps (suc b) p p''
Keeps-suc b k l = record {
  node = l.node ∙ k.node;
  node_table = l.node_table ∙ k.node_table;
  broadcasted = l.broadcasted ∙ k.broadcasted;
  run_id = l.run_id ∙ k.run_id;
  delays = l.delays ∙ k.delays;
  draws = l.draws ∙ k.draws;
  ticks = omega (arith, k.ticks, l.ticks);
  messages = omega (arith, k.messages, l.messages);
}

append_message_record_lem :
    (env : Env) (msg : Message) (p : PeerManager) (line : Bytes)
    → to_csv_string msg ≡ ok line
    → append_message_record env msg p
      ≡ ok (record p { log = p.log ++ (if env.log_opens p.ticks then line ∷ [] else []) })
unfolding append_message_record
append_message_record_lem env msg p line e = elim (Bool-cases (env.log_opens p.ticks)) [
  | inl opens ↦ rw (opens, e) refl
  | inr closed ↦ rw (closed, append-nil p.log) refl
]

-- the message as the table and the log have it
abbrev pub logged : Env → Message → PeerManager → Message
logged env msg p = record (set_message_id msg (next_message_id p)) {
  io_timestamp = env.clock p.ticks;
  io_type = 1;
}

-- The state after a message to another node: the new message is in the table, its line is at the
-- end of the log if the log opens, the clock was read once, and one datagram was sent.
abbrev pub after_send : Env → Message → PeerManager → Bytes → Datagram → PeerManager
after_send env msg p line d = record p {
  msg_table =
      (insert_sent (env.clock p.ticks) p.msg_table (set_message_id msg (next_message_id p))).0;
  ticks = suc p.ticks;
  log = p.log ++ (if env.log_opens (suc p.ticks) then line ∷ [] else []);
  sent = p.sent ++ d ∷ [];
}

pub after_send-Keeps :
    (env : Env) (msg : Message) (p : PeerManager) (line : Bytes) (d : Datagram)
    → Keeps 1 p (after_send env msg p line d)
after_send-Keeps env msg p line d = record {
  node = refl;
  node_table = refl;
  broadcasted = refl;
  run_id = refl;
  delays = refl;
  draws = refl;
  ticks = omega arith;
  messages = omega (
    arith,
    length-put_sent (env.clock p.ticks) p.msg_table (set_message_id msg (next_message_id p)),
  );
}

module _ (env : Env) (clock : ClockFits env) (msg : Message) (short : IsShort msg) (p : PeerManager)
    (own : length p.node.id ≤ 64) (few : length p.msg_table < 10 ^ 24) where
  message_id_fits : length (next_message_id p) ≤ 100
  unfolding next_message_id num_msgs_in_total
  message_id_fits = omega (
    arith,
    own,
    length-append p.node.id (setw 24 (length p.msg_table)),
    length-setw 23 (length p.msg_table) few,
  )

  -- A message to another node never faults and is sent as exactly one datagram, to the address of
  -- that node, with the message, the ids and the payload in it. The message goes into the message
  -- table under the next message id, with the time and as sent, and its line at the end of the log
  -- if the log opens; nothing else of the state changes. The message is short and its table has
  -- room for the message id.
  pub send_remote_lem :
      (deliver : Deliver) (node : Node) (payload : Bytes) (ids : IdSet)
      → msg.receiver_id ≢ msg.sender_id
      → (line : Bytes) × (to_csv_string (logged env msg p) ≡ ok line)
        × (send env deliver node msg payload ids p
            ≡ ok (
                after_send env msg p line (record {
                  ip = node.ip;
                  port = node.port;
                  text = data_string p.node.id node.id msg (next_message_id p) ids payload;
                })))
  unfolding send send_remote log_sent insert_sent
  send_remote_lem deliver node payload ids ne =
      let fits =
        to_csv_string_fits (logged env msg p) (clock p.ticks) (omega arith) (omega (arith, short))
          (omega (arith, short)) (omega (arith, message_id_fits)) (omega (arith, short)) short.type
          short.level short.order in
      let table =
        (insert_sent (env.clock p.ticks) p.msg_table (set_message_id msg (next_message_id p))).0 in
      let logs =
        append_message_record_lem env (logged env msg p)
          (record p { msg_table = table; ticks = suc p.ticks }) (csv_line (logged env msg p))
          fits in
      (csv_line (logged env msg p), fits, rw (beq_ne msg.receiver_id msg.sender_id ne, logs) refl)

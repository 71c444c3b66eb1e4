-- ===== src/Message.antt =====
-- include/message.h and src/message.cpp: a message and the table of the messages that a node
-- received and sent. `now` is what `get_milliseconds_since_epoch` returns in the call.
pub mod Table
pub mod Csv
mod Tests
use fring.Common.{
  ℕ, ◌≡◌, Bool, true, false, List, [], ◌∷◌, ◌++◌, ◌==◌, if◌then◌else◌, ltb, length, ℤ, pos, negsuc,
  Result, ok, err, undefined, ◌>>=◌,
}
use fring.Common.Text.{Bytes, beq, codes}
use fring.Decimal.{to_decimal, to_string}

pub record Message : Type 0 where
  pub io_timestamp : ℕ
  pub io_type : ℕ
  pub broadcast_id : Bytes
  pub message_id : Bytes
  pub type : ℤ
  pub node_order : ℤ
  pub ttl : ℤ
  pub from_level : ℕ
  pub sender_id : Bytes
  pub receiver_id : Bytes

abbrev pub io_type_received : ℕ
io_type_received = 0

abbrev pub io_type_sent : ℕ
io_type_sent = 1

-- The constructor of the ETH nodes, with four arguments.
abbrev pub make_message_eth : Bytes → Bytes → Bytes → Bytes → Message
make_message_eth broadcast_id message_id sender_id receiver_id = record {
  io_timestamp = 0;
  io_type = 0;
  broadcast_id = broadcast_id;
  message_id = message_id;
  type = pos 0;
  node_order = negsuc 0;
  ttl = pos 0;
  from_level = 0;
  sender_id = sender_id;
  receiver_id = receiver_id;
}

-- The constructor with six arguments.
abbrev pub make_message : Bytes → Bytes → ℤ → ℕ → Bytes → Bytes → Message
make_message broadcast_id message_id type from_level sender_id receiver_id = record {
  io_timestamp = 0;
  io_type = 0;
  broadcast_id = broadcast_id;
  message_id = message_id;
  type = type;
  node_order = negsuc 0;
  ttl = pos 0;
  from_level = from_level;
  sender_id = sender_id;
  receiver_id = receiver_id;
}

abbrev pub get_key : Message → ℕ
get_key msg = msg.io_timestamp

abbrev pub set_broadcast_id : Message → Bytes → Message
set_broadcast_id msg id = record msg { broadcast_id = id }

abbrev pub set_sender_id : Message → Bytes → Message
set_sender_id msg id = record msg { sender_id = id }

abbrev pub set_from_level : Message → ℕ → Message
set_from_level msg level = record msg { from_level = level }

abbrev pub set_receiver_id : Message → Bytes → Message
set_receiver_id msg id = record msg { receiver_id = id }

abbrev pub set_message_id : Message → Bytes → Message
set_message_id msg id = record msg { message_id = id }

abbrev pub set_node_order : Message → ℤ → Message
set_node_order msg order = record msg { node_order = order }

abbrev pub set_type : Message → ℤ → Message
set_type msg type = record msg { type = type }

abbrev pub set_ttl : Message → ℤ → Message
set_ttl msg ttl = record msg { ttl = ttl }

-- what `%s` prints of `c_str()`: the string up to its first NUL
pub c_string : Bytes → Bytes
c_string [] = []
c_string (b ∷ s) = if b == 0 then [] else b ∷ c_string s

pub csv_line : Message → Bytes
unfolding c_string
csv_line msg =
    to_decimal msg.io_timestamp
    ++ b','
      ∷ (to_decimal msg.io_type
          ++ b','
            ∷ (c_string msg.sender_id
                ++ b','
                  ∷ (c_string msg.broadcast_id
                      ++ b','
                        ∷ (c_string msg.message_id
                            ++ b','
                              ∷ (c_string msg.receiver_id
                                  ++ b','
                                    ∷ (to_string msg.type
                                        ++ b','
                                          ∷ (to_decimal msg.from_level
                                              ++ b',' ∷ to_string msg.node_order)))))))

-- `sprintf` into a buffer of 1000 bytes, its last the terminator: a longer line runs past the
-- end. The `%d` and `%lu` of the format print what `to_string` prints.
unfoldable pub to_csv_string : Message → Result Bytes
unfolding csv_line c_string
to_csv_string msg = if ltb (length (csv_line msg)) 1000 then ok (csv_line msg) else err undefined

-- `unordered_map<message_key_t, Message>`
abbrev pub MessageTable : Type 0
MessageTable = List (ℕ × Message)

unfoldable pub exist : MessageTable → ℕ → Bool
exist [] key = false
exist ((k, m) ∷ table) key = if k == key then true else exist table key

unfoldable pub exist_id : MessageTable → Bytes → Bool
exist_id [] id = false
exist_id ((k, m) ∷ table) id = if beq m.message_id id then true else exist_id table id

unfoldable pub num_msgs_in_total : MessageTable → ℕ
num_msgs_in_total table = length table

-- `table[key] = msg`
unfoldable pub put : ℕ → Message → MessageTable → MessageTable
put key msg [] = (key, msg) ∷ []
put key msg ((k, m) ∷ table) = if k == key then (k, msg) ∷ table else (k, m) ∷ put key msg table

-- The copy carries the time and the direction; its place is the key of the argument.
unfoldable pub insert_received : ℕ → MessageTable → Message → MessageTable × Message
unfolding put
insert_received now table msg =
    let to_insert = record msg { io_timestamp = now; io_type = io_type_received } in
    (put (get_key msg) to_insert table, to_insert)

unfoldable pub insert_sent : ℕ → MessageTable → Message → MessageTable × Message
unfolding put
insert_sent now table msg =
    let to_insert = record msg { io_timestamp = now; io_type = io_type_sent } in
    (put (get_key msg) to_insert table, to_insert)

-- the literal `csv_header`
abbrev pub csv_header : Bytes
csv_header =
    codes
      "io_timestamp,io_type,sender_id,broadcast_id,message_id,receiver_id,type,from_level,node_order"

-- the header, and a line for each record
unfoldable pub csv_from : Bytes → MessageTable → Result Bytes
csv_from result [] = ok result
csv_from result ((k, m) ∷ table) =
    to_csv_string m >>= λ line. csv_from (result ++ (line ++ b'\n' ∷ [])) table

unfoldable pub table_to_csv_string : MessageTable → Result Bytes
table_to_csv_string table = csv_from csv_header table

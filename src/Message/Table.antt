-- ===== src/Message/Table.antt =====
-- What the message table holds after any sequence of insertions.
use fring.Common.{ℕ, ◌≤◌, ◌≡◌, arith, true, List, [], ◌∷◌, if◌then◌else◌, ◌==◌, length, All}
use fring.Message.{
  Message, MessageTable, get_key, exist, num_msgs_in_total, put, insert_received, insert_sent,
}

exist-put :
    (key j : ℕ) (msg : Message) (table : MessageTable)
    → exist (put key msg table) j ≡ (if key == j then true else exist table j)
unfolding exist put
exist-put key j msg [] = ground arith
exist-put key j msg ((k, m) ∷ table) = ground (arith, exist-put key j msg table)

-- After an insertion the table has the key of the inserted message, and every key from before.
exist-insert_received :
    (now : ℕ) (table : MessageTable) (msg : Message) (key : ℕ)
    → exist (insert_received now table msg).0 key
      ≡ (if get_key msg == key then true else exist table key)
unfolding insert_received
exist-insert_received now table msg key = exist-put (get_key msg) key _ table

-- An event at the message table: a message received or sent, at a time.
pub data Event : Type 0 where
  received sent : ℕ → Message → Event

abbrev pub message_of : Event → Message
message_of (received now msg) = msg
message_of (sent now msg) = msg

pub insert_event : MessageTable → Event → MessageTable
insert_event table (received now msg) = (insert_received now table msg).0
insert_event table (sent now msg) = (insert_sent now table msg).0

pub insert_all : MessageTable → List Event → MessageTable
unfolding insert_event
insert_all table [] = table
insert_all table (e ∷ es) = insert_all (insert_event table e) es

-- Every key in the table is `key`, and there is one entry at most.
OnlyKey : ℕ → MessageTable → Type 0
OnlyKey key table = All (λ e. e.0 ≡ key) table × (length table ≤ 1)

put-OnlyKey :
    (key : ℕ) (msg : Message) (table : MessageTable)
    → OnlyKey key table
    → OnlyKey key (put key msg table)
unfolding put OnlyKey
put-OnlyKey key msg [] h = ground arith
put-OnlyKey key msg ((k, m) ∷ []) h = ground arith
put-OnlyKey key msg ((k, m) ∷ e ∷ table) h = absurd (omega arith)

insert_event-OnlyKey :
    (key : ℕ) (table : MessageTable) (e : Event)
    → get_key (message_of e) ≡ key
    → OnlyKey key table
    → OnlyKey key (insert_event table e)
unfolding insert_event insert_received insert_sent
insert_event-OnlyKey key table (received now msg) k h = rw k (put-OnlyKey key _ table h)
insert_event-OnlyKey key table (sent now msg) k h = rw k (put-OnlyKey key _ table h)

insert_all-OnlyKey :
    (key : ℕ) (table : MessageTable) (es : List Event)
    → All (λ e. get_key (message_of e) ≡ key) es
    → OnlyKey key table
    → OnlyKey key (insert_all table es)
unfolding insert_all
insert_all-OnlyKey key table [] k h = h
insert_all-OnlyKey key table (e ∷ es) k h =
    insert_all-OnlyKey key (insert_event table e) es k.1 (insert_event-OnlyKey key table e k.0 h)

-- However many messages are received and sent, if each comes with the time stamp 0 that every
-- constructor gives it, the table holds one record at most: each record overwrites the one before.
pub num_msgs_in_total_le :
    (es : List Event)
    → All (λ e. get_key (message_of e) ≡ 0) es
    → num_msgs_in_total (insert_all [] es) ≤ 1
unfolding num_msgs_in_total OnlyKey
num_msgs_in_total_le es h = (insert_all-OnlyKey 0 [] es h (omega arith)).1

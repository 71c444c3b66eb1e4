-- ===== src/Evaluation/Server/Registration.antt =====
-- The database of the server and the numbers of the nodes in it.
use fring.Common.{
  ℕ, zero, suc, ◌+◌, ◌≤◌, ◌≡◌, refl, ap, arith, [], ◌∷◌, ◌++◌, Option, none, some, length,
  get_elem?, map, List, sym, append-nil, ◌%◌, inl, inr, Bool-cases, map-append, Result, Bool, ok,
}
use fring.Common.Text.{Bytes}
use fring.Evaluation.{
  Kind, init, config, table, broadcast, pull_log, push_log, unknown, BootstrapMessage, Protobuf,
}
use fring.Evaluation.Server.{
  NodeRecord, NodeDatabase, EvalServer, find_record, insert_record, record_of, on_message, dispatch,
  receive, handle_check, no_record, log_name,
}

abbrev pub record_at : ℕ × NodeRecord → NodeRecord
record_at e = e.1

-- The keys are `i`, `i + 1` and so on.
abbrev pub NumberedFrom : ℕ → NodeDatabase → Type 0
NumberedFrom i [] = Unit
NumberedFrom i ((key, r) ∷ db) = (key ≡ i) × NumberedFrom (suc i) db

-- a server with this database
abbrev pub with_db : EvalServer → NodeDatabase → EvalServer
with_db s db = record s { db = some db }

insert_record_new :
    (i n : ℕ) (r : NodeRecord) (db : NodeDatabase)
    → NumberedFrom i db
    → i + length db ≤ n
    → insert_record n r db ≡ db ++ (n, r) ∷ []
unfolding insert_record
insert_record_new i n r [] h k = refl
insert_record_new i n r ((key, q) ∷ db) (e, h) k =
    ground (arith, insert_record_new (suc i) n r db h (omega (arith, k)))

NumberedFrom-append :
    (i n : ℕ) (r : NodeRecord) (db : NodeDatabase)
    → NumberedFrom i db
    → n ≡ i + length db
    → NumberedFrom i (db ++ (n, r) ∷ [])
NumberedFrom-append i n r [] h k = (omega (arith, k), tt)
NumberedFrom-append i n r ((key, q) ∷ db) (e, h) k =
    (e, NumberedFrom-append (suc i) n r db h (omega (arith, k)))

find_record-get_elem? :
    (i n : ℕ) (db : NodeDatabase)
    → NumberedFrom i db
    → find_record (i + n) db ≡ get_elem? (map record_at db) n
unfolding find_record
find_record-get_elem? i n [] h = refl
find_record-get_elem? i zero ((key, q) ∷ db) (e, h) = ground arith
find_record-get_elem? i (suc n) ((key, q) ∷ db) (e, h) =
    let same = find_record-get_elem? (suc i) n db h in
    let next : suc i + n ≡ i + suc n = omega arith in ground (arith, rw next at same)

-- the record of the node `n`, or the empty one
abbrev record_or_none : Option NodeRecord → NodeRecord
record_or_none none = no_record
record_or_none (some r) = r

-- The `n`th node that registered, and only that, answers to the number `n`.
pub handle_check_lem :
    (s : EvalServer) (db : NodeDatabase) (n : ℕ)
    → NumberedFrom 0 db
    → handle_check n (with_db s db) ≡ record_or_none (get_elem? (map record_at db) n)
unfolding handle_check
handle_check_lem s db n h =
    let start : 0 + n ≡ n = omega arith in
    let same = find_record-get_elem? 0 n db h in ap record_or_none (rw start at same)

-- The records that a message adds to the database: one for a registration, with the address that
-- it came from and the ports that it carries, and none otherwise.
abbrev pub registered_as : Kind → Bytes → BootstrapMessage → List NodeRecord
registered_as init ip msg =
    record {
      ip = ip;
      bootstrap_port = msg.init.bootstrap_port % 65536;
      broadcast_port = msg.init.broadcast_port % 65536;
    }
    ∷ []
registered_as config ip msg = []
registered_as table ip msg = []
registered_as broadcast ip msg = []
registered_as pull_log ip msg = []
registered_as push_log ip msg = []
registered_as (unknown n) ip msg = []

abbrev pub registered : Bytes → Option BootstrapMessage → List NodeRecord
registered ip none = []
registered ip (some msg) = registered_as msg.type ip msg

-- The call returned, and these records stand at the end of the database, numbered on.
abbrev pub Grown : NodeDatabase → List NodeRecord → Result EvalServer → Type 0
Grown db new result =
    (s' : EvalServer) × (db' : NodeDatabase) × (result ≡ ok (with_db s' db'))
    × (map record_at db' ≡ map record_at db ++ new)
    × NumberedFrom 0 db'

module _ (proto : Protobuf) (iterate : NodeDatabase → NodeDatabase) (opens : Bytes → Bool)
    (ip : Bytes) (s : EvalServer) (db : NodeDatabase) (h : NumberedFrom 0 db) where
  unchanged : (s' : EvalServer) → Grown db [] (ok (with_db s' db))
  unchanged s' = (s', db, refl, sym (append-nil (map record_at db)), h)

  on_message_lem :
      (msg : BootstrapMessage) (type : Kind)
      → Grown db
          (registered_as type ip msg)
          (on_message proto iterate opens ip msg (with_db s db) type)
  unfolding on_message
  on_message_lem msg init =
      let new : ℕ × NodeRecord = (length db, record_of ip msg) in
      let at_end = insert_record_new 0 (length db) (record_of ip msg) db h (omega arith) in
      (
        s,
        db ++ new ∷ [],
        ap (λ d. ok (with_db s d)) at_end,
        map-append record_at db new,
        NumberedFrom-append 0 (length db) (record_of ip msg) db h (omega arith),
      )
  on_message_lem msg push_log = elim (Bool-cases (opens (log_name s.log_dir msg))) [
    | inl o ↦ rw o (unchanged (record s { written = _ }))
    | inr o ↦ rw o (unchanged s)
  ]
  on_message_lem msg config = unchanged s
  on_message_lem msg table = unchanged s
  on_message_lem msg broadcast = unchanged s
  on_message_lem msg pull_log = unchanged s
  on_message_lem msg (unknown n) = unchanged s

  dispatch_lem :
      (found : Option BootstrapMessage)
      → Grown db (registered ip found) (dispatch proto iterate opens ip found (with_db s db))
  unfolding dispatch
  dispatch_lem none = unchanged s
  dispatch_lem (some msg) = on_message_lem msg msg.type

  -- Whatever text arrives at a server that runs, the handler returns. If the text is a registration,
  -- the database has one more record at its end, with the address that the text came from and the
  -- ports that it carries, each as 16 bits; if it is any other message or none, the database has the
  -- records that it had. The nodes stay numbered from 0, so that a new node gets the next number.
  pub receive_lem :
      (port : ℕ) (text : Bytes)
      → Grown db
          (registered ip (proto.parse text))
          (receive proto iterate opens ip port text (with_db s db))
  unfolding receive
  receive_lem port text = dispatch_lem (proto.parse text)

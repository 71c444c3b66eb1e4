-- ===== src/Wire/RoundTrip.antt =====
-- What `receive` parses from what `send` prints.
use fring.Common.{
  ℕ, ◌+◌, ◌≤◌, ◌<◌, ◌≡◌, ◌≢◌, refl, ◌∙◌, ap, arith, [], ◌∷◌, ◌++◌, length, length-append, drop,
  take-all, length-drop, pos, ok, All, All-append, int_mod, le→ltb,
}
use fring.Common.Text.{
  Bytes, index_of, find, find_field, substr, substr_from, substr_field, npos, add_size, Lacks,
}
use fring.Decimal.{to_decimal, to_string, stoi}
use fring.Decimal.RoundTrip.{IsInt, stoi-to_string, to_string-Lacks, to_string_pos}
use fring.Message.{Message, make_message, set_node_order}
use fring.Wire.{
  IdSet, contains, sent_ids_string, parse_ids, data_string, to_ulong, parse_body, parse_packet,
}
use fring.Wire.Fields.{next_field_lem, drop_field}
use fring.Wire.SentIds.{joined, last_of, sent_ids_string-joined, parse_ids-sent_ids_string}

-- The last of the ids, if there is one, has two bytes or more.
abbrev pub LastIsLong : IdSet → Type 0
LastIsLong [] = Unit
LastIsLong (id ∷ ids) = 2 ≤ length (last_of id ids)

parse_ids_lem :
    (ids : IdSet)
    → length (sent_ids_string ids) < npos
    → All (Lacks b',') ids
    → LastIsLong ids
    → (s : IdSet) × (parse_ids (sent_ids_string ids) ≡ ok s)
      × ((x : Bytes) → contains s x ≡ contains ids x)
unfolding sent_ids_string parse_ids find index_of substr
parse_ids_lem [] n w l = ([], refl, λ x. refl)
parse_ids_lem (id ∷ ids) n w l = parse_ids-sent_ids_string id ids n w l

joined-Lacks : (id : Bytes) (ids : IdSet) → All (Lacks b'|') (id ∷ ids) → Lacks b'|' (joined id ids)
joined-Lacks id [] w = w.0
joined-Lacks id (next ∷ ids) w =
    All-append (λ c. c ≢ b'|') id (b',' ∷ joined next ids) w.0
      (omega arith, joined-Lacks next ids w.1)

sent_ids_string-Lacks : (ids : IdSet) → All (Lacks b'|') ids → Lacks b'|' (sent_ids_string ids)
sent_ids_string-Lacks [] w = unfold sent_ids_string in tt
sent_ids_string-Lacks (id ∷ ids) w = rw (sent_ids_string-joined id ids) (joined-Lacks id ids w)

-- What `send` is given, in the form that the packet can carry.
pub record IsClean (self_id receiver_id : Bytes) (msg : Message) (message_id payload : Bytes)
    (ids : IdSet) : Type 0 where
  pub self : Lacks b',' self_id
  pub receiver : Lacks b',' receiver_id
  pub broadcast : Lacks b',' msg.broadcast_id
  pub message : Lacks b',' message_id
  pub type : IsInt msg.type
  pub level : msg.from_level < int_mod
  pub order : IsInt msg.node_order
  pub commas : All (Lacks b',') ids
  pub bars : All (Lacks b'|') ids
  pub last : LastIsLong ids
  pub sized : length (data_string self_id receiver_id msg message_id ids payload) < npos

parse_body_lem :
    (ids : IdSet) (payload : Bytes)
    → length (sent_ids_string ids ++ b'|' ∷ payload) < npos
    → All (Lacks b',') ids
    → All (Lacks b'|') ids
    → LastIsLong ids
    → (s : IdSet) × (parse_body (sent_ids_string ids ++ b'|' ∷ payload) ≡ ok (payload, s))
      × ((x : Bytes) → contains s x ≡ contains ids x)
unfolding parse_body
parse_body_lem ids payload n w bars l =
    let t = sent_ids_string ids in
    let k = length-append t (b'|' ∷ payload) in
    let (s, e, same) = parse_ids_lem ids (omega (arith, n, k)) w l in
    let bar : find b'|' (t ++ b'|' ∷ payload) 0 ≡ length t =
      find_field b'|' (t ++ b'|' ∷ payload) t payload 0 refl (sent_ids_string-Lacks ids bars)
      ∙ omega arith in
    let past : add_size (length t) 1 ≡ 0 + length t + 1 = omega (arith, n, k) in
    let cut : substr (t ++ b'|' ∷ payload) 0 (length t) ≡ ok t =
      substr_field (t ++ b'|' ∷ payload) t (b'|' ∷ payload) 0 (omega arith) refl in
    let rest : drop (0 + length t + 1) (t ++ b'|' ∷ payload) ≡ payload =
      drop_field (t ++ b'|' ∷ payload) t payload b'|' 0 refl in
    (s, rw (bar, cut, e, past, rest) refl, same)

module _ (self_id receiver_id : Bytes) (msg : Message) (message_id payload : Bytes) (ids : IdSet)
    (w : IsClean self_id receiver_id msg message_id payload ids) where
  abbrev body : Bytes
  body = sent_ids_string ids ++ b'|' ∷ payload

  abbrev packet : Bytes
  packet =
      self_id
      ++ b','
        ∷ (receiver_id
            ++ b','
              ∷ (msg.broadcast_id
                  ++ b','
                    ∷ (message_id
                        ++ b','
                          ∷ (to_string msg.type
                              ++ b','
                                ∷ (to_decimal msg.from_level
                                    ++ b',' ∷ (to_string msg.node_order ++ b',' ∷ body))))))

  packet-eq : data_string self_id receiver_id msg message_id ids payload ≡ packet
  unfolding data_string
  packet-eq = refl

  small : length packet < npos
  small = rw packet-eq at w.sized

  printed_level : IsInt (pos msg.from_level)
  printed_level = w.level

  -- The packet that `send` prints is parsed as what was sent: the header fields, the payload byte
  -- for byte, and the set of ids with the same members.
  parsed :
      (s : IdSet) × (parse_packet packet
        ≡ ok (record {
          message =
              set_node_order
                (make_message msg.broadcast_id message_id msg.type msg.from_level self_id
                  receiver_id)
                msg.node_order;
          payload = payload;
          sent_ids = s;
        }))
      × ((x : Bytes) → contains s x ≡ contains ids x)
  unfolding parse_packet
  parsed =
      let (n1, a1, i1, d1) =
        next_field_lem packet self_id _ npos 0 refl small (omega arith) refl w.self in
      let (n2, a2, i2, d2) = next_field_lem packet receiver_id _ _ _ a1 small i1 d1 w.receiver in
      let (n3, a3, i3, d3) =
        next_field_lem packet msg.broadcast_id _ _ _ a2 small i2 d2 w.broadcast in
      let (n4, a4, i4, d4) = next_field_lem packet message_id _ _ _ a3 small i3 d3 w.message in
      let (n5, a5, i5, d5) =
        next_field_lem packet (to_string msg.type) _ _ _ a4 small i4 d4
          (to_string-Lacks msg.type) in
      let (n6, a6, i6, d6) =
        next_field_lem packet (to_decimal msg.from_level) _ _ _ a5 small i5 d5 level_Lacks in
      let (n7, a7, i7, d7) =
        next_field_lem packet (to_string msg.node_order) _ _ _ a6 small i6 d6
          (to_string-Lacks msg.node_order) in
      let (s, e, same) = parse_body_lem ids payload (body_small _ d7) w.commas w.bars w.last in
      (
        s,
        rw
            (
              n1,
              n2,
              n3,
              n4,
              n5,
              stoi-to_string msg.type w.type,
              n6,
              read_level,
              n7,
              stoi-to_string msg.node_order w.order,
              a7,
              cut_body _ i7 d7,
              e,
            )
            (unfold to_ulong in refl),
        same,
      )
    where
      level_Lacks : Lacks b',' (to_decimal msg.from_level)
      level_Lacks = rw (to_string_pos msg.from_level) at (to_string-Lacks (pos msg.from_level))

      read_level : stoi (to_decimal msg.from_level) ≡ ok (pos msg.from_level)
      read_level =
          rw (to_string_pos msg.from_level) at (stoi-to_string (pos msg.from_level) printed_level)

      body_small : (p : ℕ) → drop p packet ≡ body → length body < npos
      body_small p d = omega (arith, small, length-drop p packet, ap length d)

      cut_body : (p : ℕ) → p ≤ length packet → drop p packet ≡ body → substr_from packet p ≡ ok body
      cut_body p h d =
          unfold substr in
          rw (le→ltb _ _ h, d) (rw (take-all npos body (omega (arith, body_small p d))) refl)

-- The packet that `send` prints is parsed by `receive` as what was sent, with no exception: the
-- header fields, the payload byte for byte, and a set of ids with the same members. It holds for
-- ids without comma, numbers that are `int`s, sent ids without comma and bar whose last has two
-- bytes or more, and any payload.
pub parse_packet-data_string :
    (self_id receiver_id : Bytes) (msg : Message) (message_id payload : Bytes) (ids : IdSet)
    → IsClean self_id receiver_id msg message_id payload ids
    → (s : IdSet) × (parse_packet (data_string self_id receiver_id msg message_id ids payload)
        ≡ ok (record {
          message =
              set_node_order
                (make_message msg.broadcast_id message_id msg.type msg.from_level self_id
                  receiver_id)
                msg.node_order;
          payload = payload;
          sent_ids = s;
        }))
      × ((x : Bytes) → contains s x ≡ contains ids x)
parse_packet-data_string self_id receiver_id msg message_id payload ids w =
    rw (packet-eq self_id receiver_id msg message_id payload ids w)
      (parsed self_id receiver_id msg message_id payload ids w)

-- ===== src/Wire/Tests.antt =====
-- Examples for the theorems on the packets of src/peer_manager.cpp.
use fring.Common.{◌≡◌, arith, [], ◌∷◌, length, if◌then◌else◌, ltb, pos, negsuc, ok}
use fring.Common.Text.{Bytes, codes}
use fring.Decimal.{to_string}
use fring.Message.{Message, make_message, set_node_order}
use fring.Wire.{IdSet, contains, set_insert, data_string, parse_ids, parse_packet}
use fring.Wire.SentIds.{joined, last_of, insert_front, parse_ids-joined}
use fring.Wire.RoundTrip.{IsClean, parse_packet-data_string}

abbrev regions : IdSet
regions = codes "012" ∷ codes "013" ∷ []

abbrev packet_sent : Message
packet_sent = set_node_order (make_message (codes "b7") [] (pos 2) 1 (codes "n1") []) (negsuc 0)

abbrev content : Bytes
content = codes "price=3,|"

regions-IsClean : IsClean (codes "n1") (codes "n2") packet_sent (codes "m9") content regions
unfolding data_string to_string
regions-IsClean = record {
  self = (omega arith, (omega arith, tt));
  receiver = (omega arith, (omega arith, tt));
  broadcast = (omega arith, (omega arith, tt));
  message = (omega arith, (omega arith, tt));
  type = omega arith;
  level = omega arith;
  order = omega arith;
  commas = (
    (omega arith, (omega arith, (omega arith, tt))),
    ((omega arith, (omega arith, (omega arith, tt))), tt),
  );
  bars = (
    (omega arith, (omega arith, (omega arith, tt))),
    ((omega arith, (omega arith, (omega arith, tt))), tt),
  );
  last = omega arith;
  sized = omega arith;
}

parse_packet-data_string_example :
    (s : IdSet) × (parse_packet
        (data_string (codes "n1") (codes "n2") packet_sent (codes "m9") regions content)
      ≡ ok (record {
        message =
            set_node_order
              (make_message (codes "b7") (codes "m9") (pos 2) 1 (codes "n1") (codes "n2"))
              (negsuc 0);
        payload = content;
        sent_ids = s;
      }))
    × ((x : Bytes) → contains s x ≡ contains regions x)
parse_packet-data_string_example =
    parse_packet-data_string (codes "n1") (codes "n2") packet_sent (codes "m9") content regions
      regions-IsClean

-- The last id has one byte and is lost.
parse_ids-joined_example :
    parse_ids (joined (codes "01") (codes "7" ∷ []))
    ≡ ok (
        if ltb (length (last_of (codes "01") (codes "7" ∷ []))) 2
        then insert_front (codes "01") (codes "7" ∷ []) []
        else set_insert
            (last_of (codes "01") (codes "7" ∷ []))
            (insert_front (codes "01") (codes "7" ∷ []) []))
parse_ids-joined_example =
    parse_ids-joined (codes "01") (codes "7" ∷ []) (omega arith)
      ((omega arith, (omega arith, tt)), ((omega arith, tt), tt))

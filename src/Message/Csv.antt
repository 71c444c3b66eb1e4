-- ===== src/Message/Csv.antt =====
-- The line of a message in the log, and the buffer that it is written to.
use fring.Common.{
  ℕ, suc, [], ◌+◌, ◌^◌, ◌≤◌, ◌<◌, ◌≡◌, refl, arith, ◌∷◌, ◌++◌, length, length-append, lt→ltb, ok,
}
use fring.Decimal.{to_decimal, to_string}
use fring.Decimal.RoundTrip.{IsInt, length-to_decimal_le, length-to_string_le}
use fring.Common.Text.{Bytes}
use fring.Message.{Message, c_string, csv_line, to_csv_string}

length_field :
    (f rest : Bytes) (a b : ℕ)
    → length f ≤ a
    → length rest ≤ b
    → length (f ++ b',' ∷ rest) ≤ a + suc b
length_field f rest a b h k = omega (arith, h, k, length-append f (b',' ∷ rest))

length-c_string_self : (s : Bytes) → length (c_string s) ≤ length s
unfolding c_string
length-c_string_self [] = omega arith
length-c_string_self (b ∷ s) = ground (arith, length-c_string_self s)

length-c_string_le : (s : Bytes) {n : ℕ} → length s ≤ n → length (c_string s) ≤ n
length-c_string_le s h = omega (arith, h, length-c_string_self s)

-- Writing the log line of a message stays inside the buffer, if its ids have 100 bytes at
-- most and its numbers fit their types.
pub to_csv_string_fits :
    (msg : Message)
    → msg.io_timestamp < 2 ^ 64
    → msg.io_type ≤ 1
    → length msg.sender_id ≤ 100
    → length msg.broadcast_id ≤ 100
    → length msg.message_id ≤ 100
    → length msg.receiver_id ≤ 100
    → IsInt msg.type
    → msg.from_level < 2 ^ 64
    → IsInt msg.node_order
    → to_csv_string msg ≡ ok (csv_line msg)
unfolding to_csv_string csv_line
to_csv_string_fits msg t io s b m r ty l o =
    let e9 = length-to_string_le msg.node_order o in
    let e8 =
      length_field (to_decimal msg.from_level) _ 20 11
        (length-to_decimal_le 19 msg.from_level (omega arith)) e9 in
    let e7 = length_field (to_string msg.type) _ 11 32 (length-to_string_le msg.type ty) e8 in
    let e6 =
      length_field (c_string msg.receiver_id) _ 100 44 (length-c_string_le msg.receiver_id r) e7 in
    let e5 =
      length_field (c_string msg.message_id) _ 100 145 (length-c_string_le msg.message_id m) e6 in
    let e4 =
      length_field (c_string msg.broadcast_id) _ 100 246 (length-c_string_le msg.broadcast_id b)
        e5 in
    let e3 =
      length_field (c_string msg.sender_id) _ 100 347 (length-c_string_le msg.sender_id s) e4 in
    let e2 =
      length_field (to_decimal msg.io_type) _ 20 448
        (length-to_decimal_le 19 msg.io_type (omega arith)) e3 in
    let e1 =
      length_field (to_decimal msg.io_timestamp) _ 20 469
        (length-to_decimal_le 19 msg.io_timestamp (omega arith)) e2 in
    rw (lt→ltb (length (csv_line msg)) 1000 (omega (arith, e1))) refl

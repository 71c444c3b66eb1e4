-- ===== src/Message/Tests.antt =====
-- Examples for the theorems on src/message.cpp.
use fring.Common.{◌≤◌, ◌≡◌, refl, arith, [], ◌∷◌, pos, ok}
use fring.Common.Text.{codes}
use fring.Message.{Message, make_message, num_msgs_in_total, csv_line, to_csv_string}
use fring.Message.Table.{received, sent, insert_all, num_msgs_in_total_le}
use fring.Message.Csv.{to_csv_string_fits}

abbrev hello : Message
hello = make_message (codes "b1") (codes "m1") (pos 2) 1 (codes "x") (codes "y")

to_csv_string_fits_example : to_csv_string hello ≡ ok (csv_line hello)
to_csv_string_fits_example =
    to_csv_string_fits hello (omega arith) (omega arith) (omega arith) (omega arith) (omega arith)
      (omega arith) (omega arith) (omega arith) (omega arith)

num_msgs_in_total_le_example :
    num_msgs_in_total (insert_all [] (received 12 hello ∷ sent 13 hello ∷ [])) ≤ 1
num_msgs_in_total_le_example =
    num_msgs_in_total_le (received 12 hello ∷ sent 13 hello ∷ []) (refl, (refl, tt))

-- ===== src/Params.antt =====
-- include/param_constants.h: the constants of the protocol and of the node ids.
use fring.Common.{ℕ}

abbrev pub num_contact_nodes : ℕ
num_contact_nodes = 3

abbrev pub msg_id_len : ℕ
msg_id_len = 24

abbrev pub broadcast_id_len : ℕ
broadcast_id_len = 16

abbrev pub table_size_eth : ℕ
table_size_eth = 13

abbrev pub num_receivers_eth : ℕ
num_receivers_eth = 3

abbrev pub ttl_eth : ℕ
ttl_eth = 10000

abbrev pub id_continent_len : ℕ
id_continent_len = 3

abbrev pub id_country_len : ℕ
id_country_len = 4

abbrev pub id_state_len : ℕ
id_state_len = 5

abbrev pub id_city_len : ℕ
id_city_len = 6

abbrev pub id_district_len : ℕ
id_district_len = 5

abbrev pub id_single_len : ℕ
id_single_len = 9

abbrev pub id_continent_start : ℕ
id_continent_start = 0

abbrev pub id_country_start : ℕ
id_country_start = 3

abbrev pub id_state_start : ℕ
id_state_start = 7

abbrev pub id_city_start : ℕ
id_city_start = 12

abbrev pub id_district_start : ℕ
id_district_start = 18

abbrev pub id_single_start : ℕ
id_single_start = 23

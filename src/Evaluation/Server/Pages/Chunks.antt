-- ===== src/Evaluation/Server/Pages/Chunks.antt =====
-- The pages and the node table that they are cut from.
use fring.Common.{
  ℕ, suc, ◌+◌, ◌*◌, ◌%◌, ◌≤◌, ◌<◌, ◌≡◌, refl, ◌∙◌, ap, arith, inl, inr, Bool, true, false, ◌||◌,
  Bool-cases, List, [], ◌∷◌, ◌++◌, append_assoc, map, map-append, some, length, length-append, All,
  ltb, leb, ◌==◌, if◌then◌else◌, ok,
}
use fring.Common.Text.{Bytes}
use fring.Evaluation.{Table, Protobuf, empty_table, to_uint32}
use fring.Evaluation.Server.{
  NodeDatabase, EvalServer, add_entry, close_page, page_size, handle_table, send_table,
}
use fring.Evaluation.Server.Pages.{
  Entry, id_of, ip_of, port_of, page, paged, concat, IsPage, pages_from, with_sent, all_to_all,
  send_pages_lem,
}

-- the page under construction with these entries
abbrev table_of : List Entry → Table
table_of part = record empty_table {
  table_ids = map id_of part;
  table_ips = map ip_of part;
  table_ports = map port_of part;
}

add_entry-table_of :
    (entry : Entry) (part : List Entry)
    → add_entry entry (table_of part) ≡ table_of (part ++ entry ∷ [])
unfolding add_entry
add_entry-table_of (key, r) part =
    rw
      (
        map-append id_of part (key, r),
        map-append ip_of part (key, r),
        map-append port_of part (key, r),
      )
      refl

-- A page that is closed in time counts its entries.
close_page_lem :
    (q i size : ℕ) (part : List Entry) (is_last : Bool)
    → i ≡ q * page_size + length part
    → 0 < length part
    → length part ≤ page_size
    → leb size i ≡ is_last
    → close_page i size (table_of part) ≡ page is_last part
unfolding close_page
close_page_lem q i size part is_last e h k l = rw (l, count) refl
  where
    count :
        to_uint32
          (if ltb page_size i then (if i % page_size == 0 then page_size else i % page_size) else i)
        ≡ length part
    count = ground arith

paged_cons :
    (chunk : List Entry) (chunks : List (List Entry)) {e : Entry} {es : List Entry}
    → concat chunks ≡ e ∷ es
    → paged (chunk ∷ chunks) ≡ page false chunk ∷ paged chunks
paged_cons chunk [] h = cc
paged_cons chunk (next ∷ chunks) h = refl

-- `i` entries are done, in `q` full pages and the page under construction.
record Progress (size i q : ℕ) (part es : List Entry) : Type 0 where
  done : i ≡ q * page_size + length part
  open_page : length part < page_size
  left : size ≡ i + length es

abbrev Cut : ℕ → ℕ → List Entry → List Entry → Type 0
Cut size i part es =
    (chunks : List (List Entry)) × (concat chunks ≡ part ++ es)
    × All IsPage chunks
    × (pages_from size es i (table_of part) ≡ paged chunks)

-- one more entry in the page, which stays open
stay_open :
    (size i : ℕ) (part : List Entry) (e : Entry) (es : List Entry)
    → ((suc i % page_size == 0) || (suc i == size)) ≡ false
    → Cut size (suc i) (part ++ e ∷ []) es
    → Cut size i part (e ∷ es)
stay_open size i part e es h (chunks, joined, sized, same) =
    (chunks, joined ∙ append_assoc part (e ∷ []) es, sized, rw (h, add_entry-table_of e part) same)

-- one more entry, which closes the page
close :
    (size i : ℕ) (part : List Entry) (e : Entry) (es : List Entry) (is_last : Bool)
    (chunks : List (List Entry))
    → ((suc i % page_size == 0) || (suc i == size)) ≡ true
    → IsPage (part ++ e ∷ [])
    → close_page (suc i) size (table_of (part ++ e ∷ [])) ≡ page is_last (part ++ e ∷ [])
    → concat chunks ≡ es
    → All IsPage chunks
    → pages_from size es (suc i) empty_table ≡ paged chunks
    → paged ((part ++ e ∷ []) ∷ chunks) ≡ page is_last (part ++ e ∷ []) ∷ paged chunks
    → Cut size i part (e ∷ es)
close size i part e es is_last chunks h k closed joined sized same p = (
  (part ++ e ∷ []) ∷ chunks,
  ap (λ l. (part ++ e ∷ []) ++ l) joined ∙ append_assoc part (e ∷ []) es,
  (k, sized),
  rw (h, add_entry-table_of e part, closed, same, p) refl,
)

pages_from-paged :
    (size i q : ℕ) (part : List Entry) (e : Entry) (es : List Entry)
    → Progress size i q part (e ∷ es)
    → Cut size i part (e ∷ es)
pages_from-paged size i q part e [] w =
    let n = length-append part (e ∷ []) in
    close size i part e [] true [] (ground (arith, w.left)) (omega (arith, n, w.open_page))
      (close_page_lem q (suc i) size (part ++ e ∷ []) true (omega (arith, n, w.done))
        (omega (arith, n)) (omega (arith, n, w.open_page)) (ground (arith, w.left)))
      refl tt refl refl
pages_from-paged size i q part e (e2 ∷ es) w =
    let n = length-append part (e ∷ []) in
    elim (Bool-cases (suc i % page_size == 0)) [
      | inl z ↦
          let full : length (part ++ e ∷ []) ≡ page_size = ground (arith, n, w.done, w.open_page) in
          let (chunks, joined, sized, same) =
            pages_from-paged size (suc i) (suc q) [] e2 es (record {
              done = omega (arith, full, n, w.done);
              open_page = omega arith;
              left = omega (arith, w.left);
            }) in
          close size i part e (e2 ∷ es) false chunks (ground arith) (omega (arith, full))
            (close_page_lem q (suc i) size (part ++ e ∷ []) false (omega (arith, n, w.done))
              (omega (arith, full)) (omega (arith, full)) (ground (arith, w.left)))
            joined sized same (paged_cons (part ++ e ∷ []) chunks joined)
      | inr z ↦ stay_open size i part e (e2 ∷ es) (ground (arith, w.left)) (
          pages_from-paged size (suc i) q (part ++ e ∷ []) e2 es (record {
            done = omega (arith, n, w.done);
            open_page = ground (arith, n, w.done, w.open_page);
            left = omega (arith, w.left);
          }))
    ]

whole : (size : ℕ) (es : List Entry) → length es ≡ size → Cut size 0 [] es
whole size [] n = ([], refl, tt, refl)
whole size (entry ∷ es) n =
    pages_from-paged size 0 0 [] entry es
      (record { done = omega arith; open_page = omega arith; left = omega (arith, n) })

-- A running server sends the whole node table, whatever its size: its entries, in the order of
-- the map, are cut into pages of 1 to 2000, each page goes to every node before the next one, it
-- counts its entries, and exactly the last one is marked as the end.
pub handle_table_lem :
    (proto : Protobuf) (iterate : NodeDatabase → NodeDatabase) (opens : Bytes → Bool)
    (s : EvalServer) (db : NodeDatabase)
    → s.db ≡ some db
    → s.has_server ≡ true
    → length (iterate db) ≡ length db
    → (chunks : List (List Entry)) × (concat chunks ≡ iterate db)
      × All IsPage chunks
      × (handle_table proto iterate opens s
          ≡ ok (record s { sent = s.sent ++ all_to_all proto (iterate db) (paged chunks) }))
unfolding handle_table send_table
handle_table_lem proto iterate opens s db e h same =
    let (chunks, joined, sized, cut) = whole (length db) (iterate db) same in
    (
      chunks,
      joined,
      sized,
      ap (λ found. send_table proto iterate opens found s) e
          ∙ send_pages_lem proto iterate opens (iterate db) (length db) (iterate db) 0 empty_table s
              h
          ∙ ap (λ l. ok (with_sent s (all_to_all proto (iterate db) l))) cut,
    )

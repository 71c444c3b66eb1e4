-- ===== src/Evaluation/Server/Pages.antt =====
-- The node table that `handle_table` sends in pages.
pub mod Chunks
use fring.Common.{
  ℕ, zero, suc, ◌+◌, ◌*◌, ◌%◌, ◌≤◌, ◌<◌, ◌≡◌, ◌≢◌, refl, sym, ◌∙◌, ap, arith, inl, inr, Bool, true,
  false, ◌||◌, Bool-cases, List, [], ◌∷◌, ◌++◌, append_assoc, append-nil, map, some, none, length,
  length-append, All, ltb, leb, ◌==◌, if◌then◌else◌, Result, ok, ◌>>=◌,
}
use fring.Common.Text.{Bytes}
use fring.Peer.State.{Datagram}
use fring.Evaluation.{table, Table, BootstrapMessage, Protobuf, message, empty_table, to_uint32}
use fring.Evaluation.Server.{
  NodeRecord, NodeDatabase, EvalServer, buffer_of, send, send_page, add_entry, close_page,
  page_size, send_pages, handle_table,
}

abbrev pub Entry : Type 0
Entry = ℕ × NodeRecord

abbrev pub id_of : Entry → ℕ
id_of e = to_uint32 e.0

abbrev pub ip_of : Entry → Bytes
ip_of e = e.1.ip

abbrev pub port_of : Entry → ℕ
port_of e = e.1.broadcast_port

-- a page with these entries
abbrev pub page : Bool → List Entry → BootstrapMessage
page is_last entries = record (message table) {
  table = record {
    table_size = length entries;
    table_ids = map id_of entries;
    table_ips = map ip_of entries;
    table_ports = map port_of entries;
    is_end = is_last;
  };
}

-- a page for each chunk, the last one marked
abbrev pub paged : List (List Entry) → List BootstrapMessage
paged [] = []
paged (chunk ∷ []) = page true chunk ∷ []
paged (chunk ∷ next ∷ chunks) = page false chunk ∷ paged (next ∷ chunks)

abbrev pub concat {ℓ} : {A : Type ℓ} → List (List A) → List A
concat [] = []
concat (xs ∷ xss) = xs ++ concat xss

-- as many entries as a page takes
abbrev pub IsPage : List Entry → Type 0
IsPage chunk = (0 < length chunk) × (length chunk ≤ page_size)

-- The datagrams of a text to all nodes.
abbrev pub to_all : NodeDatabase → Bytes → List Datagram
to_all [] text = []
to_all ((key, r) ∷ db) text =
    record { ip = r.ip; port = r.bootstrap_port; text = text } ∷ to_all db text

abbrev pub all_to_all : Protobuf → NodeDatabase → List BootstrapMessage → List Datagram
all_to_all proto db [] = []
all_to_all proto db (msg ∷ msgs) = to_all db (buffer_of proto msg) ++ all_to_all proto db msgs

abbrev pub with_sent : EvalServer → List Datagram → EvalServer
with_sent s new = record s { sent = s.sent ++ new }

-- the pages that the loop sends, from its state on
abbrev pub pages_from : ℕ → List Entry → ℕ → Table → List BootstrapMessage
pages_from size [] i t = []
pages_from size (entry ∷ entries) i t =
    let t' = add_entry entry t in
    if (suc i % page_size == 0) || (suc i == size)
    then close_page (suc i) size t' ∷ pages_from size entries (suc i) empty_table
    else pages_from size entries (suc i) t'

module _ (proto : Protobuf) (iterate : NodeDatabase → NodeDatabase) (opens : Bytes → Bool) where
  send_lem :
      (ip : Bytes) (port : ℕ) (text : Bytes) (s : EvalServer)
      → s.has_server ≡ true
      → send proto iterate opens ip port text s
        ≡ ok (with_sent s (record { ip = ip; port = port; text = text } ∷ []))
  unfolding send
  send_lem ip port text s h = rw h refl

  with_sent-append :
      (s : EvalServer) (new more : List Datagram)
      → with_sent (with_sent s new) more ≡ with_sent s (new ++ more)
  with_sent-append s new more = ap (λ l. record s { sent = l }) (append_assoc s.sent new more)

  send_page_lem :
      (text : Bytes) (db : NodeDatabase) (s : EvalServer)
      → s.has_server ≡ true
      → send_page proto iterate opens text db s ≡ ok (with_sent s (to_all db text))
  unfolding send_page
  send_page_lem text [] s h = ap (λ l. ok (record s { sent = l })) (sym (append-nil s.sent))
  send_page_lem text ((key, r) ∷ db) s h =
      let new = record { ip = r.ip; port = r.bootstrap_port; text = text } ∷ [] in
      ap (λ call. call >>= send_page proto iterate opens text db)
        (send_lem r.ip r.bootstrap_port text s h)
      ∙ send_page_lem text db (with_sent s new) h
      ∙ ap ok (with_sent-append s new (to_all db text))

  pub send_pages_lem :
      (db : NodeDatabase) (size : ℕ) (entries : List Entry) (i : ℕ) (t : Table) (s : EvalServer)
      → s.has_server ≡ true
      → send_pages proto iterate opens db size entries i t s
        ≡ ok (with_sent s (all_to_all proto db (pages_from size entries i t)))
  unfolding send_pages
  send_pages_lem db size [] i t s h = ap (λ l. ok (record s { sent = l })) (sym (append-nil s.sent))
  send_pages_lem db size (entry ∷ entries) i t s h =
      let text = buffer_of proto (close_page (suc i) size (add_entry entry t)) in
      let rest = send_pages proto iterate opens db size entries (suc i) empty_table in
      elim (Bool-cases ((suc i % page_size == 0) || (suc i == size))) [
        | inl e ↦ rw e (
            ap (λ call. call >>= rest) (send_page_lem text db s h)
            ∙ send_pages_lem db size entries (suc i) empty_table (with_sent s (to_all db text)) h
            ∙ ap ok (with_sent-append s (to_all db text) _))
        | inr e ↦ rw e (send_pages_lem db size entries (suc i) (add_entry entry t) s h)
      ]

-- ===== src/Evaluation/Client/Paging.antt =====
-- The log that `send_push_log` sends in parts.
use fring.Common.{
  ℕ, suc, ◌+◌, ◌*◌, ◌%◌, ◌≤◌, ◌<◌, ◌≡◌, refl, sym, ◌∙◌, ap, arith, inl, inr, Bool-cases, true,
  false, List, [], ◌∷◌, ◌++◌, append_assoc, append-nil, some, none, Option, length, length-append,
  All, ◌==◌,
}
use fring.Common.Text.{Bytes}
use fring.NodeTable.{Ptr, Map}
use fring.Peer.State.{Env, Datagram}
use fring.Peer.Ring.{Deliver}
use fring.Evaluation.{BootstrapMessage, Protobuf}
use fring.Evaluation.Server.{buffer_of}
use fring.Evaluation.Server.Pages.{concat}
use fring.Evaluation.ClientState.{EvalClient, lines_per_message, log_message, and_then, same}
use fring.Evaluation.Client.{send_text, send_message, push_lines}

-- the lines, each with its end
abbrev pub joined : List Bytes → Bytes
joined [] = []
joined (line ∷ lines) = line ++ 10 ∷ joined lines

pub joined-append : (xs ys : List Bytes) → joined (xs ++ ys) ≡ joined xs ++ joined ys
joined-append [] ys = refl
joined-append (x ∷ xs) ys =
    ap (λ l. x ++ 10 ∷ l) (joined-append xs ys) ∙ sym (append_assoc x (10 ∷ joined xs) (joined ys))

joined_last :
    (xs : List Bytes) (line : Bytes) → joined xs ++ (line ++ 10 ∷ []) ≡ joined (xs ++ line ∷ [])
joined_last xs line = sym (joined-append xs (line ∷ []))

-- as many lines as a message takes
abbrev pub IsPart : List Bytes → Type 0
IsPart part = (0 < length part) × (length part ≤ lines_per_message)

-- the messages of the parts
abbrev pub log_messages : Bytes → Bytes → List (List Bytes) → List BootstrapMessage
log_messages run_id node_id [] = []
log_messages run_id node_id (part ∷ parts) =
    log_message run_id node_id (joined part) ∷ log_messages run_id node_id parts

-- to the server, each as a datagram
abbrev pub to_server : Protobuf → EvalClient → List BootstrapMessage → List Datagram
to_server proto s [] = []
to_server proto s (msg ∷ msgs) =
    record {
      ip = s.bootstrap_server_ip;
      port = s.bootstrap_server_port;
      text = buffer_of proto msg;
    }
    ∷ to_server proto s msgs

abbrev pub having_sent : EvalClient → List Datagram → EvalClient
having_sent s new = record s { sent = s.sent ++ new }

abbrev text_of : Option Bytes → Bytes
text_of none = []
text_of (some text) = text

module _ (env : Env) (deliver : Deliver) (hash : Bytes → ℕ) (iterate : Map Ptr → Map Ptr)
    (proto : Protobuf) (records : Bytes → Bytes → Bytes)
    (writes : (msg : BootstrapMessage) → (text : Bytes) × (proto.serialize msg ≡ some text)) where
  abbrev pub pushed : Bytes → Bytes → List Bytes → Bytes → ℕ → EvalClient → EvalClient
  pushed = push_lines env deliver hash iterate proto records

  send_message_lem :
      (msg : BootstrapMessage) (s : EvalClient)
      → s.has_server ≡ true
      → send_message env deliver hash iterate proto records msg s
        ≡ some (having_sent s (to_server proto s (msg ∷ [])))
  unfolding send_message send_text
  send_message_lem msg s h =
      let (text, e) = writes msg in
      let written : send_text env deliver hash iterate proto records (some text) s
          ≡ some (
              having_sent s (
                record { ip = s.bootstrap_server_ip; port = s.bootstrap_server_port; text = text }
                ∷ [])) =
        rw h refl in
      ap (λ found. send_text env deliver hash iterate proto records found s) e
      ∙ written
      ∙ ap
          (λ found. some (
            having_sent s (
              record {
                ip = s.bootstrap_server_ip;
                port = s.bootstrap_server_port;
                text = text_of found;
              }
              ∷ [])))
          (sym e)

  having_sent-append :
      (s : EvalClient) (new more : List Datagram)
      → having_sent (having_sent s new) more ≡ having_sent s (new ++ more)
  having_sent-append s new more = ap (λ l. record s { sent = l }) (append_assoc s.sent new more)

  -- `counter` lines are done, in `q` full messages and the lines `part` in the buffer.
  abbrev Sends : Bytes → Bytes → List Bytes → List Bytes → ℕ → EvalClient → Type 0
  Sends run_id node_id part lines counter s =
      (parts : List (List Bytes)) × (concat parts ≡ part ++ lines)
      × All IsPart parts
      × (pushed run_id node_id lines (joined part) counter s
          ≡ having_sent s (to_server proto s (log_messages run_id node_id parts)))

  push_lines_from :
      (run_id node_id : Bytes) (q : ℕ) (part lines : List Bytes) (counter : ℕ) (s : EvalClient)
      → s.has_server ≡ true
      → counter ≡ q * lines_per_message + length part
      → length part < lines_per_message
      → Sends run_id node_id part lines counter s
  unfolding push_lines
  push_lines_from run_id node_id q [] [] counter s h e open_part =
      let z : (counter % lines_per_message == 0) ≡ true = ground arith in
      ([], refl, tt, rw z (ap (λ l. record s { sent = l }) (sym (append-nil s.sent))))
  push_lines_from run_id node_id q (line ∷ part) [] counter s h e open_part =
      let z : (counter % lines_per_message == 0) ≡ false = ground arith in
      let msg = log_message run_id node_id (joined (line ∷ part)) in
      (
        (line ∷ part) ∷ [],
        refl,
        ((omega arith, omega (arith, open_part)), tt),
        rw z (ap (λ r. and_then r s same) (send_message_lem msg s h)),
      )
  push_lines_from run_id node_id q part (line ∷ lines) counter s h e open_part =
      let n = length-append part (line ∷ []) in
      let longer = joined_last part line in
      elim (Bool-cases (suc counter % lines_per_message == 0)) [
        | inl z ↦
            let full : length (part ++ line ∷ []) ≡ lines_per_message =
              ground (arith, n, e, open_part) in
            let msg = log_message run_id node_id (joined (part ++ line ∷ [])) in
            let now = to_server proto s (msg ∷ []) in
            let (parts, cut, sized, sent) =
              push_lines_from run_id node_id (suc q) [] lines (suc counter) (having_sent s now) h
                (omega (arith, full, n, e)) (omega arith) in
            (
              (part ++ line ∷ []) ∷ parts,
              ap (λ l. (part ++ line ∷ []) ++ l) cut ∙ append_assoc part (line ∷ []) lines,
              ((omega (arith, full), omega (arith, full)), sized),
              rw (z, longer)
                  (ap (λ r. and_then r s (pushed run_id node_id lines [] (suc counter)))
                      (send_message_lem msg s h)
                    ∙ sent
                    ∙ having_sent-append s now _),
            )
        | inr z ↦
            let (parts, cut, sized, sent) =
              push_lines_from run_id node_id q (part ++ line ∷ []) lines (suc counter) s h
                (omega (arith, n, e)) (ground (arith, n, e, open_part)) in
            (parts, cut ∙ append_assoc part (line ∷ []) lines, sized, rw (z, longer) sent)
      ]

  pub push_lines_lem :
      (run_id node_id : Bytes) (lines : List Bytes) (s : EvalClient)
      → s.has_server ≡ true
      → (parts : List (List Bytes)) × (concat parts ≡ lines)
        × All IsPart parts
        × (pushed run_id node_id lines [] 0 s
            ≡ having_sent s (to_server proto s (log_messages run_id node_id parts)))
  push_lines_lem run_id node_id lines s h =
      push_lines_from run_id node_id 0 [] lines 0 s h (omega arith) (omega arith)

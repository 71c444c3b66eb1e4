-- ===== src/Discovery/Commands.antt =====
-- Which command a datagram of src/discovery.cpp is taken for.
use fring.Common.{
  ℕ, ◌≤◌, ◌<◌, ◌≡◌, refl, sym, ◌∙◌, ap, arith, [], ◌∷◌, ◌++◌, length, length-append, take,
  take-append, get_elem?, get_elem?_lt, take_append_le, get_elem?-append_lt, get_elem?-append_at,
  false, ltb, some, ok, le→ltb,
}
use fring.Common.Text.{Bytes, substr}
use fring.Discovery.{
  Discovery, cmd_ping, cmd_pong, receive, dispatch, receive_ping, receive_pong, send_pong, send,
}

-- a datagram long enough is dispatched by its byte 8, with its first eight bytes as the id
receive_lem :
    (now : ℕ) (ip : Bytes) (port : ℕ) (datagram : Bytes) (cmd : ℕ) (d : Discovery)
    → 9 ≤ length datagram
    → get_elem? datagram 8 ≡ some cmd
    → receive now ip port datagram d ≡ dispatch now (take 8 datagram) cmd ip port d
unfolding receive substr
receive_lem now ip port datagram cmd d h e =
    let long : (n : ℕ) → n ≤ 9 → ltb (length datagram) n ≡ false =
      λ n k. le→ltb (length datagram) n (omega (arith, h, k)) in
    rw (long 0 (omega arith), long 9 (omega arith), e) refl

-- Between nodes with ids of eight bytes, a ping is answered with one pong to where it came from, which
-- carries the node's own id, and a pong is handed to `receive_pong` with the id of its sender.
pub receive-command :
    (now : ℕ) (ip : Bytes) (port : ℕ) (id : Bytes) (d : Discovery)
    → length id ≡ 8
    → (receive now ip port (id ++ cmd_ping ∷ []) d
        ≡ ok (record d {
          sent =
              d.sent
              ++ record { ip = ip; port = port; text = d.node_table.self_id ++ cmd_pong ∷ [] } ∷ [];
        }))
      × (receive now ip port (id ++ cmd_pong ∷ []) d ≡ receive_pong now id ip port d)
unfolding dispatch receive_ping send_pong send
receive-command now ip port id d e = (
  receive_lem now ip port (id ++ cmd_ping ∷ []) cmd_ping d (long cmd_ping) (byte cmd_ping),
  receive_lem now ip port (id ++ cmd_pong ∷ []) cmd_pong d (long cmd_pong) (byte cmd_pong)
      ∙ ap (λ x. receive_pong now x ip port d) (front cmd_pong),
)
  where
    long : (c : ℕ) → 9 ≤ length (id ++ c ∷ [])
    long c = omega (arith, e, length-append id (c ∷ []))

    byte : (c : ℕ) → get_elem? (id ++ c ∷ []) 8 ≡ some c
    byte c = ap (λ n. get_elem? (id ++ c ∷ []) n) (sym e) ∙ get_elem?-append_at id c []

    front : (c : ℕ) → take 8 (id ++ c ∷ []) ≡ id
    front c = ap (λ n. take n (id ++ c ∷ [])) (sym e) ∙ take-append id (c ∷ [])

-- A datagram from a node whose id has more than eight bytes, as the ids of 32 digits have, is handled
-- alike whatever its command is: the byte read as the command belongs to the id.
pub receive_ignores_command :
    (now : ℕ) (ip : Bytes) (port : ℕ) (id : Bytes) (cmd cmd' : ℕ) (d : Discovery)
    → 8 < length id
    → receive now ip port (id ++ cmd ∷ []) d ≡ receive now ip port (id ++ cmd' ∷ []) d
receive_ignores_command now ip port id cmd cmd' d h =
    let (c, e) = get_elem?_lt id 8 h in through cmd c e ∙ sym (through cmd' c e)
  where
    through :
        (k c : ℕ)
        → get_elem? id 8 ≡ some c
        → receive now ip port (id ++ k ∷ []) d ≡ dispatch now (take 8 id) c ip port d
    through k c e =
        receive_lem now ip port (id ++ k ∷ []) c d (omega (arith, h, length-append id (k ∷ [])))
          (get_elem?-append_lt 8 id (k ∷ []) h ∙ e)
        ∙ ap (λ x. dispatch now x c ip port d) (take_append_le 8 id (k ∷ []) (omega (arith, h)))

-- ===== src/Wire/SentIds.antt =====
-- The set of sent ids: printing it, and reading it back.
use fring.Common.{
  ℕ, zero, suc, ◌+◌, ◌-◌, ◌≤◌, ◌<◌, ◌≡◌, refl, sym, ◌∙◌, ap, arith, true, false, ◌||◌, [], ◌∷◌,
  ◌++◌, append_assoc, append-nil, length, length-append, take-append, drop, drop-append,
  length-drop, ok, ◌==◌, if◌then◌else◌, ltb, All,
}
use fring.Common.Text.{
  Bytes, beq, beq_iff, find_field, find_absent, substr, substr_field, npos, add_size, sub_size,
  Lacks,
}
use fring.Wire.{
  IdSet, contains, set_insert, append_ids, sent_ids_string, split_ids, last_id, parse_ids,
}
use fring.Wire.Fields.{drop_field, end_of_field}

-- the ids with commas between them
abbrev pub joined : Bytes → IdSet → Bytes
joined id [] = id
joined id (next ∷ ids) = id ++ b',' ∷ joined next ids

append_ids-joined :
    (out id : Bytes) (ids : IdSet) → append_ids out (id ∷ ids) ≡ (out ++ joined id ids) ++ b',' ∷ []
unfolding append_ids
append_ids-joined out id [] = simp append_assoc
append_ids-joined out id (next ∷ ids) =
    append_ids-joined (out ++ (id ++ b',' ∷ [])) next ids ∙ simp append_assoc

pub sent_ids_string-joined : (id : Bytes) (ids : IdSet) → sent_ids_string (id ∷ ids) ≡ joined id ids
unfolding sent_ids_string
sent_ids_string-joined id ids = rw (append_ids-joined [] id ids) (
    let s = joined id ids in
    let n : length (s ++ b',' ∷ []) ≡ length s + 1 = length-append s (b',' ∷ []) in
    let p : ltb 0 (length (s ++ b',' ∷ [])) ≡ true = ground (arith, n) in
    let k : length (s ++ b',' ∷ []) - 1 ≡ length s = omega (arith, n) in
    rw (p, k) (take-append s (b',' ∷ [])))

pub contains-set_insert :
    (id x : Bytes) (s : IdSet) → contains (set_insert id s) x ≡ (beq id x || contains s x)
unfolding set_insert contains
contains-set_insert id x s = ground (arith, beq_iff id x)

-- the last of the ids
abbrev pub last_of : Bytes → IdSet → Bytes
last_of id [] = id
last_of id (next ∷ ids) = last_of next ids

-- all ids but the last, inserted in order
abbrev pub insert_front : Bytes → IdSet → IdSet → IdSet
insert_front id [] acc = acc
insert_front id (next ∷ ids) acc = insert_front next ids (set_insert id acc)

-- The text of an id and of all behind it is at least as long as the last one.
length-last_of : (id : Bytes) (ids : IdSet) → length (last_of id ids) ≤ length (joined id ids)
length-last_of id [] = omega arith
length-last_of id (next ∷ ids) =
    omega (arith, length-last_of next ids, length-append id (b',' ∷ joined next ids))

split_ids-joined :
    (fuel : ℕ) (s id : Bytes) (ids : IdSet) (p : ℕ) (acc : IdSet)
    → length s < p + fuel
    → length s < npos
    → p ≤ length s
    → drop p s ≡ joined id ids
    → All (Lacks b',') (id ∷ ids)
    → split_ids fuel s p acc ≡ ok (length s - length (last_of id ids), insert_front id ids acc)
unfolding split_ids
split_ids-joined zero s id ids p acc enough n h e w = absurd (omega arith)
split_ids-joined (suc fuel) s id [] p acc enough n h e w = rw (find_absent b',' s p (rw e w.0)) (
    ap (λ k. ok (k, acc)) {x = p} {y = length s - length id}
      (omega (arith, length-drop p s, ap length e)))
split_ids-joined (suc fuel) s id (next ∷ ids) p acc enough n h e w =
    let inside = end_of_field s id (joined next ids) b',' p h e in
    let width : sub_size (p + length id) p ≡ length id = omega (arith, inside) in
    let past : add_size (p + length id) 1 ≡ p + length id + 1 = omega (arith, inside) in
    let found : ((p + length id) == npos) ≡ false = ground (arith, inside) in
    rw
      (
        find_field b',' s id (joined next ids) p e w.0,
        found,
        width,
        substr_field s id (b',' ∷ joined next ids) p h e,
        past,
      )
      (split_ids-joined fuel s next ids (p + length id + 1) (set_insert id acc)
        (omega (arith, inside)) n inside (drop_field s id (joined next ids) b',' p e) w.1)

joined_last : (id : Bytes) (ids : IdSet) → (pre : Bytes) × (joined id ids ≡ pre ++ last_of id ids)
joined_last id [] = ([], refl)
joined_last id (next ∷ ids) =
    let (pre, e) = joined_last next ids in
    (id ++ b',' ∷ pre, rw e (sym (append_assoc id (b',' ∷ pre) (last_of next ids))))

last_id-append :
    (pre last : Bytes) (acc : IdSet)
    → length (pre ++ last) < npos
    → last_id (pre ++ last) (length pre) acc
      ≡ ok (if ltb (length last) 2 then acc else set_insert last acc)
unfolding last_id
last_id-append pre last acc n =
    let l : length (pre ++ last) ≡ length pre + length last = length-append pre last in
    let width : sub_size (length (pre ++ last)) (length pre) ≡ length last = omega (arith, n, l) in
    let last_end : drop (length pre) (pre ++ last) ≡ last ++ [] =
      drop-append pre last ∙ sym (append-nil last) in
    let cut : substr (pre ++ last) (length pre) (length last) ≡ ok last =
      substr_field (pre ++ last) last [] (length pre) (omega (arith, l)) last_end in
    rw (width, cut) (ground (arith, l, n))

-- Reading the joined ids back never runs out of rounds. It inserts all ids before the last one; the last
-- is inserted only if it has two bytes or more.
pub parse_ids-joined :
    (id : Bytes) (ids : IdSet)
    → length (joined id ids) < npos
    → All (Lacks b',') (id ∷ ids)
    → parse_ids (joined id ids)
      ≡ ok (
          if ltb (length (last_of id ids)) 2
          then insert_front id ids []
          else set_insert (last_of id ids) (insert_front id ids []))
unfolding parse_ids
parse_ids-joined id ids n w =
    let (pre, e) = joined_last id ids in
    let l = length-append pre (last_of id ids) in
    let k : length (joined id ids) - length (last_of id ids) ≡ length pre =
      omega (arith, l, ap length e) in
    let split =
      split_ids-joined (suc (length (joined id ids))) (joined id ids) id ids 0 [] (omega arith) n
        (omega arith) refl w in
    let front = insert_front id ids [] in
    let at_end : last_id (joined id ids) (length pre) front
        ≡ ok
            (if ltb (length (last_of id ids)) 2 then front else set_insert (last_of id ids) front) =
      rw e (last_id-append pre (last_of id ids) front (rw e at n)) in
    rw (split, k) at_end

contains-insert_front :
    (id : Bytes) (ids acc : IdSet) (x : Bytes)
    → contains (set_insert (last_of id ids) (insert_front id ids acc)) x
      ≡ (contains (id ∷ ids) x || contains acc x)
unfolding contains
contains-insert_front id [] acc x = ground (arith, contains-set_insert id x acc)
contains-insert_front id (next ∷ ids) acc x =
    ground
      (arith, contains-insert_front next ids (set_insert id acc) x, contains-set_insert id x acc)

-- The set that is read back has the members that were printed, if the ids have no comma and the
-- last of them has two bytes or more.
pub parse_ids-sent_ids_string :
    (id : Bytes) (ids : IdSet)
    → length (sent_ids_string (id ∷ ids)) < npos
    → All (Lacks b',') (id ∷ ids)
    → 2 ≤ length (last_of id ids)
    → (s : IdSet) × (parse_ids (sent_ids_string (id ∷ ids)) ≡ ok s)
      × ((x : Bytes) → contains s x ≡ contains (id ∷ ids) x)
parse_ids-sent_ids_string id ids n w two =
    let e = sent_ids_string-joined id ids in
    let n' : length (joined id ids) < npos = rw e at n in
    (
      set_insert (last_of id ids) (insert_front id ids []),
      rw e (rw (parse_ids-joined id ids n' w) (ground arith)),
      λ x. ground (arith, contains-insert_front id ids [] x, contains_nil x),
    )
  where
    contains_nil : (x : Bytes) → contains [] x ≡ false
    contains_nil x = unfold contains in refl

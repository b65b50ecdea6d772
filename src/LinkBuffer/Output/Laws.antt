-- ===== src/LinkBuffer/Output/Laws.antt =====
-- nocopy_linkbuffer.go: what `Bytes`, `GetBytes` and `WriteByte` do with the bytes.
use netpoll.Base.{
  ℕ, zero, suc, ◌+◌, ◌-◌, ◌≤◌, ◌<◌, ◌≡◌, refl, ap, ◌∙◌, ◌⊎◌, inl, inr, false, Option, some, List,
  [], ◌∷◌, ◌++◌, append-nil, append_assoc, arith, ltb, ◌==◌, suc-==-zero, Bool-cases, All, length,
  drop, length-zero, length-drop, take_all, drop-drop, get_elem?-drop, drop_cons,
}
use netpoll.LinkBuffer.Node.{Node, node_len, unread, IsNode, length-unread}
use netpoll.LinkBuffer.State.{LinkBuffer, ok, content, chain, readable, IsReadable}
use netpoll.LinkBuffer.Writer.Pending.{IsWritable, Wrote}
use netpoll.LinkBuffer.Writer.Malloc.{malloc_body-Filled}
use netpoll.LinkBuffer.Output.{copy_nodes, bytes, fill_slots, get_bytes, write_byte}

copy_nodes_lem :
    (k : ℕ) (nds : List Node)
    → k < length nds
    → content (drop (suc k) nds) ≡ []
    → copy_nodes k nds ≡ some (content nds)
unfolding copy_nodes
copy_nodes_lem k [] h e = absurd (omega arith)
copy_nodes_lem zero (nd ∷ nds) h e = rw (e, append-nil (unread nd))
copy_nodes_lem (suc k) (nd ∷ nds) h e = rw (copy_nodes_lem k nds (omega arith) e)

-- The slices concatenated.
abbrev pub concat : List (List ℕ) → List ℕ
concat [] = []
concat (v ∷ vs) = v ++ concat vs

-- What `GetBytes` gives for `slots` slices: a prefix of the bytes, in order, and all of them unless
-- the slices are used up.
pub record Gets (slots : ℕ) (bs : List ℕ) (out : Option (List (List ℕ))) : Type 0 where
  pub slices : List (List ℕ)
  pub rest : List ℕ
  pub runs : out ≡ some slices
  pub prefix : concat slices ++ rest ≡ bs
  pub few : length slices ≤ slots
  pub all : (rest ≡ []) ⊎ (length slices ≡ slots)

fill_slots-Gets :
    (slots k : ℕ) (nds : List Node)
    → k < length nds
    → All IsNode nds
    → content (drop (suc k) nds) ≡ []
    → Gets slots (content nds) (fill_slots slots k nds)
unfolding fill_slots
fill_slots-Gets slots k [] h v e = absurd (omega arith)
fill_slots-Gets zero zero (nd ∷ nds) h v e = record {
  slices = [];
  rest = unread nd ++ content nds;
  runs = refl;
  prefix = refl;
  few = omega arith;
  all = inr refl;
}
fill_slots-Gets zero (suc k) (nd ∷ nds) h v e = record {
  slices = [];
  rest = unread nd ++ content nds;
  runs = refl;
  prefix = refl;
  few = omega arith;
  all = inr refl;
}
fill_slots-Gets (suc slots) zero (nd ∷ nds) h v e = record {
  slices = unread nd ∷ [];
  rest = [];
  runs = rw (suc-==-zero slots);
  prefix = rw (e, append-nil (unread nd ++ []));
  few = omega arith;
  all = inl refl;
}
fill_slots-Gets (suc slots) (suc k) (nd ∷ nds) h v e = elim (Bool-cases (ltb 0 (node_len nd))) [
  | inl holds ↦
      let less : suc slots - 1 ≡ slots = omega arith in
      let y = fill_slots-Gets slots k nds (omega arith) v.1 e in
      record {
        slices = unread nd ∷ y.slices;
        rest = y.rest;
        runs = rw (suc-==-zero slots, less, holds, y.runs);
        prefix =
            append_assoc (unread nd) (concat y.slices) y.rest ∙ ap (λ bs. unread nd ++ bs) y.prefix;
        few = omega (arith, y.few);
        all = elim y.all [ inl none_left ↦ inl none_left | inr full ↦ inr (omega (arith, full)) ];
      }
  | inr lacks ↦
      let nothing : unread nd ≡ [] =
        length-zero (unread nd) (ground (arith, length-unread nd v.0)) in
      let x = fill_slots-Gets (suc slots) k nds (omega arith) v.1 e in
      record {
        slices = x.slices;
        rest = x.rest;
        runs = rw (suc-==-zero slots, lacks, x.runs);
        prefix = rw nothing x.prefix;
        few = x.few;
        all = x.all;
      }
]

module _ (b : LinkBuffer) (v : IsReadable b) (inside : b.flush < length b.nodes) where
  up_to_flush : b.flush - b.read < length (chain b)
  up_to_flush = omega (arith, length-drop b.read b.nodes, v.linked.read_le, inside)

  none_behind : content (drop (suc (b.flush - b.read)) (chain b)) ≡ []
  none_behind =
      let e : b.read + suc (b.flush - b.read) ≡ suc b.flush = omega (arith, v.linked.read_le) in
      rw (drop-drop (suc (b.flush - b.read)) b.read b.nodes, e) v.linked.submitted

  -- `GetBytes(p)` with `0 < len(p)` gives the bytes to be read in order, in at most `len(p)` slices
  -- of the nodes, and all of them unless the slices are used up. The buffer satisfies `IsReadable`,
  -- and `b.flush` is not nil.
  pub get_bytes-Gets : (slots : ℕ) → 0 < slots → Gets slots (readable b) (get_bytes slots b)
  unfolding get_bytes
  get_bytes-Gets slots p =
      let some_slots : (slots == 0) ≡ false = ground arith in
      rw some_slots
        (fill_slots-Gets slots (b.flush - b.read) (chain b) up_to_flush v.linked.valid none_behind)

  -- `Bytes` gives all the bytes to be read, from one node or copied from several. The buffer
  -- satisfies `IsReadable`, and `b.flush` is not nil.
  pub bytes_lem : bytes b ≡ some (readable b)
  unfolding bytes
  bytes_lem = elim (Bool-cases (b.read == b.flush)) [
    | inl same ↦
        let e : b.flush - b.read ≡ 0 = ground arith in
        let (nd, nds, here) = drop_cons b.read b.nodes (ground arith) in
        let tail : content nds ≡ [] = rw (e, here) at none_behind in
        rw (same, get_elem?-drop b.read b.nodes here, here, tail, append-nil (unread nd))
    | inr more ↦
        rw (more, copy_nodes_lem (b.flush - b.read) (chain b) up_to_flush none_behind)
          (ap some (take_all b.length (readable b) (omega (arith, v.counted))))
  ]

  -- `GetBytes` with no slice to fill, on a buffer whose bytes lie in the flush node, gives nothing.
  -- The buffer satisfies `IsReadable`, and `b.flush` is not nil.
  pub get_bytes_none : b.read ≡ b.flush → get_bytes 0 b ≡ some []
  unfolding get_bytes fill_slots
  get_bytes_none same =
      let e : b.flush - b.read ≡ 0 = omega (arith, same) in
      let (nd, nds, here) = drop_cons b.read b.nodes (omega (arith, same, inside)) in rw (e, here)

module _ (alloc : ℕ → List ℕ) (link_buffer_cap : ℕ) (enough : (n : ℕ) → n ≤ length (alloc n)) where
  -- `WriteByte(p)` succeeds and appends `p` to the pending bytes. The buffer satisfies
  -- `IsWritable`. `alloc n` gives at least `n` bytes.
  pub write_byte-Wrote :
      (p : ℕ) (b : LinkBuffer)
      → IsWritable b
      → (b' : LinkBuffer) × (write_byte alloc link_buffer_cap p b ≡ ok b') × Wrote (p ∷ []) b b'
  unfolding write_byte
  write_byte-Wrote p b v =
      let x = malloc_body-Filled alloc link_buffer_cap enough (p ∷ []) b v (omega arith) in
      (x.after, rw (x.mallocs, x.fills), x.wrote)

-- ===== src/LinkBuffer/Writer/Reading.antt =====
-- nocopy_linkbuffer.go: a reader's methods beside the writer's, on one buffer.
use netpoll.Base.{
  ℕ, zero, suc, ◌+◌, ◌-◌, ◌≤◌, ◌≡◌, refl, sym, ap, ◌∙◌, Bool, List, [], ◌∷◌, ◌++◌, map, arith, All,
  length, take, drop, drop-drop, length-map, All-drop,
}
use netpoll.LinkBuffer.Node.{Node, IsNode, frame}
use netpoll.LinkBuffer.State.{LinkBuffer, IsReadable, KeepsWriter}
use netpoll.LinkBuffer.Writer.Pending.{pend, pending_nodes, pending, IsWritten, IsClean, IsWritable}

-- What `IsWritten`, `IsClean` and `pend` say of a frame: `mem`, `len`, `malloc`, `readonly`.
abbrev Frame : Type 0
Frame = List ℕ × ℕ × ℕ × Bool

abbrev IsFramed : Frame → Type 0
IsFramed (mem, len, malloc, _) = (len ≤ malloc) × (malloc ≤ length mem)

abbrev IsUnused : Frame → Type 0
IsUnused (_, len, malloc, _) = (len ≡ 0) × (malloc ≡ 0)

abbrev pending_frames : List Frame → List ℕ
pending_frames [] = []
pending_frames ((mem, len, malloc, _) ∷ fs) =
    take (malloc - len) (drop len mem) ++ pending_frames fs

IsFramed-map : (nds : List Node) → All IsWritten nds → All IsFramed (map frame nds)
IsFramed-map [] v = tt
IsFramed-map (nd ∷ nds) v = ((v.0.len_le, v.0.malloc_le), IsFramed-map nds v.1)

IsUnused-map : (nds : List Node) → All IsClean nds → All IsUnused (map frame nds)
IsUnused-map [] v = tt
IsUnused-map (nd ∷ nds) v = ((v.0.len, v.0.malloc), IsUnused-map nds v.1)

IsWritten-map :
    (nds : List Node) → All IsNode nds → All IsFramed (map frame nds) → All IsWritten nds
IsWritten-map [] n v = tt
IsWritten-map (nd ∷ nds) n v =
    (record { off_le = n.0.read_le; len_le = v.0.0; malloc_le = v.0.1 }, IsWritten-map nds n.1 v.1)

IsClean-map : (nds : List Node) → All IsNode nds → All IsUnused (map frame nds) → All IsClean nds
IsClean-map [] n v = tt
IsClean-map (nd ∷ nds) n v = (
  record { off = omega (arith, n.0.read_le, v.0.0); len = v.0.0; malloc = v.0.1 },
  IsClean-map nds n.1 v.1,
)

pending-frames : (nds : List Node) → pending_frames (map frame nds) ≡ pending_nodes nds
unfolding pend
pending-frames [] = refl
pending-frames (nd ∷ nds) = ap (λ bs. pend nd ++ bs) (pending-frames nds)

drop-frames : (n : ℕ) (nds : List Node) → map frame (drop n nds) ≡ drop n (map frame nds)
drop-frames zero nds = refl
drop-frames (suc n) [] = refl
drop-frames (suc n) (nd ∷ nds) = drop-frames n nds

module _ {b b' : LinkBuffer} (v : IsWritable b) (valid : IsReadable b')
    (kept : KeepsWriter b b') where
  behind : (n : ℕ) → map frame (drop n b'.nodes) ≡ map frame (drop n b.nodes)
  behind n = drop-frames n b'.nodes ∙ ap (drop n) kept.frames ∙ sym (drop-frames n b.nodes)

  nodes_behind : (n : ℕ) → b'.read ≤ n → All IsNode (drop n b'.nodes)
  nodes_behind n le =
      let e : b'.read + (n - b'.read) ≡ n = omega arith in
      rw (← e, ← drop-drop (n - b'.read) b'.read b'.nodes)
        (All-drop IsNode (n - b'.read) (drop b'.read b'.nodes) valid.linked.valid)

  -- A reader's method leaves what is pending.
  pub pending-KeepsWriter : pending b' ≡ pending b
  pending-KeepsWriter = rw kept.flush (
      sym (pending-frames (drop b.flush b'.nodes))
      ∙ ap pending_frames (behind b.flush)
      ∙ pending-frames (drop b.flush b.nodes))

  same_length : length b'.nodes ≡ length b.nodes
  same_length = sym (length-map b'.nodes frame) ∙ ap length kept.frames ∙ length-map b.nodes frame

  pub IsWritable-KeepsWriter : IsWritable b'
  IsWritable-KeepsWriter =
      let read_le = valid.linked.read_le in
      record {
        readable_ok = valid;
        written =
            IsWritten-map (drop b'.flush b'.nodes) (nodes_behind b'.flush read_le)
              (rw (kept.flush, behind b.flush) (IsFramed-map (drop b.flush b.nodes) v.written));
        flush_le = omega (arith, kept.flush, kept.write, v.flush_le);
        write_lt = omega (arith, same_length, kept.write, v.write_lt);
        clean =
            IsClean-map (drop (suc b'.write) b'.nodes)
              (nodes_behind (suc b'.write)
                (omega (arith, read_le, kept.flush, kept.write, v.flush_le)))
              (rw (kept.write, behind (suc b.write))
                (IsUnused-map (drop (suc b.write) b.nodes) v.clean));
        sized = kept.malloc_size ∙ v.sized ∙ ap length (sym pending-KeepsWriter);
      }

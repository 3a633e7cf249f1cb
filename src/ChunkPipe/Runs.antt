-- ===== src/ChunkPipe/Runs.antt =====
-- What holds after any steps of the two threads of a chunk_pipe of emp-ag2pc/backend/helper.h.
use emp_ag2pc.Prelude.{
  ℕ, ◌+◌, ◌%◌, ◌<◌, ◌≡◌, ◌≢◌, refl, sym, ap, subst, ◌∙◌, List, ◌++◌, length, arith, ◌⊎◌, inl, inr,
}
use native.Mathlib.Nat.{mod-eq_of_lt}
use mathlib.Core.List.{append-nil}
use emp_ag2pc.ChunkPipe.Threads.{filling, filled, reading, drained, Config, Reached, start, next}
use emp_ag2pc.ChunkPipe.Index.{apart, held}
use emp_ag2pc.ChunkPipe.Fifo.{IsQueue, Fills, Reads, Step-IsQueue}

module _ {A : Type 0} (d : A) (slots : List A) (some_slots : 0 < length slots) where
  -- After any steps of the two threads, in any order, on a pipe with a slot: the chunks sent are
  -- those taken, in order, followed by those that the pipe holds, which are at most as many as its
  -- slots; a slot that the producer fills is the first free one, with its chunk once it is filled;
  -- a slot that the consumer reads is that of the oldest chunk; and a consumer that has ended found
  -- the pipe closed and empty.
  pub Reached-IsQueue : (c : Config A) → Reached d slots c → IsQueue d c
  Reached-IsQueue _ start = record {
    head_lt = some_slots;
    bounded = omega arith;
    in_order = refl;
    fills = refl;
    reads = tt;
  }
  Reached-IsQueue _ (next c e r s) = Step-IsQueue d c e s (Reached-IsQueue c r)

  -- A consumer that has ended has taken every chunk that was sent, in order.
  pub drained-taken : (c : Config A) → Reached d slots c → c.consumer ≡ drained → c.taken ≡ c.sent
  drained-taken c r e =
      let q = Reached-IsQueue c r in
      let (o, z) = subst (Reads d c.pipe) e q.reads in
      sym (
        q.in_order
        ∙ ap (λ n. c.taken ++ held d c.pipe.slots c.pipe.consumer_head n) z
        ∙ append-nil c.taken)

  -- The producer never fills the slot that the consumer reads.
  pub filling-reading :
      (c : Config A) (i j : ℕ) (v : A)
      → Reached d slots c
      → (c.producer ≡ filling i) ⊎ (c.producer ≡ filled i v)
      → c.consumer ≡ reading j
      → i ≢ j
  filling-reading c i j v r p e =
      let q = Reached-IsQueue c r in
      let (n, y) = subst (Reads d c.pipe) e q.reads in
      elim p [
        | inl f ↦ let (o, l, x) = subst (Fills d c.pipe) f q.fills in differ q.head_lt n l x y
        | inr f ↦ let (o, l, x, g) = subst (Fills d c.pipe) f q.fills in differ q.head_lt n l x y
      ]
    where
      differ :
          c.pipe.consumer_head < length c.pipe.slots
          → 0 < c.pipe.count
          → c.pipe.count < length c.pipe.slots
          → i ≡ (c.pipe.consumer_head + c.pipe.count) % length c.pipe.slots
          → j ≡ c.pipe.consumer_head
          → i ≢ j
      differ h n l x y z = apart (length c.pipe.slots) c.pipe.consumer_head 0 c.pipe.count h n l (
          let m = mod-eq_of_lt h in
          let k : c.pipe.consumer_head + 0 ≡ c.pipe.consumer_head = omega arith in
          ap (λ t. t % length c.pipe.slots) k ∙ m ∙ sym y ∙ sym z ∙ x)

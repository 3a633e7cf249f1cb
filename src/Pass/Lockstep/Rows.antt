-- ===== src/Pass/Lockstep/Rows.antt =====
-- The rows of the ANDs from the garble pass to the evaluate pass of emp-ag2pc/backend/pass_ctx.h:
-- chunked by the one, taken one by one by the other.
use emp_ag2pc.Prelude.{
  ℕ, ◌+◌, ◌<◌, ◌≤◌, ◌≡◌, refl, sym, ap, subst, ◌∙◌, Bool, true, false, List, [], ◌∷◌, ◌++◌, concat,
  concat-snoc, Option, none, some, set, length, length-append, drop, drop-step, drop-all, All, ◌==◌,
  ==_iff, ltb, Bool-cases, inl, inr, arith,
}
use mathlib.Core.List.{append_assoc, append-nil}
use emp_ag2pc.Block.{BlockOps}
use emp_ag2pc.RunState.{lbl, slot_of, hash_cir}
use emp_ag2pc.HalfGate.Defs.{Garbled, garble_and}
use emp_ag2pc.Pass.Source.{Source, ret, public_bit, and_gate, xor_gate, not_gate, run_source}
use emp_ag2pc.Pass.Garble
use emp_ag2pc.Pass.Garble.{Row, k_batch, GarblePass, push_row, shares_at}
use emp_ag2pc.Pass.Evaluate.{EvaluatePass, is_spent, row_at, refill, zero_row}

module _ ⦃B : BlockOps⦄ where
  -- All rows so far.
  abbrev pub emitted : GarblePass → List Row
  emitted p = concat p.published ++ p.cur

  pub emitted-push_row :
      (row : Row) (p : GarblePass) → emitted (push_row row p) ≡ emitted p ++ row ∷ []
  unfolding push_row
  emitted-push_row row p = elim (Bool-cases (length (p.cur ++ row ∷ []) == k_batch)) [
    | inl e ↦ rw e (
        append-nil _
        ∙ concat-snoc p.published (p.cur ++ row ∷ [])
        ∙ sym (append_assoc (concat p.published) p.cur (row ∷ [])))
    | inr e ↦ rw e (sym (append_assoc (concat p.published) p.cur (row ∷ [])))
  ]

  -- A chunk that is sent has a row, and no more than fit.
  abbrev pub Sendable : List Row → Type 0
  Sendable rows = (0 < length rows) × (length rows ≤ k_batch)

  -- The chunks are sendable, the current one has room, and there is a row for each AND.
  pub record Chunked (p : GarblePass) : Type 0 where
    pub sent : All Sendable p.published
    pub room : length p.cur < k_batch
    pub counted : length (emitted p) ≡ p.ai

  pub All-snoc :
      {A : Type 0} (P : A → Type 0) (xs : List A) (x : A) → All P xs → P x → All P (xs ++ x ∷ [])
  All-snoc P [] x h k = (k, tt)
  All-snoc P (y ∷ xs) x (a, h) k = (a, All-snoc P xs x h k)

  pub ai-push_row : (row : Row) (p : GarblePass) → (push_row row p).ai ≡ p.ai
  unfolding push_row
  ai-push_row row p = ground arith

  push_row-Chunked :
      (row : Row) (p : GarblePass) (n : ℕ)
      → All Sendable p.published
      → length p.cur < k_batch
      → length (emitted p) + 1 ≡ n
      → (push_row row p).ai ≡ n
      → Chunked (push_row row p)
  unfolding push_row
  push_row-Chunked row p n s r c h = record {
    sent = sent';
    room = room';
    counted = ap length (emitted-push_row row p) ∙ length-append (emitted p) (row ∷ []) ∙ c ∙ sym h;
  }
    where
      grown : length (p.cur ++ row ∷ []) ≡ length p.cur + 1
      grown = length-append p.cur (row ∷ [])

      under : (n : ℕ) → n ≤ k_batch → (n == k_batch) ≡ false → n < k_batch
      under n l e = ground arith

      sent' : All Sendable (push_row row p).published
      sent' = elim (Bool-cases (length (p.cur ++ row ∷ []) == k_batch)) [
        | inl e ↦
            let l : length (p.cur ++ row ∷ []) ≡ k_batch = (==_iff _ _).0 e in
            rw e (All-snoc Sendable p.published _ s (omega arith, omega arith))
        | inr e ↦ rw e s
      ]

      room' : length (push_row row p).cur < k_batch
      room' = elim (Bool-cases (length (p.cur ++ row ∷ []) == k_batch)) [
        | inl e ↦ rw e (omega arith)
        | inr e ↦ rw e (under (length (p.cur ++ row ∷ [])) (omega (arith, grown)) e)
      ]

  pub keeps-public :
      (v : Bool) (p : GarblePass)
      → let q = (Garble.public_bit v p).1 in
        (q.published ≡ p.published) × (q.cur ≡ p.cur) × (q.ai ≡ p.ai)
  unfolding Garble.public_bit
  keeps-public v p = (ground arith, ground arith, ground arith)

  abbrev pub garbled : Source → GarblePass → GarblePass
  garbled src p = (run_source Garble.ops src p).1

  same-Chunked :
      (p q : GarblePass)
      → (q.published ≡ p.published) × (q.cur ≡ p.cur) × (q.ai ≡ p.ai)
      → Chunked p
      → Chunked q
  same-Chunked p q (a, b, c) h = record {
    sent = rw a h.sent;
    room = rw b h.room;
    counted = rw (a, b, c) h.counted;
  }

  pub garbled-Chunked : (src : Source) (p : GarblePass) → Chunked p → Chunked (garbled src p)
  unfolding run_source Garble.xor_gate Garble.not_gate Garble.and_gate
  garbled-Chunked (ret outs) p h = h
  garbled-Chunked (public_bit v k) p h =
      garbled-Chunked (k (Garble.public_bit v p).0) (Garble.public_bit v p).1
        (same-Chunked p _ (keeps-public v p) h)
  garbled-Chunked (and_gate a b k) p h =
      garbled-Chunked (k p.wid) (Garble.and_gate a b p).1
        (push_row-Chunked _ _ (p.ai + 1) h.sent h.room (omega (arith, h.counted)) (ai-push_row _ _))
  garbled-Chunked (xor_gate a b k) p h =
      garbled-Chunked (k p.wid) (Garble.xor_gate a b p).1
        (record { sent = h.sent; room = h.room; counted = h.counted })
  garbled-Chunked (not_gate a k) p h =
      garbled-Chunked (k p.wid) (Garble.not_gate a p).1
        (record { sent = h.sent; room = h.room; counted = h.counted })

  -- What the garbler makes of an AND in its state, and the row that it sends.
  abbrev pub and_garbled : ℕ → ℕ → GarblePass → Garbled
  and_garbled a b p =
      garble_and (hash_cir p.s.mitc).0 p.s.delta (lbl p.s a) (lbl p.s b)
        (shares_at p.s a b p.wid p.ai)

  abbrev pub and_row : ℕ → ℕ → GarblePass → Row
  and_row a b p = let g = and_garbled a b p in record { g0 = g.g0; g1 = g.g1; b = g.b }

  -- The state to which the row is added.
  abbrev pub and_base : ℕ → ℕ → GarblePass → GarblePass
  and_base a b p = record p {
    wid = p.wid + 1;
    ai = p.ai + 1;
    s = record p.s {
      label_slot = set p.s.label_slot (slot_of p.s.phys p.wid) (and_garbled a b p).label;
      mitc = (hash_cir p.s.mitc).1;
    };
  }

  pub emitted-and_gate :
      (a b : ℕ) (p : GarblePass)
      → emitted (Garble.and_gate a b p).1 ≡ emitted p ++ and_row a b p ∷ []
  unfolding Garble.and_gate
  emitted-and_gate a b p = emitted-push_row (and_row a b p) (and_base a b p)

  -- What the rest of a source adds to the rows.
  pub emits :
      (src : Source) (p : GarblePass)
      → (rest : List Row) × (emitted (garbled src p) ≡ emitted p ++ rest)
  unfolding run_source Garble.xor_gate Garble.not_gate Garble.and_gate
  emits (ret outs) p = ([], sym (append-nil (emitted p)))
  emits (public_bit v k) p =
      let (rest, e) = emits (k (Garble.public_bit v p).0) (Garble.public_bit v p).1 in
      let (a, b, c) = keeps-public v p in (rest, e ∙ rw (a, b) refl)
  emits (and_gate a b k) p =
      let (rest, e) = emits (k p.wid) (Garble.and_gate a b p).1 in
      (
        and_row a b p ∷ rest,
        e
            ∙ ap (λ l. l ++ rest) (emitted-and_gate a b p)
            ∙ append_assoc (emitted p) (and_row a b p ∷ []) rest,
      )
  emits (xor_gate a b k) p = emits (k p.wid) (Garble.xor_gate a b p).1
  emits (not_gate a k) p = emits (k p.wid) (Garble.not_gate a p).1

  -- What `end` publishes.
  pub end-Sendable :
      (p : GarblePass)
      → Chunked p
      → All Sendable (Garble.end p).published × (concat (Garble.end p).published ≡ emitted p)
  unfolding Garble.end
  end-Sendable p h = elim (Bool-cases (ltb 0 (length p.cur))) [
    | inl e ↦
        let some_rows : 0 < length p.cur = ground arith in
        rw e (
          All-snoc Sendable p.published p.cur h.sent (some_rows, omega (arith, h.room)),
          concat-snoc p.published p.cur,
        )
    | inr e ↦
        rw e
          (h.sent, sym (append-nil _) ∙ ap (λ l. concat p.published ++ l) (sym (no_rows p.cur e)))
  ]
    where
      no_rows : (xs : List Row) → ltb 0 (length xs) ≡ false → xs ≡ []
      no_rows [] e = refl
      no_rows (x ∷ xs) e = absurd (let z : length (x ∷ xs) ≤ 0 = ground arith in omega arith)

  -- The rows that the evaluate pass has yet to use.
  abbrev pub left_in : Option (List Row) → ℕ → List Row
  left_in none loc = []
  left_in (some rows) loc = drop loc rows

  abbrev pub awaited : EvaluatePass → List Row
  awaited q = left_in q.cur q.loc ++ concat q.incoming

  abbrev InChunk : Option (List Row) → ℕ → Type 0
  InChunk none loc = Unit
  InChunk (some rows) loc = loc ≤ length rows

  -- No chunk to come is empty, and the current one is not overrun.
  pub record Fed (q : EvaluatePass) : Type 0 where
    pub filled : All (λ rows. 0 < length rows) q.incoming
    pub within : InChunk q.cur q.loc

  -- A refilled state: the row that an AND takes, and what is left behind it.
  pub record Takes (q : EvaluatePass) (row : Row) (rest : List Row) : Type 0 where
    pub taken : row_at q.cur q.loc ≡ row
    pub fed : Fed (record q { loc = q.loc + 1 })
    pub left : awaited (record q { loc = q.loc + 1 }) ≡ rest

  head_or : Row → List Row → Row
  head_or d [] = d
  head_or d (r ∷ rs) = r

  tail_of : List Row → List Row
  tail_of [] = []
  tail_of (r ∷ rs) = rs

  -- The state with the next chunk.
  abbrev next_chunk : EvaluatePass → List (List Row) → EvaluatePass
  next_chunk q [] = record q { cur = none; loc = 0 }
  next_chunk q (rows ∷ rest) = record q { incoming = rest; cur = some rows; loc = 0 }

  next_chunk-Takes :
      (q : EvaluatePass) (inc : List (List Row)) (row : Row) (rest : List Row)
      → All (λ rows. 0 < length rows) inc
      → concat inc ≡ row ∷ rest
      → Takes (next_chunk q inc) row rest
  unfolding head_or tail_of
  next_chunk-Takes q [] row rest f e = absurd (let l = ap length e in omega arith)
  next_chunk-Takes q ([] ∷ more) row rest (n, f) e = absurd (omega arith)
  next_chunk-Takes q ((r ∷ rs) ∷ more) row rest (n, f) e = record {
    taken = ap (head_or r) e;
    fed = record { filled = f; within = omega arith };
    left = ap tail_of e;
  }

  this_chunk-Takes :
      (q : EvaluatePass) (cur : Option (List Row)) (row : Row) (rest : List Row)
      → Fed q
      → q.cur ≡ cur
      → is_spent cur q.loc ≡ false
      → left_in cur q.loc ++ concat q.incoming ≡ row ∷ rest
      → Takes (record q { cur = cur }) row rest
  unfolding head_or tail_of
  this_chunk-Takes q none row rest f c s e = cc
  this_chunk-Takes q (some rows) row rest f c s e =
      let l : q.loc < length rows =
        inside q.loc (length rows) (subst (λ o. InChunk o q.loc) c f.within) s in
      let step = drop-step q.loc rows zero_row l in
      let e' = ap (λ l. l ++ concat q.incoming) step ∙ e in
      record {
        taken = ap (head_or zero_row) e';
        fed = record { filled = f.filled; within = omega arith };
        left = ap tail_of e';
      }
    where
      inside : (a b : ℕ) → a ≤ b → (a == b) ≡ false → a < b
      inside a b l e = ground arith

  spent-left : (cur : Option (List Row)) (loc : ℕ) → is_spent cur loc ≡ true → left_in cur loc ≡ []
  spent-left none loc e = refl
  spent-left (some rows) loc e = drop-all loc rows (omega (arith, (==_iff loc (length rows)).0 e))

  pub refill-Takes :
      (q : EvaluatePass) (row : Row) (rest : List Row)
      → Fed q
      → awaited q ≡ row ∷ rest
      → Takes (refill q) row rest
  unfolding refill
  refill-Takes q row rest f e = elim (Bool-cases (is_spent q.cur q.loc)) [
    | inl s ↦ rw s (
        next_chunk-Takes q q.incoming row rest f.filled
          (ap (λ l. l ++ concat q.incoming) (sym (spent-left q.cur q.loc s)) ∙ e))
    | inr s ↦ rw s (this_chunk-Takes q q.cur row rest f refl s e)
  ]

-- ===== src/Session/Recording.antt =====
-- What AG2PCCtx of emp-ag2pc/session/ag2pc_ctx.h keeps true of its chunk.
use emp_ag2pc.Prelude.{
  ℕ, zero, suc, ◌+◌, ◌<◌, ◌≤◌, ◌≡◌, refl, sym, subst, Bool, true, false, ◌||◌, List, [], ◌∷◌, ◌++◌,
  Option, none, some, ◌==◌, arith, if◌then◌else◌, Bool-cases, Option-cases, inl, inr, ◌>>=◌,
  >>=-inv, some-inj,
}
use emp_ag2pc.Circuit.{Op, and, xor, not, Gate, op_reads, reads, const_op, is_const_op, const_count}
use emp_ag2pc.Session.Recorder.{
  Recorder, empty, max_id, alloc_id, push, record_gate, const_wire, set_const_wire, public_bit,
  and_gate, xor_gate, not_gate, reserve_ids, is_pending, drop_chunk,
}

abbrev pub AllBelow : ℕ → List ℕ → Type 0
AllBelow n [] = Unit
AllBelow n (v ∷ vs) = (v < n) × AllBelow n vs

-- Gates with rising ids from `lo` and below `hi`, each reading only ids below its own.
abbrev pub Chunk : ℕ → ℕ → List Gate → Type 0
Chunk lo hi [] = lo ≤ hi
Chunk lo hi (g ∷ gs) = (lo ≤ g.out) × AllBelow g.out (reads g) × Chunk (g.out + 1) hi gs

-- Whether a gate of the chunk drives wire `id`.
abbrev pub driven : ℕ → List Gate → Bool
driven id [] = false
driven id (g ∷ gs) = id == g.out || driven id gs

-- Whether a gate of the chunk drives wire `id` with the constant `v`.
abbrev pub holds_const : Bool → ℕ → List Gate → Bool
holds_const v id [] = false
holds_const v id (g ∷ gs) =
    (if is_const_op v g.op then id == g.out else false) || holds_const v id gs

abbrev is_some : Option ℕ → ℕ
is_some none = 0
is_some (some w) = 1

pub record Recording (r : Recorder) : Type 0 where
  pub bounded : r.next_id ≤ max_id
  pub chunk : Chunk 0 r.next_id r.chunk_gates
  pub pends : (id : ℕ) → is_pending id r ≡ driven id r.chunk_gates
  pub const_held :
      (v : Bool) (w : ℕ) → const_wire v r ≡ some w → holds_const v w r.chunk_gates ≡ true
  pub const_once : (v : Bool) → const_count v r.chunk_gates ≡ is_some (const_wire v r)

Chunk-snoc :
    (lo hi : ℕ) (gs : List Gate) (g : Gate)
    → g.out ≡ hi
    → AllBelow hi (reads g)
    → Chunk lo hi gs
    → Chunk lo (hi + 1) (gs ++ g ∷ [])
Chunk-snoc lo hi [] g e r h =
    (omega arith, subst (λ n. AllBelow n (reads g)) (sym e) r, omega arith)
Chunk-snoc lo hi (x ∷ gs) g e r (l, rx, h) = (l, rx, Chunk-snoc (x.out + 1) hi gs g e r h)

Chunk-weaken : (lo hi top : ℕ) (gs : List Gate) → hi ≤ top → Chunk lo hi gs → Chunk lo top gs
Chunk-weaken lo hi top [] h c = omega arith
Chunk-weaken lo hi top (x ∷ gs) h (l, rx, c) = (l, rx, Chunk-weaken (x.out + 1) hi top gs h c)

driven-snoc :
    (id : ℕ) (gs : List Gate) (g : Gate) → driven id (gs ++ g ∷ []) ≡ (id == g.out || driven id gs)
driven-snoc id [] g = refl
driven-snoc id (x ∷ gs) g = ground (arith, driven-snoc id gs g)

holds_const-snoc :
    (v : Bool) (id : ℕ) (gs : List Gate) (g : Gate)
    → holds_const v id (gs ++ g ∷ [])
      ≡ ((if is_const_op v g.op then id == g.out else false) || holds_const v id gs)
holds_const-snoc v id [] g = ground arith
holds_const-snoc v id (x ∷ gs) g = ground (arith, holds_const-snoc v id gs g)

const_count-snoc :
    (v : Bool) (gs : List Gate) (g : Gate)
    → const_count v (gs ++ g ∷ []) ≡ const_count v gs + (if is_const_op v g.op then 1 else 0)
const_count-snoc v [] g = omega arith
const_count-snoc v (x ∷ gs) g = omega (arith, const_count-snoc v gs g)

Chunk-le : (lo hi : ℕ) (gs : List Gate) → Chunk lo hi gs → lo ≤ hi
Chunk-le lo hi [] c = c
Chunk-le lo hi (x ∷ gs) (l, rx, c) = omega (arith, Chunk-le (x.out + 1) hi gs c)

pub driven-bound :
    (id lo hi : ℕ) (gs : List Gate) → Chunk lo hi gs → driven id gs ≡ true → (lo ≤ id) × (id < hi)
driven-bound id lo hi [] c h = ground arith
driven-bound id lo hi (x ∷ gs) (l, rx, c) h = elim (Bool-cases (driven id gs)) [
  | inl e ↦ let b = driven-bound id (x.out + 1) hi gs c e in (omega (arith, b.0), b.1)
  | inr e ↦ ground (arith, Chunk-le (x.out + 1) hi gs c)
]

-- The state after a gate that is no constant.
push-Recording :
    (r : Recorder) (a b : ℕ) (op : Op)
    → Recording r
    → r.next_id < max_id
    → ((v : Bool) → is_const_op v op ≡ false)
    → AllBelow r.next_id (op_reads op a b)
    → Recording (push a b r.next_id op (record r { next_id = r.next_id + 1 }))
push-Recording r a b op i h nc l =
    let g : Gate = record { in0 = a; in1 = b; out = r.next_id; op = op } in
    record {
      bounded = omega arith;
      chunk = Chunk-snoc 0 r.next_id r.chunk_gates g refl l i.chunk;
      pends = λ id. rw (driven-snoc id r.chunk_gates g, i.pends id);
      const_held = λ v w e. rw (holds_const-snoc v w r.chunk_gates g, nc v) (i.const_held v w e);
      const_once =
          λ v. rw (const_count-snoc v r.chunk_gates g, nc v) (omega (arith, i.const_once v));
    }

module _ (r : Recorder) (i : Recording r) where
  const_reads : (v : Bool) → AllBelow r.next_id (op_reads (const_op v) 0 0)
  const_reads true = tt
  const_reads false = tt

  new_const_held :
      (v u : Bool) (w : ℕ)
      → const_wire u (set_const_wire v r.next_id r) ≡ some w
      → ((if is_const_op u (const_op v) then w == r.next_id else false)
          || holds_const u w r.chunk_gates)
        ≡ true
  new_const_held true true w e = ground arith
  new_const_held true false w e = i.const_held false w e
  new_const_held false true w e = i.const_held true w e
  new_const_held false false w e = ground arith

  new_const_once :
      (v u : Bool)
      → const_wire v r ≡ none
      → const_count u r.chunk_gates + (if is_const_op u (const_op v) then 1 else 0)
        ≡ is_some (const_wire u (set_const_wire v r.next_id r))
  new_const_once true true e = ground (arith, i.const_once true)
  new_const_once true false e = ground (arith, i.const_once false)
  new_const_once false true e = ground (arith, i.const_once true)
  new_const_once false false e = ground (arith, i.const_once false)

  -- The state after a constant that the chunk does not hold.
  const-Recording :
      (v : Bool)
      → r.next_id < max_id
      → const_wire v r ≡ none
      → Recording (
          set_const_wire v r.next_id
            (push 0 0 r.next_id (const_op v) (record r { next_id = r.next_id + 1 })))
  const-Recording v h e =
      let g : Gate = record { in0 = 0; in1 = 0; out = r.next_id; op = const_op v } in
      record {
        bounded = omega arith;
        chunk = Chunk-snoc 0 r.next_id r.chunk_gates g refl (const_reads v) i.chunk;
        pends = λ id. rw (driven-snoc id r.chunk_gates g, i.pends id);
        const_held = λ u w f. rw (holds_const-snoc u w r.chunk_gates g) (new_const_held v u w f);
        const_once = λ u. rw (const_count-snoc u r.chunk_gates g) (new_const_once v u e);
      }

  drop-Recording : Recording (drop_chunk r)
  unfolding drop_chunk
  drop-Recording = record {
    bounded = i.bounded;
    chunk = omega arith;
    pends = λ id. refl;
    const_held = λ v w e. ground arith;
    const_once = λ v. ground arith;
  }

  record_gate-inv :
      (a b : ℕ) (op : Op) {w : ℕ} {q : Recorder}
      → record_gate a b op r ≡ some (w, q)
      → (r.next_id < max_id)
        × (w ≡ r.next_id)
        × (push a b r.next_id op (record r { next_id = r.next_id + 1 }) ≡ q)
  unfolding record_gate alloc_id
  record_gate-inv a b op h = ground (arith, i.bounded)

  public_bit-inv :
      (v : Bool) {w : ℕ} {q : Recorder}
      → const_wire v r ≡ none
      → public_bit v r ≡ some (w, q)
      → (r.next_id < max_id)
        × (w ≡ r.next_id)
        × (set_const_wire v r.next_id
              (push 0 0 r.next_id (const_op v) (record r { next_id = r.next_id + 1 }))
            ≡ q)
  unfolding public_bit record_gate alloc_id
  public_bit-inv v e h = ground (arith, i.bounded)

  public_bit-same :
      (v : Bool) {w o : ℕ} {q : Recorder}
      → const_wire v r ≡ some o
      → public_bit v r ≡ some (w, q)
      → (o ≡ w) × (r ≡ q)
  unfolding public_bit
  public_bit-same v e h = ground arith

  public_bit-Recording :
      (v : Bool) {w : ℕ} {q : Recorder} → public_bit v r ≡ some (w, q) → Recording q
  public_bit-Recording v {w} {q} h = elim (Option-cases (const_wire v r)) [
    | inr (o, e) ↦ subst Recording (public_bit-same v e h).1 i
    | inl e ↦ let (l, ew, eq) = public_bit-inv v e h in subst Recording eq (const-Recording v l e)
  ]

  gate-Recording :
      (a b : ℕ) (op : Op) {w : ℕ} {q : Recorder}
      → ((v : Bool) → is_const_op v op ≡ false)
      → AllBelow r.next_id (op_reads op a b)
      → record_gate a b op r ≡ some (w, q)
      → Recording q
  gate-Recording a b op nc l h =
      let (n, ew, eq) = record_gate-inv a b op h in
      subst Recording eq (push-Recording r a b op i n nc l)

  and_gate-inv :
      (a b : ℕ) {x : ℕ × Recorder}
      → and_gate a b r ≡ some x
      → (a < r.next_id) × (b < r.next_id) × (record_gate a b and r ≡ some x)
  unfolding and_gate
  and_gate-inv a b h = ground arith

  xor_gate-inv :
      (a b : ℕ) {x : ℕ × Recorder}
      → xor_gate a b r ≡ some x
      → (a < r.next_id) × (b < r.next_id) × (record_gate a b xor r ≡ some x)
  unfolding xor_gate
  xor_gate-inv a b h = ground arith

  not_gate-inv :
      (a : ℕ) {x : ℕ × Recorder}
      → not_gate a r ≡ some x
      → (a < r.next_id) × (record_gate a 0 not r ≡ some x)
  unfolding not_gate
  not_gate-inv a h = ground arith

  and_gate-Recording : (a b : ℕ) {w : ℕ} {q : Recorder} → and_gate a b r ≡ some (w, q) → Recording q
  and_gate-Recording a b h =
      let (la, lb, e) = and_gate-inv a b h in
      gate-Recording a b and (elim [ true ↦ refl | false ↦ refl ]) (lb, (la, tt)) e

  xor_gate-Recording : (a b : ℕ) {w : ℕ} {q : Recorder} → xor_gate a b r ≡ some (w, q) → Recording q
  xor_gate-Recording a b h =
      let (la, lb, e) = xor_gate-inv a b h in
      gate-Recording a b xor (elim [ true ↦ refl | false ↦ refl ]) (lb, (la, tt)) e

  not_gate-Recording : (a : ℕ) {w : ℕ} {q : Recorder} → not_gate a r ≡ some (w, q) → Recording q
  not_gate-Recording a h =
      let (la, e) = not_gate-inv a h in
      gate-Recording a 0 not (elim [ true ↦ refl | false ↦ refl ]) (la, tt) e

Recording-skip :
    (r : Recorder)
    → Recording r
    → r.next_id < max_id
    → Recording (record r { next_id = r.next_id + 1 })
Recording-skip r i h = record {
  bounded = omega arith;
  chunk = Chunk-weaken 0 r.next_id (r.next_id + 1) r.chunk_gates (omega arith) i.chunk;
  pends = i.pends;
  const_held = i.const_held;
  const_once = i.const_once;
}

alloc_id-Recording :
    (r : Recorder) {x : ℕ × Recorder} → Recording r → alloc_id r ≡ some x → Recording x.1
unfolding alloc_id
alloc_id-Recording r i h =
    let (l, e) = alloc_id-inv r i h in subst (λ x. Recording x.1) e (Recording-skip r i l)
  where
    alloc_id-inv :
        (r : Recorder) {x : ℕ × Recorder}
        → Recording r
        → alloc_id r ≡ some x
        → (r.next_id < max_id) × ((r.next_id, record r { next_id = r.next_id + 1 }) ≡ x)
    alloc_id-inv r i h = ground (arith, i.bounded)

reserve_ids-Recording :
    (n : ℕ) (r : Recorder) {x : List ℕ × Recorder}
    → Recording r
    → reserve_ids n r ≡ some x
    → Recording x.1
unfolding reserve_ids alloc_id
reserve_ids-Recording zero r i h = subst (λ x. Recording x.1) (some-inj h) i
reserve_ids-Recording (suc n) r i h =
    let (y, e, f) =
      >>=-inv (alloc_id r) (λ y. do xs ← reserve_ids n y.1; some (y.0 ∷ xs.0, xs.1)) h in
    let (z, g, k) = >>=-inv (reserve_ids n y.1) (λ xs. some (y.0 ∷ xs.0, xs.1)) f in
    subst (λ x. Recording x.1) (some-inj k)
      (reserve_ids-Recording n y.1 (alloc_id-Recording r i e) g)

-- One call of the recorder that returns.
pub data Calls : Recorder → Recorder → Type 0 where
  by_public : {r q : Recorder} (v : Bool) (w : ℕ) → public_bit v r ≡ some (w, q) → Calls r q
  by_and : {r q : Recorder} (a b w : ℕ) → and_gate a b r ≡ some (w, q) → Calls r q
  by_xor : {r q : Recorder} (a b w : ℕ) → xor_gate a b r ≡ some (w, q) → Calls r q
  by_not : {r q : Recorder} (a w : ℕ) → not_gate a r ≡ some (w, q) → Calls r q
  by_reserve : {r q : Recorder} (n : ℕ) (is : List ℕ) → reserve_ids n r ≡ some (is, q) → Calls r q
  by_drop : {r : Recorder} → Calls r (drop_chunk r)

-- The states of a recorder after any calls.
pub data Reached : Recorder → Type 0 where
  new : Reached empty
  call : {r q : Recorder} → Reached r → Calls r q → Reached q

Calls-Recording : {r q : Recorder} → Recording r → Calls r q → Recording q
Calls-Recording {r} i (by_public v w h) = public_bit-Recording r i v h
Calls-Recording {r} i (by_and a b w h) = and_gate-Recording r i a b h
Calls-Recording {r} i (by_xor a b w h) = xor_gate-Recording r i a b h
Calls-Recording {r} i (by_not a w h) = not_gate-Recording r i a h
Calls-Recording {r} i (by_reserve n is h) = reserve_ids-Recording n r i h
Calls-Recording {r} i by_drop = drop-Recording r i

-- After any calls of the recorder: the chunk's gates have rising ids below the next id and read
-- only ids below their own, the ids that are pending are those the chunk drives, a remembered
-- constant is a constant gate of the chunk with that id, and the chunk holds each constant at most
-- once, and only when it is remembered.
pub Reached-Recording : {r : Recorder} → Reached r → Recording r
unfolding empty
Reached-Recording new = record {
  bounded = omega arith;
  chunk = omega arith;
  pends = λ id. refl;
  const_held = elim [ true ↦ λ w e. ground arith | false ↦ λ w e. ground arith ];
  const_once = elim [ true ↦ refl | false ↦ refl ];
}
Reached-Recording (call c s) = Calls-Recording (Reached-Recording c) s

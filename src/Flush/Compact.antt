-- ===== src/Flush/Compact.antt =====
-- The compaction of plan_flush in emp-ag2pc/backend/flush_plan.h keeps the values of wires.
use emp_ag2pc.Prelude.{
  ℕ, suc, ◌+◌, ◌<◌, ◌≡◌, inl, inr, refl, sym, ap, ap₂, ◌∙◌, Bool, true, false, List, [], ◌∷◌,
  get_or, length, mem, arith, Bool-cases, ◌==◌, ==_refl, ==-false,
}
use emp_ag2pc.Circuit.{
  Op, const0, const1, and, xor, not, Gate, op_reads, reads, eval_op, put, eval_gate, eval_gates,
}
use emp_ag2pc.Session.Recording.{Chunk, AllBelow, driven, driven-bound}
use emp_ag2pc.Flush.Plan.{Remap, renamed, has, no_gate, reads_at, rename_op, compact}

-- The map and the values before the gates that are left: a mapped id has its value in the plan
-- under an id below `cid`, and is no wire that is still to come.
pub record Agree (gs : List Gate) (cid : ℕ) (r : Remap) (env env' : ℕ → Bool) : Type 0 where
  pub value : (v : ℕ) → has r v ≡ true → env' (renamed r v) ≡ env v
  pub bound : (v : ℕ) → has r v ≡ true → renamed r v < cid
  pub fresh : (v : ℕ) → driven v gs ≡ true → has r v ≡ false

-- What the marks must give: `kept` says which ids have a value in the plan.
pub record Marks (kept : ℕ → Bool) (gs : List Gate) (bs : List Bool) : Type 0 where
  pub sized : length bs ≡ length gs
  pub of_out : (k : ℕ) → k < length gs → kept (get_or gs k no_gate).out ≡ get_or bs k false
  pub of_reads :
      (k w : ℕ)
      → k < length gs
      → get_or bs k false ≡ true
      → mem w (reads_at gs k) ≡ true
      → kept w ≡ true

Marks-tail :
    {kept : ℕ → Bool} {g : Gate} {gs : List Gate} {b : Bool} {bs : List Bool}
    → Marks kept (g ∷ gs) (b ∷ bs)
    → Marks kept gs bs
Marks-tail m = record {
  sized = omega (arith, m.sized);
  of_out = λ k h. m.of_out (suc k) (omega arith);
  of_reads = λ k w h n r. m.of_reads (suc k) w (omega arith) n r;
}

-- The ids that are kept and not still to come are mapped.
abbrev pub Mapped : (ℕ → Bool) → List Gate → Remap → Type 0
Mapped kept gs r = (w : ℕ) → kept w ≡ true → driven w gs ≡ false → has r w ≡ true

below-mem : (n : ℕ) (vs : List ℕ) (w : ℕ) → AllBelow n vs → mem w vs ≡ true → w < n
below-mem n [] w a m = ground arith
below-mem n (v ∷ vs) w (h, a) m = elim (Bool-cases (w == v)) [
  | inl e ↦ ground arith
  | inr e ↦ below-mem n vs w a (ground arith)
]

pub not_driven : (w lo hi : ℕ) (gs : List Gate) → Chunk lo hi gs → w < lo → driven w gs ≡ false
not_driven w lo hi gs c h = elim (Bool-cases (driven w gs)) [
  | inl e ↦ absurd (omega (arith, (driven-bound w lo hi gs c e).0))
  | inr e ↦ e
]

module _ (g : Gate) (gs : List Gate) (cid : ℕ) (r : Remap) (env env' : ℕ → Bool) (lo hi : ℕ)
    (c : Chunk lo hi (g ∷ gs)) (a : Agree (g ∷ gs) cid r env env') where
  -- A gate that is left out changes no value that is mapped.
  skip-Agree : Agree gs cid r (put env g.out (eval_gate g env)) env'
  skip-Agree = record {
    value = λ v h. rw (other v h) (a.value v h);
    bound = a.bound;
    fresh = λ v h. a.fresh v (ground arith);
  }
    where
      other : (v : ℕ) → has r v ≡ true → (g.out == v) ≡ false
      other v h = ground (arith, a.fresh v)

  -- A gate that is taken has the same value in the plan.
  take-Agree :
      (b : Bool)
      → b ≡ eval_gate g env
      → Agree gs (cid + 1) ((g.out, cid) ∷ r) (put env g.out (eval_gate g env)) (put env' cid b)
  take-Agree b e = record {
    value = λ v h. elim (Bool-cases (g.out == v)) [
      | inl q ↦ rw (q, ==_refl cid) e
      | inr q ↦
          rw (q, ==-false cid (renamed r v) (λ z. absurd (omega (arith, a.bound v (rw q at h)))))
            (a.value v (rw q at h))
    ];
    bound = λ v h. elim (Bool-cases (g.out == v)) [
      | inl q ↦ rw q (omega arith)
      | inr q ↦ rw q (omega (arith, a.bound v (rw q at h)))
    ];
    fresh = λ v h.
        let later = (driven-bound v (g.out + 1) hi gs c.2 h).0 in
        rw (==-false g.out v (λ z. absurd (omega arith))) (a.fresh v (ground arith));
  }

  rename_op-value :
      ((w : ℕ) → mem w (reads g) ≡ true → has r w ≡ true)
      → let ops = rename_op ((g.out, cid) ∷ r) g.op g.in0 g.in1 in
        eval_op g.op (env' ops.0) (env' ops.1) ≡ eval_gate g env
  rename_op-value h = op_value g.op g.in0 g.in1 read_value
    where
      read_value : (w : ℕ) → mem w (reads g) ≡ true → env' (renamed ((g.out, cid) ∷ r) w) ≡ env w
      read_value w m =
          rw (==-false g.out w (λ z. absurd (omega (arith, below-mem g.out (reads g) w c.1 m))))
            (a.value w (h w m))

      op_value :
          (op : Op) (x y : ℕ)
          → ((w : ℕ) → mem w (op_reads op x y) ≡ true → env' (renamed ((g.out, cid) ∷ r) w) ≡ env w)
          → let ops = rename_op ((g.out, cid) ∷ r) op x y in
            eval_op op (env' ops.0) (env' ops.1) ≡ eval_op op (env x) (env y)
      op_value const0 x y f = refl
      op_value const1 x y f = refl
      op_value and x y f = ap₂ (eval_op and) (f x (ground arith)) (f y (ground arith))
      op_value xor x y f = ap₂ (eval_op xor) (f x (ground arith)) (f y (ground arith))
      op_value not x y f = ap (λ z. eval_op not z false) (f x (ground arith))

-- The gates that are left, compacted, give each mapped id its value under its new id, and map
-- every id that is kept.
pub compact-value :
    (kept : ℕ → Bool) (gs : List Gate) (bs : List Bool) (cid : ℕ) (r : Remap) (env env' : ℕ → Bool)
    (lo hi : ℕ)
    → Chunk lo hi gs
    → Agree gs cid r env env'
    → Marks kept gs bs
    → Mapped kept gs r
    → let q = compact gs bs cid r in
      ((v : ℕ) → kept v ≡ true → eval_gates q.0 env' (renamed q.1 v) ≡ eval_gates gs env v)
unfolding compact eval_gates
compact-value kept [] bs cid r env env' lo hi c a m k v h = a.value v (k v h refl)
compact-value kept (g ∷ gs) [] cid r env env' lo hi c a m k v h = absurd (omega (arith, m.sized))
compact-value kept (g ∷ gs) (false ∷ bs) cid r env env' lo hi c a m k v h =
    compact-value kept gs bs cid r (put env g.out (eval_gate g env)) env' (g.out + 1) hi c.2
      (skip-Agree g gs cid r env env' lo hi c a) (Marks-tail m)
      (skipped k (m.of_out 0 (omega arith))) v h
  where
    clash : {x : Bool} → x ≡ false → x ≡ true → ⊥
    clash e f = cc

    skipped : Mapped kept (g ∷ gs) r → kept g.out ≡ false → Mapped kept gs r
    skipped f e w hw d = f w hw (rw (==-false w g.out (λ z. clash e (ap kept (sym z) ∙ hw))) d)
compact-value kept (g ∷ gs) (true ∷ bs) cid r env env' lo hi c a m k v h =
    compact-value kept gs bs (cid + 1) ((g.out, cid) ∷ r) (put env g.out (eval_gate g env)) _
      (g.out + 1) hi c.2
      (take-Agree g gs cid r env env' lo hi c a _
        (rename_op-value g gs cid r env env' lo hi c a known))
      (Marks-tail m) mapped v h
  where
    known : (w : ℕ) → mem w (reads g) ≡ true → has r w ≡ true
    known w q =
        k w (m.of_reads 0 w (omega arith) refl q) (
          not_driven w g.out hi (g ∷ gs) (omega arith, c.1, c.2)
            (below-mem g.out (reads g) w c.1 q))

    mapped : Mapped kept gs ((g.out, cid) ∷ r)
    mapped w hw d = elim (Bool-cases (has r w)) [
      | inl e ↦ ground arith
      | inr e ↦ elim (Bool-cases (g.out == w)) [
        | inl q ↦ ground arith
        | inr q ↦ rw q (k w hw (ground arith))
      ]
    ]

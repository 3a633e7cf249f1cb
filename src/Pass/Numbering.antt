-- ===== src/Pass/Numbering.antt =====
-- Every pass of emp-ag2pc/backend/pass_ctx.h numbers the wires of a source alike.
use emp_ag2pc.Prelude.{ℕ, List, ◌+◌, ◌≡◌, refl, sym, ap, ◌∙◌, Bool, none, some, arith}
use emp_ag2pc.Block.{BlockOps}
use emp_ag2pc.RunState.{RunState}
use emp_ag2pc.Wires.{AShareBundle}
use emp_ag2pc.Pass.Source.{
  Source, ret, public_bit, and_gate, xor_gate, not_gate, PassOps, run_source, Consts, no_consts,
  cached, cache,
}
use emp_ag2pc.Pass.Liveness
use emp_ag2pc.Pass.SlotMask
use emp_ag2pc.Pass.Garble
use emp_ag2pc.Pass.Evaluate
use emp_ag2pc.Pass.GammaCheck

-- The part of a pass that decides the next wire id.
pub record Counter : Type 0 where
  pub wid : ℕ
  pub consts : Consts

unfoldable pub next : Counter → ℕ × Counter
next c = (c.wid, record c { wid = c.wid + 1 })

unfoldable pub next_const : Bool → Counter → ℕ × Counter
next_const v c = elim (cached v c.consts) [
  | some w ↦ (w, c)
  | none ↦ (c.wid, record { wid = c.wid + 1; consts = cache v c.wid c.consts })
]

pub next_const-cached :
    (v : Bool) (c : Counter) {w : ℕ} → cached v c.consts ≡ some w → next_const v c ≡ (w, c)
unfolding next_const
next_const-cached v c e = rw (e, next_const)

pub next_const-new :
    (v : Bool) (c : Counter)
    → cached v c.consts ≡ none
    → next_const v c ≡ (c.wid, record { wid = c.wid + 1; consts = cache v c.wid c.consts })
unfolding next_const
next_const-new v c e = rw (e, next_const)

abbrev pub counting : PassOps Counter
counting = record {
  op_public = next_const;
  op_and = λ _ _. next;
  op_xor = λ _ _. next;
  op_not = λ _. next;
}

-- A pass numbers by its counter alone.
pub record Numbers {S : Type 0} (ops : PassOps S) (count : S → Counter) : Type 0 where
  pub of_public :
      (v : Bool) (s : S)
      → next_const v (count s) ≡ ((ops.op_public v s).0, count (ops.op_public v s).1)
  pub of_and :
      (a b : ℕ) (s : S) → next (count s) ≡ ((ops.op_and a b s).0, count (ops.op_and a b s).1)
  pub of_xor :
      (a b : ℕ) (s : S) → next (count s) ≡ ((ops.op_xor a b s).0, count (ops.op_xor a b s).1)
  pub of_not : (a : ℕ) (s : S) → next (count s) ≡ ((ops.op_not a s).0, count (ops.op_not a s).1)

module _ {S : Type 0} {ops : PassOps S} {count : S → Counter} (n : Numbers ops count) where
  pub run-count :
      (src : Source) (s : S)
      → run_source counting src (count s)
        ≡ ((run_source ops src s).0, count (run_source ops src s).1)
  unfolding run_source
  run-count (ret outs) s = refl
  run-count (public_bit v k) s =
      rw (n.of_public v s) (run-count (k (ops.op_public v s).0) (ops.op_public v s).1)
  run-count (and_gate a b k) s =
      rw (n.of_and a b s) (run-count (k (ops.op_and a b s).0) (ops.op_and a b s).1)
  run-count (xor_gate a b k) s =
      rw (n.of_xor a b s) (run-count (k (ops.op_xor a b s).0) (ops.op_xor a b s).1)
  run-count (not_gate a k) s =
      rw (n.of_not a s) (run-count (k (ops.op_not a s).0) (ops.op_not a s).1)

module _ ⦃B : BlockOps⦄ where
  abbrev pub liveness_count : Liveness.LivenessPass → Counter
  liveness_count p = record { wid = p.wid; consts = p.consts }

  abbrev pub slot_mask_count : SlotMask.SlotMaskPass → Counter
  slot_mask_count p = record { wid = p.wid; consts = p.consts }

  abbrev pub garble_count : Garble.GarblePass → Counter
  garble_count p = record { wid = p.wid; consts = p.consts }

  abbrev pub evaluate_count : Evaluate.EvaluatePass → Counter
  evaluate_count p = record { wid = p.wid; consts = p.consts }

  abbrev pub gamma_count : GammaCheck.GammaCheckPass → Counter
  gamma_count p = record { wid = p.wid; consts = p.consts }

  pub Liveness-Numbers : Numbers Liveness.ops liveness_count
  unfolding next next_const Liveness.public_bit Liveness.and_gate Liveness.xor_gate
      Liveness.not_gate
  Liveness-Numbers = record {
    of_public = λ v s. ground arith;
    of_and = λ a b s. refl;
    of_xor = λ a b s. refl;
    of_not = λ a s. refl;
  }

  pub count-alloc_slot :
      (id : ℕ) (p : SlotMask.SlotMaskPass)
      → slot_mask_count (SlotMask.alloc_slot id p).1 ≡ slot_mask_count p
  unfolding SlotMask.alloc_slot
  count-alloc_slot id p = ground arith

  count-next_lambda_gamma :
      (p : SlotMask.SlotMaskPass)
      → slot_mask_count (SlotMask.next_lambda_gamma p).1 ≡ slot_mask_count p
  unfolding SlotMask.next_lambda_gamma
  count-next_lambda_gamma p = ground arith

  count-free_if_dead :
      (w : ℕ) (p : SlotMask.SlotMaskPass)
      → slot_mask_count (SlotMask.free_if_dead w p) ≡ slot_mask_count p
  unfolding SlotMask.free_if_dead
  count-free_if_dead w p = ground arith

  count-free_operands :
      (a b : ℕ) (p : SlotMask.SlotMaskPass)
      → slot_mask_count (SlotMask.free_operands a b p) ≡ slot_mask_count p
  unfolding SlotMask.free_operands
  count-free_operands a b p =
      ground (arith, count-free_if_dead a p, count-free_if_dead b (SlotMask.free_if_dead a p))

  ruleset slot_mask_counts =
      (count-alloc_slot, count-next_lambda_gamma, count-free_if_dead, count-free_operands)

  pub SlotMask-Numbers : Numbers SlotMask.ops slot_mask_count
  unfolding next next_const SlotMask.public_bit SlotMask.and_gate SlotMask.xor_gate
      SlotMask.not_gate
  SlotMask-Numbers = record {
    of_public = λ v s. ground (arith, count-alloc_slot s.wid (record s { wid = s.wid + 1 }));
    of_and = λ a b s. simp slot_mask_counts;
    of_xor = λ a b s. simp slot_mask_counts;
    of_not = λ a s. simp slot_mask_counts;
  }

  pub Garble-Numbers : Numbers Garble.ops garble_count
  unfolding next next_const Garble.public_bit Garble.and_gate Garble.xor_gate Garble.not_gate
  Garble-Numbers = record {
    of_public = λ v s. ground arith;
    of_and = λ a b s. ground arith;
    of_xor = λ a b s. refl;
    of_not = λ a s. refl;
  }

  pub Evaluate-Numbers : Numbers Evaluate.ops evaluate_count
  unfolding next next_const Evaluate.public_bit Evaluate.and_gate Evaluate.xor_gate
      Evaluate.not_gate
  Evaluate-Numbers = record {
    of_public = λ v s. ground arith;
    of_and = λ a b s. ground arith;
    of_xor = λ a b s. refl;
    of_not = λ a s. refl;
  }

  pub GammaCheck-Numbers : Numbers GammaCheck.ops gamma_count
  unfolding next next_const GammaCheck.public_bit GammaCheck.and_gate GammaCheck.xor_gate
      GammaCheck.not_gate
  GammaCheck-Numbers = record {
    of_public = λ v s. ground arith;
    of_and = λ a b s. refl;
    of_xor = λ a b s. refl;
    of_not = λ a s. refl;
  }

  numbered-alike :
      {S T : Type 0} {p : PassOps S} {q : PassOps T} {c : S → Counter} {d : T → Counter}
      → Numbers p c
      → Numbers q d
      → (src : Source) (s : S) (t : T) → c s ≡ d t
      → (run_source p src s).0 ≡ (run_source q src t).0
  numbered-alike {c} {d} n m src s t e =
      ap (λ r. r.0) (sym (run-count n src s))
      ∙ ap (λ k. (run_source counting src k).0) e
      ∙ ap (λ r. r.0) (run-count m src t)

  -- Driven over the same source from states with the same number of inputs, the slot, the garble,
  -- the evaluate and the gamma-check pass give the outputs the wire ids that the liveness pass
  -- gave them, whatever the other contents of the states, the minted shares and the chunks.
  pub same_wire_ids :
      (src : Source) (st sm ga ev gc : RunState) (mint : ℕ → AShareBundle) (minted : ℕ)
      (incoming : List (List Garble.Row))
      → sm.num_inputs ≡ st.num_inputs
      → ga.num_inputs ≡ st.num_inputs
      → ev.num_inputs ≡ st.num_inputs
      → gc.num_inputs ≡ st.num_inputs
      → let ids = (run_source Liveness.ops src (Liveness.init st)).0 in
        ((run_source SlotMask.ops src (SlotMask.init mint minted sm)).0 ≡ ids)
        × ((run_source Garble.ops src (Garble.init ga)).0 ≡ ids)
        × ((run_source Evaluate.ops src (Evaluate.init incoming ev)).0 ≡ ids)
        × ((run_source GammaCheck.ops src (GammaCheck.init gc)).0 ≡ ids)
  unfolding Liveness.init SlotMask.init Garble.init Evaluate.init GammaCheck.init
  same_wire_ids src st sm ga ev gc mint minted incoming e1 e2 e3 e4 = (
    numbered-alike SlotMask-Numbers Liveness-Numbers src _ _ (start e1),
    numbered-alike Garble-Numbers Liveness-Numbers src _ _ (start e2),
    numbered-alike Evaluate-Numbers Liveness-Numbers src _ _ (start e3),
    numbered-alike GammaCheck-Numbers Liveness-Numbers src _ _ (start e4),
  )
    where
      start :
          {n m : ℕ}
          → n ≡ m
          → ◌≡◌ {A = Counter}
              (record { wid = n; consts = no_consts })
              (record { wid = m; consts = no_consts })
      start e i = record { wid = e i; consts = no_consts }

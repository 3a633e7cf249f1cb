-- ===== src/Pass/Keeps.antt =====
-- What every operation of a pass of emp-ag2pc/backend/pass_ctx.h keeps, its run over a source keeps; and
-- how many ANDs a source has.
use emp_ag2pc.Prelude.{ℕ, suc, ◌+◌, ◌≡◌, sym, ap, ◌∙◌, Bool, arith}
use emp_ag2pc.Pass.Source.{
  Source, ret, public_bit, and_gate, xor_gate, not_gate, PassOps, run_source,
}
use emp_ag2pc.Pass.Numbering.{Counter, next, next_const, Numbers}

pub run_source-keeps :
    {S : Type 0} (ops : PassOps S) (P : S → Type 0)
    → ((v : Bool) (s : S) → P s → P (ops.op_public v s).1)
    → ((a b : ℕ) (s : S) → P s → P (ops.op_and a b s).1)
    → ((a b : ℕ) (s : S) → P s → P (ops.op_xor a b s).1)
    → ((a : ℕ) (s : S) → P s → P (ops.op_not a s).1)
    → (src : Source) (s : S) → P s
    → P (run_source ops src s).1
unfolding run_source
run_source-keeps ops P f g h k (ret outs) s p = p
run_source-keeps ops P f g h k (public_bit v c) s p =
    run_source-keeps ops P f g h k (c (ops.op_public v s).0) (ops.op_public v s).1 (f v s p)
run_source-keeps ops P f g h k (and_gate a b c) s p =
    run_source-keeps ops P f g h k (c (ops.op_and a b s).0) (ops.op_and a b s).1 (g a b s p)
run_source-keeps ops P f g h k (xor_gate a b c) s p =
    run_source-keeps ops P f g h k (c (ops.op_xor a b s).0) (ops.op_xor a b s).1 (h a b s p)
run_source-keeps ops P f g h k (not_gate a c) s p =
    run_source-keeps ops P f g h k (c (ops.op_not a s).0) (ops.op_not a s).1 (k a s p)

-- The number of AND gates that a source emits when the next wire id is that of the counter.
abbrev pub and_count : Counter → Source → ℕ
and_count c (ret outs) = 0
and_count c (public_bit v k) = let (w, c') = next_const v c in and_count c' (k w)
and_count c (and_gate a b k) = suc (and_count (record c { wid = c.wid + 1 }) (k c.wid))
and_count c (xor_gate a b k) = and_count (record c { wid = c.wid + 1 }) (k c.wid)
and_count c (not_gate a k) = and_count (record c { wid = c.wid + 1 }) (k c.wid)

module _ {S : Type 0} {ops : PassOps S} {count : S → Counter} (n : Numbers ops count) (ai : S → ℕ)
    (of_public : (v : Bool) (s : S) → ai (ops.op_public v s).1 ≡ ai s)
    (of_and : (a b : ℕ) (s : S) → ai (ops.op_and a b s).1 ≡ ai s + 1)
    (of_xor : (a b : ℕ) (s : S) → ai (ops.op_xor a b s).1 ≡ ai s)
    (of_not : (a : ℕ) (s : S) → ai (ops.op_not a s).1 ≡ ai s) where
  pub run-and_count :
      (src : Source) (s : S) → ai (run_source ops src s).1 ≡ ai s + and_count (count s) src
  unfolding run_source next
  run-and_count (ret outs) s = omega arith
  run-and_count (public_bit v k) s =
      let (w, t) = ops.op_public v s in
      run-and_count (k w) t
      ∙ ap (λ x. x + and_count (count t) (k w)) (of_public v s)
      ∙ ap (λ z. ai s + and_count z.1 (k z.0)) (sym (n.of_public v s))
  run-and_count (and_gate a b k) s =
      let (w, t) = ops.op_and a b s in
      run-and_count (k w) t
      ∙ ap (λ x. x + and_count (count t) (k w)) (of_and a b s)
      ∙ (let e : (ai s + 1) + and_count (count t) (k w) ≡ ai s + suc (and_count (count t) (k w)) =
            omega arith in
          e)
      ∙ ap (λ z. ai s + suc (and_count z.1 (k z.0))) (sym (n.of_and a b s))
  run-and_count (xor_gate a b k) s =
      let (w, t) = ops.op_xor a b s in
      run-and_count (k w) t
      ∙ ap (λ x. x + and_count (count t) (k w)) (of_xor a b s)
      ∙ ap (λ z. ai s + and_count z.1 (k z.0)) (sym (n.of_xor a b s))
  run-and_count (not_gate a k) s =
      let (w, t) = ops.op_not a s in
      run-and_count (k w) t
      ∙ ap (λ x. x + and_count (count t) (k w)) (of_not a s)
      ∙ ap (λ z. ai s + and_count z.1 (k z.0)) (sym (n.of_not a s))

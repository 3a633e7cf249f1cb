-- ===== src/Pass/Lockstep/Chunks.antt =====
-- The chunks of the garble pass of emp-ag2pc/backend/pass_ctx.h are those that the receiver task of the
-- evaluate pass cuts the stream of rows into.
use emp_ag2pc.Prelude.{
  All, ℕ, zero, suc, ◌+◌, ◌-◌, ◌<◌, ◌≤◌, ◌≡◌, refl, sym, ap, ap₂, subst, ◌∙◌, min, true, false,
  List, [], ◌∷◌, ◌++◌, concat, length, length-append, take, drop, ◌==◌, ==_iff, ltb, Bool-cases,
  inl, inr, arith,
}
use mathlib.Core.List.{append_assoc, append-nil}
use emp_ag2pc.Block.{BlockOps}
use emp_ag2pc.Pass.Source.{Source}
use emp_ag2pc.Pass.Keeps.{run_source-keeps}
use emp_ag2pc.Pass.Garble
use emp_ag2pc.Pass.Garble.{Row, GarblePass, push_row}
use emp_ag2pc.Pass.Evaluate.{k_batch, receive}
use emp_ag2pc.Pass.Lockstep.Rows.{All-snoc, garbled, keeps-public}

take-append : {A : Type 0} (xs ys : List A) → take (length xs) (xs ++ ys) ≡ xs
take-append [] ys = refl
take-append (x ∷ xs) ys = ap (λ l. x ∷ l) (take-append xs ys)

drop-append : {A : Type 0} (xs ys : List A) → drop (length xs) (xs ++ ys) ≡ ys
drop-append [] ys = refl
drop-append (x ∷ xs) ys = drop-append xs ys

module _ ⦃B : BlockOps⦄ where
  -- Every published chunk is full.
  abbrev pub Full : List (List Row) → Type 0
  Full chunks = All (λ rows. length rows ≡ k_batch) chunks

  push_row-Full : (row : Row) (p : GarblePass) → Full p.published → Full (push_row row p).published
  unfolding push_row
  push_row-Full row p h = elim (Bool-cases (length (p.cur ++ row ∷ []) == k_batch)) [
    | inl e ↦ rw e (All-snoc (λ rows. length rows ≡ k_batch) p.published _ h ((==_iff _ _).0 e))
    | inr e ↦ rw e h
  ]

  pub garbled-Full :
      (src : Source) (p : GarblePass) → Full p.published → Full (garbled src p).published
  unfolding Garble.xor_gate Garble.not_gate Garble.and_gate
  garbled-Full src p h =
      run_source-keeps Garble.ops (λ q. Full q.published)
        (λ v q f. subst Full (sym (keeps-public v q).0) f) (λ a b q f. push_row-Full _ _ f)
        (λ a b q f. f) (λ a q f. f) src p h

  -- The last chunk, when it has a row.
  abbrev pub last_chunk : List Row → List (List Row)
  last_chunk [] = []
  last_chunk (r ∷ rs) = (r ∷ rs) ∷ []

  pub published-end : (p : GarblePass) → (Garble.end p).published ≡ p.published ++ last_chunk p.cur
  unfolding Garble.end
  published-end p = ends p.cur refl
    where
      ends :
          (rows : List Row)
          → p.cur ≡ rows
          → (Garble.end p).published ≡ p.published ++ last_chunk rows
      ends [] e = rw e (sym (append-nil p.published))
      ends (r ∷ rs) e = let l : ltb 0 (length (r ∷ rs)) ≡ true = ground arith in rw (e, l) refl

  receive-none : (fuel n : ℕ) (rows : List Row) → receive fuel n n rows ≡ []
  unfolding receive
  receive-none zero n rows = refl
  receive-none (suc fuel) n rows = (let e : ltb n n ≡ false = ground arith in rw e refl)

  -- One turn, for a chunk of the size that is due.
  receive-step :
      (fuel n base : ℕ) (c rest : List Row)
      → base < n
      → length c ≡ min k_batch (n - base)
      → receive (suc fuel) n base (c ++ rest) ≡ c ∷ receive fuel n (base + length c) rest
  unfolding receive
  receive-step fuel n base c rest l e =
      let t : ltb base n ≡ true = ground arith in
      rw (t, ← e)
        (ap₂ ◌∷◌ (take-append c rest) (ap (receive fuel n (base + length c)) (drop-append c rest)))

  pub receive-chunks :
      (fuel n base : ℕ) (full : List (List Row)) (cur : List Row)
      → Full full
      → length cur < k_batch
      → n ≡ base + (length (concat full) + length cur)
      → n - base ≤ fuel
      → receive fuel n base (concat full ++ cur) ≡ full ++ last_chunk cur
  receive-chunks fuel n base [] [] h l e f =
      (let q : base ≡ n = omega arith in ap (λ b. receive fuel n b []) q) ∙ receive-none fuel n []
  receive-chunks zero n base [] (r ∷ rs) h l e f = absurd (omega arith)
  receive-chunks (suc fuel) n base [] (r ∷ rs) h l e f =
      ap (receive (suc fuel) n base) (sym (append-nil (r ∷ rs)))
      ∙ receive-step fuel n base (r ∷ rs) [] (omega arith) (due (length (r ∷ rs)) (omega arith))
      ∙ ap (λ z. (r ∷ rs) ∷ z)
          ((let q : base + length (r ∷ rs) ≡ n = omega arith in ap (λ b. receive fuel n b []) q)
            ∙ receive-none fuel n [])
    where
      due : (m : ℕ) → m ≡ n - base → m ≡ min k_batch (n - base)
      due m q = omega arith
  receive-chunks zero n base (c ∷ cs) cur (a, h) l e f =
      absurd (let z = length-append c (concat cs) in omega arith)
  receive-chunks (suc fuel) n base (c ∷ cs) cur (a, h) l e f =
      let z = length-append c (concat cs) in
      ap (receive (suc fuel) n base) (append_assoc c (concat cs) cur)
      ∙ receive-step fuel n base c (concat cs ++ cur) (omega arith) (omega arith)
      ∙ ap (λ z. c ∷ z)
          (receive-chunks fuel n (base + length c) cs cur h l (omega arith) (omega arith))

-- ===== src/Session/Carried.antt =====
-- The carried state of AG2PCSession in emp-ag2pc/session/ag2pc_session.h: a wire's authenticated
-- state by its id. The map is a list of bindings, the last written first.
use emp_ag2pc.Prelude.{
  ℕ, ◌+◌, Bool, true, false, List, [], ◌∷◌, Option, none, some, get_or, length, ◌==◌, if◌then◌else◌,
  ◌>>=◌, ◌>>◌, guard,
}
use emp_ag2pc.Block.{BlockOps, Block, zero_block}
use emp_ag2pc.Wires.{AShareBundle, zero_bundle, SecureWires, size}

module _ ⦃B : BlockOps⦄ where
  pub record CarriedState : Type 0 where
    pub bundle : AShareBundle
    pub lambda : Bool
    pub label0 : Block
    pub evlbl : Block

  abbrev pub fresh_state : CarriedState
  fresh_state = record {
    bundle = zero_bundle;
    lambda = false;
    label0 = zero_block;
    evlbl = zero_block;
  }

  abbrev pub Carried : Type 0
  Carried = List (ℕ × CarriedState)

  -- `carried_.find(id)`
  abbrev pub find : ℕ → Carried → Option CarriedState
  find id [] = none
  find id ((k, c) ∷ m) = if k == id then some c else find id m

  abbrev pub has_state : Option CarriedState → Bool
  has_state none = false
  has_state (some c) = true

  abbrev pub is_carried : Carried → ℕ → Bool
  is_carried m id = has_state (find id m)

  -- `carried_[id]`, which makes a state where there is none.
  abbrev pub find_or_fresh : ℕ → Carried → CarriedState
  find_or_fresh id m = elim (find id m) [ none ↦ fresh_state | some c ↦ c ]

  -- The party's own kind of label is loaded; the other one stays.
  unfoldable pub carry_load : Bool → SecureWires → ℕ → CarriedState → CarriedState
  carry_load is_eval s i c = record {
    lambda = get_or s.lambda i false;
    bundle = get_or s.wire_bundle i zero_bundle;
    label0 = if is_eval then c.label0 else get_or s.label0 i zero_block;
    evlbl = if is_eval then get_or s.eval_label i zero_block else c.evlbl;
  }

  -- The loop that loads wire `i` of the bundle on into the ids.
  unfoldable pub load_all : Bool → SecureWires → ℕ → List ℕ → Carried → Carried
  load_all is_eval s i [] m = m
  load_all is_eval s i (id ∷ ids) m =
      load_all is_eval s (i + 1) ids ((id, carry_load is_eval s i (find_or_fresh id m)) ∷ m)

  unfoldable pub materialize_into : Bool → List ℕ → SecureWires → Carried → Option Carried
  materialize_into is_eval ids s m = do
    guard (size s == length ids)
    some (load_all is_eval s 0 ids m)

  -- `carry_store_` of one more wire, before those that are gathered already.
  abbrev pub carry_store : Bool → CarriedState → SecureWires → SecureWires
  carry_store is_eval c s = record {
    lambda = c.lambda ∷ s.lambda;
    wire_bundle = c.bundle ∷ s.wire_bundle;
    label0 = if is_eval then s.label0 else c.label0 ∷ s.label0;
    eval_label = if is_eval then c.evlbl ∷ s.eval_label else s.eval_label;
  }

  unfoldable pub gather_carried : Bool → List ℕ → Carried → Option SecureWires
  gather_carried is_eval [] m =
      some (record { lambda = []; wire_bundle = []; label0 = []; eval_label = [] })
  gather_carried is_eval (id ∷ ids) m = do
    c ← find id m
    s ← gather_carried is_eval ids m
    some (carry_store is_eval c s)

  -- The states of a checkpoint: those of the keep ids.
  unfoldable pub prune : (ℕ → Bool) → Carried → Carried
  prune keeps [] = []
  prune keeps ((k, c) ∷ m) = let rest = prune keeps m in if keeps k then (k, c) ∷ rest else rest

-- ===== src/TriplePool/Defs.antt =====
-- TriplePool of emp-ag2pc/backend/triple_pool.h. A layer is the list of its candidates: candidate
-- `i` is entry `i` of the regions a, b and r/c, so `a.mac` is `mac[i]`, `b.mac` is `mac[L + i]` and
-- `c.mac` is `mac[2 * L + i]`. `h t` is MITCCRH at tweak `t`, which both parties seed alike.
use emp_ag2pc.Prelude.{
  ℕ, ◌+◌, ◌-◌, ◌*◌, ◌/◌, Bool, false, ◌^^◌, ◌&&◌, List, map, length, get_or, ltb, ◌==◌,
  if◌then◌else◌, tabulate,
}
use emp_ag2pc.Block.{BlockOps, Block, zero_block, ◌⊕◌, mask, lsb, lsb1}
use emp_ag2pc.Wires.{AShareBundle, zero_bundle}

-- A hash batch takes 8 tweaks, also where it is not full.
unfoldable pub next_tweak : ℕ → ℕ → ℕ
next_tweak gid n = gid + 8 * ((n + 7) / 8)

-- `src` of the shifted index.
unfoldable pub shifted : ℕ → ℕ → ℕ → ℕ
shifted n r i = if ltb i (n - r) then i + r else (i + r) - n

module _ ⦃B : BlockOps⦄ where
  pub record Candidate : Type 0 where
    pub a : AShareBundle
    pub b : AShareBundle
    pub c : AShareBundle

  abbrev pub zero_candidate : Candidate
  zero_candidate = record { a = zero_bundle; b = zero_bundle; c = zero_bundle }

  abbrev pub candidate : List Candidate → ℕ → Candidate
  candidate layer k = get_or layer k zero_candidate

  -- `C`: the party's side of the share of the b-region under both deltas.
  unfoldable pub b_side : Block → Candidate → Block
  b_side delta t = mask (lsb t.b.mac) delta ⊕ t.b.key ⊕ t.b.mac

  -- `g8[j]`, and the entry of `Sout` that the peer's `g` gives.
  unfoldable pub half_gate : (Block → Block) → Block → Candidate → Block
  half_gate h delta t = h t.a.key ⊕ h (t.a.key ⊕ delta) ⊕ b_side delta t

  unfoldable pub leaky_share : (Block → Block) → Block → Candidate → Block → Block
  leaky_share h delta t g =
      let e = h t.a.mac ⊕ mask (lsb t.a.mac) g in
      h t.a.key
      ⊕ e
      ⊕ t.c.key
      ⊕ t.c.mac
      ⊕ mask (lsb t.a.mac) (b_side delta t)
      ⊕ mask (lsb t.c.mac) delta

  -- The half gates `G` that a party sends as the garbler.
  unfoldable pub half_gates : (ℕ → Block → Block) → Block → ℕ → List Candidate → List Block
  half_gates h delta gid layer =
      tabulate (length layer) (λ k. half_gate (h (gid + k)) delta (candidate layer k))

  -- `Sout` of a party, from the half gates that it received.
  unfoldable pub leaky_shares :
      (ℕ → Block → Block) → Block → ℕ → List Candidate → List Block → List Block
  leaky_shares h delta gid layer w =
      tabulate (length layer)
        (λ k. leaky_share (h (gid + k)) delta (candidate layer k) (get_or w k zero_block))

  -- The bits that open `d`.
  unfoldable pub s_bits : List Block → List Bool
  s_bits s = map lsb1 s

  -- Adding the public bit `d` to a share: party 1 flips bit 0 of its MAC, the other moves its
  -- key.
  -- (`bit0_mask` is the block with bit 0 set.)
  unfoldable pub add_public : Block → ℕ → Block → Bool → AShareBundle → AShareBundle
  add_public bit0_mask party delta d w =
      if party == 1
      then record w { mac = w.mac ⊕ mask d bit0_mask }
      else record w { key = w.key ⊕ mask d (delta ⊕ bit0_mask) }

  -- The fold of the opened bits into region 2.
  unfoldable pub fold_d :
      Block → ℕ → Block → List Candidate → List Bool → List Bool → List Candidate
  fold_d bit0_mask party delta layer s_me s_peer = tabulate (length layer) (λ k.
      let d = get_or s_me k false ^^ get_or s_peer k false in
      record (candidate layer k) { c = add_public bit0_mask party delta d (candidate layer k).c })

  -- The L-vector, which goes into the hash for F_eq.
  unfoldable pub fold_s : Block → List Block → List Bool → List Bool → List Block
  fold_s delta s s_me s_peer =
      tabulate (length s)
        (λ k. get_or s k zero_block ⊕ mask (get_or s_me k false ^^ get_or s_peer k false) delta)

  -- The bits that open the difference of the b-regions.
  unfoldable pub bucket_bits : List Candidate → List Candidate → ℕ → List Bool
  bucket_bits acc layer r =
      tabulate (length acc)
        (λ i. lsb (candidate acc i).b.mac ^^ lsb (candidate layer (shifted (length acc) r i)).b.mac)

  -- `x ^ y` and `x ^ (y & m)` of shares.
  abbrev pub add_share : AShareBundle → AShareBundle → AShareBundle
  add_share x y = record { mac = x.mac ⊕ y.mac; key = x.key ⊕ y.key }

  abbrev pub add_masked : AShareBundle → AShareBundle → Bool → AShareBundle
  add_masked x y m = record { mac = x.mac ⊕ mask m y.mac; key = x.key ⊕ mask m y.key }

  unfoldable pub bucket_one_layer :
      List Candidate → List Candidate → ℕ → List Bool → List Bool → List Candidate
  bucket_one_layer acc layer r d_me d_peer = tabulate (length acc) (λ i.
      let x = candidate acc i in
      let y = candidate layer (shifted (length acc) r i) in
      record {
        a = add_share x.a y.a;
        b = x.b;
        c = add_masked (add_share x.c y.c) y.a (get_or d_me i false ^^ get_or d_peer i false);
      })

  -- Layer 0: the masks of the operands with fresh shares for region r.
  unfoldable pub representative :
      List AShareBundle → List AShareBundle → List AShareBundle → List Candidate
  representative rep_a rep_b fresh = tabulate (length rep_a) (λ i. record {
    a = get_or rep_a i zero_bundle;
    b = get_or rep_b i zero_bundle;
    c = get_or fresh i zero_bundle;
  })

  -- `xb_me` and `yb_me`
  unfoldable pub x_bits : List AShareBundle → List Candidate → List Bool
  x_bits rep_a acc =
      tabulate (length acc)
        (λ i. lsb (get_or rep_a i zero_bundle).mac ^^ lsb (candidate acc i).a.mac)

  unfoldable pub y_bits : List AShareBundle → List Candidate → List Bool
  y_bits rep_b acc =
      tabulate (length acc)
        (λ i. lsb (get_or rep_b i zero_bundle).mac ^^ lsb (candidate acc i).b.mac)

  -- The shares of sigma, from the opened differences `xb` and `yb`.
  unfoldable pub reconcile :
      Block → ℕ → Block → List Candidate → List Bool → List Bool → List AShareBundle
  reconcile bit0_mask party delta acc xb yb = tabulate (length acc) (λ i.
      let t = candidate acc i in
      let x = get_or xb i false in
      let y = get_or yb i false in
      add_public bit0_mask party delta (x && y) (add_masked (add_masked t.c t.b x) t.a y))

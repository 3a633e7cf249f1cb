-- ===== src/Protocol/Inputs.antt =====
-- The input phase, run by both parties: process_inputs of emp-ag2pc/backend/protocol.h.
use emp_ag2pc.Prelude.{
  concat, ℕ, zero, suc, ◌<◌, ◌≡◌, refl, sym, ap, ap₂, ◌∙◌, Bool, true, false, ◌^^◌, ^^_comm, List,
  [], ◌∷◌, some, length, length-append, get_or, map, arith, if◌then◌else◌, ◌==◌, ==_iff, Bool-cases,
  inl, inr,
}
use emp_ag2pc.Block.{BlockOps, Block, zero_block, ◌⊕◌, mask, lsb}
use emp_ag2pc.Wires.{AShareBundle, zero_bundle, SecureWires}
use emp_ag2pc.HalfGate.Defs.{IsAuth, shared}
use emp_ag2pc.Protocol.Defs.{
  Hashing, share_bits, open_shares, accepts, input_message, input_masks, input_bundle, input_labels,
  process_inputs, own_x_bits, owner_of_wire, own_x_packed, fold_peer_x, total, all_owned, cut,
  no_wires,
}
use emp_ag2pc.Protocol.Lists.{
  xor_bits, others, fold-packed, chosen, SameShape, length-map, length-zip_with, get_or-zip_with,
}
use emp_ag2pc.Protocol.Owners.{
  Parted, own-others, owner_of_wire-same, total-same, SameShape-symm, SameShape-length,
  length-owner_of_wire, length-own_x_bits, Parted-owner_of_wire, all_owned-Parted, chosen_symm,
}
use emp_ag2pc.Protocol.Cut.{cut-chosen}
use emp_ag2pc.Protocol.Wire.{Holds, accepts-open_shares}

xor_bits_assoc :
    (xs ys zs : List Bool) → xor_bits (xor_bits xs ys) zs ≡ xor_bits xs (xor_bits ys zs)
xor_bits_assoc [] ys zs = refl
xor_bits_assoc (x ∷ xs) [] zs = refl
xor_bits_assoc (x ∷ xs) (y ∷ ys) [] = refl
xor_bits_assoc (x ∷ xs) (y ∷ ys) (z ∷ zs) = ap₂ ◌∷◌ (ground arith) (xor_bits_assoc xs ys zs)

xor_bits_comm : (xs ys : List Bool) → xor_bits xs ys ≡ xor_bits ys xs
xor_bits_comm [] [] = refl
xor_bits_comm [] (y ∷ ys) = refl
xor_bits_comm (x ∷ xs) [] = refl
xor_bits_comm (x ∷ xs) (y ∷ ys) = ap₂ ◌∷◌ (^^_comm x y) (xor_bits_comm xs ys)

module _ ⦃B : BlockOps⦄ where
  masks-at :
      (ws us : List AShareBundle) (vs : List Bool) (i : ℕ)
      → i < length vs
      → length ws ≡ length vs
      → length us ≡ length vs
      → get_or (xor_bits (xor_bits (share_bits ws) (share_bits us)) vs) i false
        ≡ get_or vs i false ^^ shared (get_or ws i zero_bundle) (get_or us i zero_bundle)
  masks-at [] us [] i h l m = absurd (omega arith)
  masks-at [] us (v ∷ vs) i h l m = absurd (omega arith)
  masks-at (w ∷ ws) [] vs i h l m = absurd (omega arith)
  masks-at (w ∷ ws) (u ∷ us) [] i h l m = absurd (omega arith)
  masks-at (w ∷ ws) (u ∷ us) (v ∷ vs) zero h l m = ground arith
  masks-at (w ∷ ws) (u ∷ us) (v ∷ vs) (suc i) h l m =
      masks-at ws us vs i (omega arith) (omega arith) (omega arith)

module _ ⦃B : BlockOps⦄ (H : Hashing Block) where
  -- One party's masks after the exchange.
  masks-exchanged :
      (p q : ℕ) (os : List ℕ) (bs cs : List (List Bool)) (ws us : List AShareBundle)
      → SameShape os bs cs
      → Parted p q os
      → length ws ≡ total bs
      → length us ≡ total bs
      → input_masks H p os bs ws (input_message H q os cs us)
        ≡ xor_bits (xor_bits (share_bits ws) (share_bits us)) (concat (chosen p os bs cs))
  unfolding input_masks input_message open_shares
  masks-exchanged p q os bs cs ws us s a lw lu =
      let n = SameShape-length os bs cs s in
      let n' = SameShape-length os cs bs (SameShape-symm os bs cs s) in
      let lo = length-owner_of_wire os bs n in
      let lx = length-own_x_bits p os bs n in
      let ly = length-own_x_bits q os cs n' ∙ sym (total-same os bs cs s) in
      let ls =
        length-zip_with (λ a b. a ^^ b) (share_bits ws) (share_bits us)
          (omega (
            arith,
            length-map (λ (w : AShareBundle). lsb w.mac) ws,
            length-map (λ (w : AShareBundle). lsb w.mac) us,
          )) in
      let lb = length-map (λ (w : AShareBundle). lsb w.mac) ws in
      ap
        (λ o.
          fold_peer_x p (owner_of_wire os bs)
            (xor_bits (xor_bits (share_bits ws) (share_bits us)) (own_x_bits p os bs))
            (own_x_packed q o (own_x_bits q os cs)))
        (sym (owner_of_wire-same os bs cs s))
      ∙ fold-packed p q (owner_of_wire os bs)
          (xor_bits (xor_bits (share_bits ws) (share_bits us)) (own_x_bits p os bs))
          (own_x_bits q os cs)
          (omega (
            arith,
            length-zip_with (λ a b. a ^^ b) (xor_bits (share_bits ws) (share_bits us))
                (own_x_bits p os bs) (omega arith),
          ))
          (omega arith) (Parted-owner_of_wire p q os bs a)
      ∙ xor_bits_assoc _ (own_x_bits p os bs) (others p (owner_of_wire os bs) (own_x_bits q os cs))
      ∙ ap (xor_bits (xor_bits (share_bits ws) (share_bits us))) (own-others p q os bs cs s a)

  length-concat-chosen :
      (p : ℕ) (os : List ℕ) (bs cs : List (List Bool))
      → SameShape os bs cs
      → length (concat (chosen p os bs cs)) ≡ total bs
  length-concat-chosen p [] [] [] s = refl
  length-concat-chosen p [] [] (c ∷ cs) s = absurd s
  length-concat-chosen p [] (b ∷ bs) cs s = absurd s
  length-concat-chosen p (o ∷ os) [] cs s = absurd s
  length-concat-chosen p (o ∷ os) (b ∷ bs) [] s = absurd s
  length-concat-chosen p (o ∷ os) (b ∷ bs) (c ∷ cs) (l, s) = elim (Bool-cases (o == p)) [
    | inl e ↦ rw e (
        omega
          (arith, length-append b (concat (chosen p os bs cs)), length-concat-chosen p os bs cs s))
    | inr e ↦ rw e (
        omega
          (arith, length-append c (concat (chosen p os bs cs)), length-concat-chosen p os bs cs s))
  ]

  -- The combined bundles hold the owners' bits.
  bundle-Holds :
      (delta_g delta_e : Block) (os : List ℕ) (bg be : List (List Bool)) (ws us : List AShareBundle)
      (labels ls : List Block)
      → SameShape os bg be
      → Parted 1 2 os
      → Parted 2 1 os
      → length ws ≡ total bg
      → length us ≡ total bg
      → length labels ≡ total bg
      → ((i : ℕ)
          → i < total bg
          → IsAuth delta_e (get_or ws i zero_bundle) (get_or us i zero_bundle)
            × IsAuth delta_g (get_or us i zero_bundle) (get_or ws i zero_bundle))
      → let to_e = input_message H 1 os bg ws in
        let to_g = input_message H 2 os be us in
        Holds delta_g delta_e
          (input_bundle H 1 delta_g os bg ws labels to_g ls)
          (input_bundle H 2 delta_e os be us [] to_e
            (input_labels H 1 delta_g labels (input_masks H 1 os bg ws to_g)))
          (concat (chosen 1 os bg be))
  unfolding input_bundle input_labels
  bundle-Holds delta_g delta_e os bg be ws us labels ls s a a' lw lu ll auth =
      let vs = concat (chosen 1 os bg be) in
      let t : total bg ≡ total be = total-same os bg be s in
      let lv : length vs ≡ total bg = length-concat-chosen 1 os bg be s in
      let eg = masks-exchanged 1 2 os bg be ws us s a lw lu in
      let ee : input_masks H 2 os be us (input_message H 1 os bg ws)
          ≡ xor_bits (xor_bits (share_bits ws) (share_bits us)) vs =
        masks-exchanged 2 1 os be bg us ws (SameShape-symm os bg be s) a' (lu ∙ t) (lw ∙ t)
        ∙ ap₂ xor_bits (xor_bits_comm (share_bits us) (share_bits ws))
            (ap concat (chosen_symm 1 2 os bg be s a)) in
      let lsw = length-map (λ (w : AShareBundle). lsb w.mac) ws in
      let lsu = length-map (λ (w : AShareBundle). lsb w.mac) us in
      let l1 : length (xor_bits (share_bits ws) (share_bits us)) ≡ total bg =
        length-zip_with (λ a b. a ^^ b) (share_bits ws) (share_bits us)
          (lsw ∙ lw ∙ sym lu ∙ sym lsu)
        ∙ lsw
        ∙ lw in
      let l2 : length (xor_bits (xor_bits (share_bits ws) (share_bits us)) vs) ≡ total bg =
        length-zip_with (λ a b. a ^^ b) (xor_bits (share_bits ws) (share_bits us)) vs (l1 ∙ sym lv)
        ∙ l1 in
      rw (eg, ee)
        (record {
          lambdas_g = l2 ∙ sym lv;
          lambdas_e = l2 ∙ sym lv;
          bundles_g = lw ∙ sym lv;
          bundles_e = lu ∙ sym lv;
          labels_g = ll ∙ sym lv;
          labels_e =
              length-zip_with (λ l m. l ⊕ mask m delta_g) labels _ (ll ∙ sym l2) ∙ ll ∙ sym lv;
          at = λ i k.
              let n : i < total bg = omega arith in
              record {
                auth_g = (auth i n).0;
                auth_e = (auth i n).1;
                masked = masks-at ws us vs i (omega arith) (omega arith) (omega arith);
                agreed = refl;
                labelled =
                    get_or-zip_with (λ l m. l ⊕ mask m delta_g) labels _ i zero_block false
                      zero_block (omega arith) (ll ∙ sym l2);
              };
        })

  no_wires-map :
      (bs : List (List Bool)) (k : ℕ) → get_or (map (λ _. no_wires) bs) k no_wires ≡ no_wires
  no_wires-map [] k = refl
  no_wires-map (b ∷ bs) zero = refl
  no_wires-map (b ∷ bs) (suc k) = no_wires-map bs k

  no-bits :
      (os : List ℕ) (bs cs : List (List Bool)) (k : ℕ)
      → SameShape os bs cs
      → total bs ≡ 0
      → get_or (chosen 1 os bs cs) k [] ≡ []
  no-bits [] [] [] k s z = refl
  no-bits [] [] (c ∷ cs) k s z = absurd s
  no-bits [] (b ∷ bs) cs k s z = absurd s
  no-bits (o ∷ os) [] cs k s z = absurd s
  no-bits (o ∷ os) (b ∷ bs) [] k s z = absurd s
  no-bits (o ∷ os) ([] ∷ bs) ([] ∷ cs) zero s z = ite_self (o == 1)
    where
      ite_self : (t : Bool) → (if◌then◌else◌ {A = List Bool} t [] []) ≡ []
      ite_self true = refl
      ite_self false = refl
  no-bits (o ∷ os) ((x ∷ b) ∷ bs) (c ∷ cs) zero s z = absurd (omega arith)
  no-bits (o ∷ os) ([] ∷ bs) ((x ∷ c) ∷ cs) zero (l, s) z = absurd (omega arith)
  no-bits (o ∷ os) (b ∷ bs) (c ∷ cs) (suc k) (l, s) z = no-bits os bs cs k s (omega arith)

  no-bits_Holds :
      (delta_g delta_e : Block) (os : List ℕ) (bg be : List (List Bool)) (k : ℕ)
      → SameShape os bg be
      → total bg ≡ 0
      → Holds delta_g delta_e
          (get_or (map (λ _. no_wires) bg) k no_wires)
          (get_or (map (λ _. no_wires) be) k no_wires)
          (get_or (chosen 1 os bg be) k [])
  no-bits_Holds delta_g delta_e os bg be k s z =
      rw (no_wires-map bg k, no_wires-map be k, no-bits os bg be k s z)
        (record {
          lambdas_g = refl;
          lambdas_e = refl;
          bundles_g = refl;
          bundles_e = refl;
          labels_g = refl;
          labels_e = refl;
          at = λ i h. absurd (omega arith);
        })

  -- What a run of the input phase by both parties gives for owner `k`.
  pub record Enters (delta_g delta_e : Block) (os : List ℕ) (bg be : List (List Bool))
      (ws us : List AShareBundle) (labels : List Block) (k : ℕ) : Type 0 where
    pub at_g : List SecureWires
    pub at_e : List SecureWires
    pub sent : List Block
    pub garbler_returns :
        process_inputs H 1 delta_g os bg ws labels (input_message H 2 os be us) []
        ≡ some (at_g, sent)
    pub evaluator_returns :
        process_inputs H 2 delta_e os be us [] (input_message H 1 os bg ws) sent ≡ some (at_e, [])
    pub owner_Holds :
        Holds delta_g delta_e
          (get_or at_g k no_wires)
          (get_or at_e k no_wires)
          (get_or (chosen 1 os bg be) k [])

  -- Honest parties that name the same owners, each the garbler or the evaluator, and as many bits
  -- for each owner, and draw as many shares that are authenticated both ways: both calls return,
  -- and the bundles of owner `k` hold its bits, the garbler's or the evaluator's.
  pub process_inputs_correct :
      (delta_g delta_e : Block) (os : List ℕ) (bg be : List (List Bool)) (ws us : List AShareBundle)
      (labels : List Block) (k : ℕ)
      → all_owned os ≡ true
      → SameShape os bg be
      → length ws ≡ total bg
      → length us ≡ total bg
      → length labels ≡ total bg
      → ((i : ℕ)
          → i < total bg
          → IsAuth delta_e (get_or ws i zero_bundle) (get_or us i zero_bundle)
            × IsAuth delta_g (get_or us i zero_bundle) (get_or ws i zero_bundle))
      → k < length os
      → Enters delta_g delta_e os bg be ws us labels k
  unfolding process_inputs accepts input_message cut input_labels input_bundle input_masks
  process_inputs_correct delta_g delta_e os bg be ws us labels k o s lw lu ll auth h =
      let n : length os ≡ length bg = SameShape-length os bg be s in
      let n' : length os ≡ length be = SameShape-length os be bg (SameShape-symm os bg be s) in
      let t : total bg ≡ total be = total-same os bg be s in
      let (a, a') = all_owned-Parted os o in
      elim (Bool-cases (total bg == 0)) [
        | inr z ↦
            let z' : (total be == 0) ≡ false = ap (λ t. t == 0) (sym t) ∙ z in
            record {
              at_g =
                  cut 0 bg
                    (input_bundle H 1 delta_g os bg ws labels (input_message H 2 os be us) []);
              at_e = cut 0 be (
                  input_bundle H 2 delta_e os be us [] (input_message H 1 os bg ws) (
                    input_labels H 1 delta_g labels
                      (input_masks H 1 os bg ws (input_message H 2 os be us))));
              sent =
                  input_labels H 1 delta_g labels
                    (input_masks H 1 os bg ws (input_message H 2 os be us));
              garbler_returns = rw (
                (==_iff _ _).1 n,
                o,
                z,
                accepts-open_shares H delta_g us ws (lu ∙ sym lw) (λ i k. (auth i (omega arith)).1),
              );
              evaluator_returns = rw (
                (==_iff _ _).1 n',
                o,
                z',
                accepts-open_shares H delta_e ws us (lw ∙ sym lu) (λ i k. (auth i (omega arith)).0),
              );
              owner_Holds =
                  cut-chosen delta_g delta_e _ _ os bg be k s
                    (bundle-Holds delta_g delta_e os bg be ws us labels [] s a a' lw lu ll auth)
                    (omega arith);
            }
        | inl z ↦
            let z' : (total be == 0) ≡ true = ap (λ t. t == 0) (sym t) ∙ z in
            record {
              at_g = map (λ _. no_wires) bg;
              at_e = map (λ _. no_wires) be;
              sent = [];
              garbler_returns = rw ((==_iff _ _).1 n, o, z);
              evaluator_returns = rw ((==_iff _ _).1 n', o, z');
              owner_Holds = no-bits_Holds delta_g delta_e os bg be k s ((==_iff _ _).0 z);
            }
      ]

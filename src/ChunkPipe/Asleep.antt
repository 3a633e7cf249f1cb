-- ===== src/ChunkPipe/Asleep.antt =====
-- A thread that sleeps in a chunk_pipe of emp-ag2pc/backend/helper.h, step by step until it is woken.
use emp_ag2pc.Prelude.{
  ℕ, ◌+◌, ◌%◌, ◌<◌, ◌≤◌, ◌≡◌, ◌∙◌, refl, sym, true, false, ◌⊎◌, inl, inr, length, length-set, none,
  some, arith,
}
use emp_ag2pc.ChunkPipe.Defs.{
  producer_slot, producer_publish, producer_close, consumer_slot, consumer_release, notify_full,
  notify_free,
}
use emp_ag2pc.ChunkPipe.Threads.{
  idle, filling, filled, Consumer, waiting, reading, Config, Step, acquire, fill, publish, close,
  take_slot, release, drain, sleep_free, sleep_full,
}
use emp_ag2pc.ChunkPipe.Inevitable.{
  Inevitable, now, later, HasSlot, HasChunk, oldest, first_free, can_release, can_take, can_acquire,
  can_fill, can_publish,
}

module _ {A : Type 0} (d : A) where
  -- A producer that sleeps while the consumer is at `m`.
  pub record Stuck (m : Consumer) (c : Config A) : Type 0 where
    pub idles : c.producer ≡ idle
    pub asleep : c.pipe.producer_waits ≡ true
    pub at : c.consumer ≡ m
    pub some_chunk : 0 < c.pipe.count
    pub bounded : c.pipe.count ≤ length c.pipe.slots

  reading-Step : (c f : Config A) (j : ℕ) → Step d c f → Stuck (reading j) c → HasSlot f
  unfolding consumer_release notify_free producer_slot
  reading-Step _ _ j (acquire p i c xs ys w r) h = absurd (let a = h.asleep in cc)
  reading-Step _ _ j (fill p i v c xs ys) h = absurd (let a = h.idles in cc)
  reading-Step _ _ j (publish p i v c xs ys) h = absurd (let a = h.idles in cc)
  reading-Step _ _ j (close p c xs ys w) h = absurd (let a = h.asleep in cc)
  reading-Step _ _ j (take_slot p i q xs ys w r) h = absurd (let a = h.at in cc)
  reading-Step _ _ j (release p i q xs ys) h =
      let a = h.some_chunk in
      let b = h.bounded in record { idles = h.idles; awake = refl; has_slot = ground arith }
  reading-Step _ _ j (drain p q xs ys w r) h = absurd (let a = h.at in cc)
  reading-Step _ _ j (sleep_free p c xs ys w r) h = absurd (let a = h.asleep in cc)
  reading-Step _ _ j (sleep_full p q xs ys w r) h = absurd (let a = h.at in cc)

  waiting-Step : (c f : Config A) → Step d c f → Stuck waiting c → (i : ℕ) × Stuck (reading i) f
  unfolding consumer_slot
  waiting-Step _ _ (acquire p i c xs ys w r) h = absurd (let a = h.asleep in cc)
  waiting-Step _ _ (fill p i v c xs ys) h = absurd (let a = h.idles in cc)
  waiting-Step _ _ (publish p i v c xs ys) h = absurd (let a = h.idles in cc)
  waiting-Step _ _ (close p c xs ys w) h = absurd (let a = h.asleep in cc)
  waiting-Step _ _ (take_slot p i q xs ys w r) h = (
    i,
    record {
      idles = h.idles;
      asleep = h.asleep;
      at = refl;
      some_chunk = h.some_chunk;
      bounded = h.bounded;
    },
  )
  waiting-Step _ _ (release p i q xs ys) h = absurd (let a = h.at in cc)
  waiting-Step _ _ (drain p q xs ys w r) h =
      absurd
        (let z : some (some p.consumer_head) ≡ some none = sym (oldest p h.some_chunk) ∙ r in cc)
  waiting-Step _ _ (sleep_free p c xs ys w r) h = absurd (let a = h.asleep in cc)
  waiting-Step _ _ (sleep_full p q xs ys w r) h =
      absurd (let z : some (some p.consumer_head) ≡ none = sym (oldest p h.some_chunk) ∙ r in cc)

  pub reading-Inevitable : (c : Config A) (i : ℕ) → Stuck (reading i) c → Inevitable d HasSlot c
  reading-Inevitable c i h =
      let (e, s) = can_release d c i h.at in later c e s (λ f t. now f (reading-Step c f i t h))

  pub waiting-Inevitable :
      (c : Config A) → c.pipe.consumer_waits ≡ false → Stuck waiting c → Inevitable d HasSlot c
  waiting-Inevitable c w h =
      let (e, s) = can_take d c h.at w h.some_chunk in
      later c e s (λ f t. let (i, k) = waiting-Step c f t h in reading-Inevitable f i k)

  -- A consumer that sleeps.
  pub record Dozes (c : Config A) : Type 0 where
    pub waits : c.consumer ≡ waiting
    pub asleep : c.pipe.consumer_waits ≡ true
    pub no_chunk : c.pipe.count ≡ 0
    pub room : 0 < length c.pipe.slots

  filled-Step :
      (c f : Config A) (j : ℕ) (u : A) → Step d c f → Dozes c → c.producer ≡ filled j u → HasChunk f
  unfolding producer_publish notify_full consumer_slot
  filled-Step _ _ j u (acquire p i c xs ys w r) h e = absurd cc
  filled-Step _ _ j u (fill p i v c xs ys) h e = absurd cc
  filled-Step _ _ j u (publish p i v c xs ys) h e = record {
    waits = h.waits;
    awake = refl;
    has_chunk = ground arith;
  }
  filled-Step _ _ j u (close p c xs ys w) h e = absurd cc
  filled-Step _ _ j u (take_slot p i q xs ys w r) h e = absurd (let a = h.asleep in cc)
  filled-Step _ _ j u (release p i q xs ys) h e = absurd (let a = h.waits in cc)
  filled-Step _ _ j u (drain p q xs ys w r) h e = absurd (let a = h.asleep in cc)
  filled-Step _ _ j u (sleep_free p c xs ys w r) h e = absurd cc
  filled-Step _ _ j u (sleep_full p q xs ys w r) h e = absurd (let a = h.asleep in cc)

  filling-Step :
      (c f : Config A) (j : ℕ)
      → Step d c f
      → Dozes c
      → c.producer ≡ filling j
      → Dozes f × ((i : ℕ) × (v : A) × (f.producer ≡ filled i v))
  filling-Step _ _ j (acquire p i c xs ys w r) h e = absurd cc
  filling-Step _ _ j (fill p i v c xs ys) h e = (
    record {
      waits = h.waits;
      asleep = h.asleep;
      no_chunk = h.no_chunk;
      room = omega (arith, h.room, length-set p.slots i v);
    },
    (i, v, refl),
  )
  filling-Step _ _ j (publish p i v c xs ys) h e = absurd cc
  filling-Step _ _ j (close p c xs ys w) h e = absurd cc
  filling-Step _ _ j (take_slot p i q xs ys w r) h e = absurd (let a = h.asleep in cc)
  filling-Step _ _ j (release p i q xs ys) h e = absurd (let a = h.waits in cc)
  filling-Step _ _ j (drain p q xs ys w r) h e = absurd (let a = h.asleep in cc)
  filling-Step _ _ j (sleep_free p c xs ys w r) h e = absurd cc
  filling-Step _ _ j (sleep_full p q xs ys w r) h e = absurd (let a = h.asleep in cc)

  idle-Step :
      (c f : Config A)
      → Step d c f
      → Dozes c
      → c.producer ≡ idle
      → HasChunk f ⊎ (Dozes f × ((i : ℕ) × (f.producer ≡ filling i)))
  unfolding producer_close notify_full consumer_slot
  idle-Step _ _ (acquire p i c xs ys w r) h e = inr (
    record { waits = h.waits; asleep = h.asleep; no_chunk = h.no_chunk; room = h.room },
    (i, refl),
  )
  idle-Step _ _ (fill p i v c xs ys) h e = absurd cc
  idle-Step _ _ (publish p i v c xs ys) h e = absurd cc
  idle-Step _ _ (close p c xs ys w) h e =
      let a = h.no_chunk in inl (record { waits = h.waits; awake = refl; has_chunk = ground arith })
  idle-Step _ _ (take_slot p i q xs ys w r) h e = absurd (let a = h.asleep in cc)
  idle-Step _ _ (release p i q xs ys) h e = absurd (let a = h.waits in cc)
  idle-Step _ _ (drain p q xs ys w r) h e = absurd (let a = h.asleep in cc)
  idle-Step _ _ (sleep_free p c xs ys w r) h e = absurd (
      let k : p.count < length p.slots = omega (arith, h.room, h.no_chunk) in
      let z : some ((p.consumer_head + p.count) % length p.slots) ≡ none =
        sym (first_free p k) ∙ r in
      cc)
  idle-Step _ _ (sleep_full p q xs ys w r) h e = absurd (let a = h.asleep in cc)

  pub filled-Inevitable :
      (c : Config A) (i : ℕ) (v : A) → Dozes c → c.producer ≡ filled i v → Inevitable d HasChunk c
  filled-Inevitable c i v h e =
      let (g, s) = can_publish d c i v e in later c g s (λ f t. now f (filled-Step c f i v t h e))

  pub filling-Inevitable :
      (c : Config A) (i : ℕ) → Dozes c → c.producer ≡ filling i → Inevitable d HasChunk c
  filling-Inevitable c i h e =
      let (g, s) = can_fill d c i e in
      later c g s
        (λ f t. let (k, (j, v, q)) = filling-Step c f i t h e in filled-Inevitable f j v k q)

  pub idle-Inevitable :
      (c : Config A)
      → Dozes c
      → c.producer ≡ idle
      → c.pipe.producer_waits ≡ false
      → Inevitable d HasChunk c
  idle-Inevitable c h e w =
      let (g, s) = can_acquire d c e w (omega (arith, h.room, h.no_chunk)) in
      later c g s (λ f t. elim (idle-Step c f t h e) [
        | inl k ↦ now f k
        | inr (k, (i, q)) ↦ filling-Inevitable f i k q
      ])

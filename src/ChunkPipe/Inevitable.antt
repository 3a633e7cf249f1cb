-- ===== src/ChunkPipe/Inevitable.antt =====
-- What comes about in every run of the two threads of a chunk_pipe of emp-ag2pc/backend/helper.h.
use emp_ag2pc.Prelude.{
  ℕ, ◌+◌, ◌%◌, ◌<◌, ◌≡◌, sym, subst, true, false, length, none, some, is_some, arith,
}
use emp_ag2pc.ChunkPipe.Defs.{ChunkPipe, producer_slot, consumer_slot}
use emp_ag2pc.ChunkPipe.Threads.{
  idle, filling, filled, waiting, reading, drained, Config, Step, acquire, fill, publish, take_slot,
  release, drain,
}

-- What comes about in every run from a state: now, or after whichever step is next, where there is one.
pub data Inevitable {A : Type 0} (d : A) (P : Config A → Type 0) : Config A → Type 0 where
  now : (c : Config A) → P c → Inevitable d P c
  later :
      (c e : Config A)
      → Step d c e
      → ((f : Config A) → Step d c f → Inevitable d P f)
      → Inevitable d P c

module _ {A : Type 0} where
  -- The producer is awake, and its wait for a slot returns.
  pub record HasSlot (c : Config A) : Type 0 where
    pub idles : c.producer ≡ idle
    pub awake : c.pipe.producer_waits ≡ false
    pub has_slot : is_some (producer_slot c.pipe) ≡ true

  -- The consumer is awake, and its wait for a chunk or the end returns.
  pub record HasChunk (c : Config A) : Type 0 where
    pub waits : c.consumer ≡ waiting
    pub awake : c.pipe.consumer_waits ≡ false
    pub has_chunk : is_some (consumer_slot c.pipe) ≡ true

  -- The consumer has ended and taken all that was sent.
  pub record Done (c : Config A) : Type 0 where
    pub ends : c.consumer ≡ drained
    pub all_taken : c.taken ≡ c.sent

  pub oldest : (p : ChunkPipe A) → 0 < p.count → consumer_slot p ≡ some (some p.consumer_head)
  unfolding consumer_slot
  oldest p e = ground arith

  pub empty : (p : ChunkPipe A) → p.closed ≡ true → p.count ≡ 0 → consumer_slot p ≡ some none
  unfolding consumer_slot
  empty p o e = ground arith

  pub first_free :
      (p : ChunkPipe A)
      → p.count < length p.slots
      → producer_slot p ≡ some ((p.consumer_head + p.count) % length p.slots)
  unfolding producer_slot
  first_free p l = ground arith

module _ {A : Type 0} (d : A) where
  -- The next step of one thread.
  pub can_release : (c : Config A) (i : ℕ) → c.consumer ≡ reading i → (e : Config A) × Step d c e
  can_release c i h =
      subst (λ m. (e : Config A) × Step d (record c { consumer = m }) e) (sym h)
        (_, release c.pipe i c.producer c.sent c.taken)

  pub can_take :
      (c : Config A)
      → c.consumer ≡ waiting
      → c.pipe.consumer_waits ≡ false
      → 0 < c.pipe.count
      → (e : Config A) × Step d c e
  can_take c h w n =
      subst (λ m. (e : Config A) × Step d (record c { consumer = m }) e) (sym h)
        (_, take_slot c.pipe c.pipe.consumer_head c.producer c.sent c.taken w (oldest c.pipe n))

  pub can_drain :
      (c : Config A)
      → c.consumer ≡ waiting
      → c.pipe.consumer_waits ≡ false
      → c.pipe.closed ≡ true
      → c.pipe.count ≡ 0
      → (e : Config A) × Step d c e
  can_drain c h w o n =
      subst (λ m. (e : Config A) × Step d (record c { consumer = m }) e) (sym h)
        (_, drain c.pipe c.producer c.sent c.taken w (empty c.pipe o n))

  pub can_acquire :
      (c : Config A)
      → c.producer ≡ idle
      → c.pipe.producer_waits ≡ false
      → c.pipe.count < length c.pipe.slots
      → (e : Config A) × Step d c e
  can_acquire c h w l =
      subst (λ q. (e : Config A) × Step d (record c { producer = q }) e) (sym h)
        (_, acquire c.pipe _ c.consumer c.sent c.taken w (first_free c.pipe l))

  pub can_fill : (c : Config A) (i : ℕ) → c.producer ≡ filling i → (e : Config A) × Step d c e
  can_fill c i h =
      subst (λ q. (e : Config A) × Step d (record c { producer = q }) e) (sym h)
        (_, fill c.pipe i d c.consumer c.sent c.taken)

  pub can_publish :
      (c : Config A) (i : ℕ) (v : A) → c.producer ≡ filled i v → (e : Config A) × Step d c e
  can_publish c i v h =
      subst (λ q. (e : Config A) × Step d (record c { producer = q }) e) (sym h)
        (_, publish c.pipe i v c.consumer c.sent c.taken)

-- ===== src/ChunkPipe/Live.antt =====
-- A thread that sleeps in a chunk_pipe of emp-ag2pc/backend/helper.h is woken, and a closed pipe is
-- drained, whatever steps the two threads take.
use emp_ag2pc.Prelude.{
  ℕ, zero, suc, ◌-◌, ◌<◌, ◌≡◌, ◌∙◌, refl, sym, subst, true, false, ◌⊎◌, inl, inr, List, length,
  none, some, Bool-cases, arith,
}
use emp_ag2pc.ChunkPipe.Defs.{consumer_release, notify_free}
use emp_ag2pc.ChunkPipe.Threads.{
  Producer, idle, filling, filled, ended, Consumer, waiting, reading, drained, Config, Step,
  acquire, fill, publish, close, take_slot, release, drain, sleep_free, sleep_full, Reached, next,
}
use emp_ag2pc.ChunkPipe.Fifo.{Fills, Reads}
use emp_ag2pc.ChunkPipe.Runs.{Reached-IsQueue, drained-taken}
use emp_ag2pc.ChunkPipe.Wake.{Reached-Woken}
use emp_ag2pc.ChunkPipe.Inevitable.{
  Inevitable, now, later, HasSlot, HasChunk, Done, oldest, empty, can_release, can_take, can_drain,
}
use emp_ag2pc.ChunkPipe.Asleep.{
  Dozes, reading-Inevitable, waiting-Inevitable, filled-Inevitable, filling-Inevitable,
  idle-Inevitable,
}

module _ {A : Type 0} (d : A) where
  -- A producer that has closed the pipe, while the consumer is at `m` with `n` chunks to take.
  record Ending (m : Consumer) (n : ℕ) (c : Config A) : Type 0 where
    ended_is : c.producer ≡ ended
    closed_is : c.pipe.closed ≡ true
    awake : c.pipe.consumer_waits ≡ false
    at : c.consumer ≡ m
    left : c.pipe.count ≡ n

  Ending-release :
      (c f : Config A) (j n : ℕ) → Step d c f → Ending (reading j) (suc n) c → Ending waiting n f
  unfolding consumer_release notify_free
  Ending-release _ _ j n (acquire p i c xs ys w r) h = absurd (let a = h.ended_is in cc)
  Ending-release _ _ j n (fill p i v c xs ys) h = absurd (let a = h.ended_is in cc)
  Ending-release _ _ j n (publish p i v c xs ys) h = absurd (let a = h.ended_is in cc)
  Ending-release _ _ j n (close p c xs ys w) h = absurd (let a = h.ended_is in cc)
  Ending-release _ _ j n (take_slot p i q xs ys w r) h = absurd (let a = h.at in cc)
  Ending-release _ _ j n (release p i q xs ys) h = record {
    ended_is = h.ended_is;
    closed_is = h.closed_is;
    awake = h.awake;
    at = refl;
    left = omega (arith, h.left);
  }
  Ending-release _ _ j n (drain p q xs ys w r) h = absurd (let a = h.at in cc)
  Ending-release _ _ j n (sleep_free p c xs ys w r) h = absurd (let a = h.ended_is in cc)
  Ending-release _ _ j n (sleep_full p q xs ys w r) h = absurd (let a = h.at in cc)

  Ending-take :
      (c f : Config A) (n : ℕ)
      → Step d c f
      → Ending waiting (suc n) c
      → (i : ℕ) × Ending (reading i) (suc n) f
  Ending-take _ _ n (acquire p i c xs ys w r) h = absurd (let a = h.ended_is in cc)
  Ending-take _ _ n (fill p i v c xs ys) h = absurd (let a = h.ended_is in cc)
  Ending-take _ _ n (publish p i v c xs ys) h = absurd (let a = h.ended_is in cc)
  Ending-take _ _ n (close p c xs ys w) h = absurd (let a = h.ended_is in cc)
  Ending-take _ _ n (take_slot p i q xs ys w r) h = (
    i,
    record {
      ended_is = h.ended_is;
      closed_is = h.closed_is;
      awake = h.awake;
      at = refl;
      left = h.left;
    },
  )
  Ending-take _ _ n (release p i q xs ys) h = absurd (let a = h.at in cc)
  Ending-take _ _ n (drain p q xs ys w r) h = absurd (
      let k : 0 < p.count = omega (arith, h.left) in
      let z : some (some p.consumer_head) ≡ some none = sym (oldest p k) ∙ r in cc)
  Ending-take _ _ n (sleep_free p c xs ys w r) h = absurd (let a = h.ended_is in cc)
  Ending-take _ _ n (sleep_full p q xs ys w r) h = absurd (
      let k : 0 < p.count = omega (arith, h.left) in
      let z : some (some p.consumer_head) ≡ none = sym (oldest p k) ∙ r in cc)

  Ending-drain : (c f : Config A) → Step d c f → Ending waiting 0 c → f.consumer ≡ drained
  Ending-drain _ _ (acquire p i c xs ys w r) h = absurd (let a = h.ended_is in cc)
  Ending-drain _ _ (fill p i v c xs ys) h = absurd (let a = h.ended_is in cc)
  Ending-drain _ _ (publish p i v c xs ys) h = absurd (let a = h.ended_is in cc)
  Ending-drain _ _ (close p c xs ys w) h = absurd (let a = h.ended_is in cc)
  Ending-drain _ _ (take_slot p i q xs ys w r) h =
      absurd (let z : some none ≡ some (some i) = sym (empty p h.closed_is h.left) ∙ r in cc)
  Ending-drain _ _ (release p i q xs ys) h = absurd (let a = h.at in cc)
  Ending-drain _ _ (drain p q xs ys w r) h = refl
  Ending-drain _ _ (sleep_free p c xs ys w r) h = absurd (let a = h.ended_is in cc)
  Ending-drain _ _ (sleep_full p q xs ys w r) h =
      absurd (let z : some none ≡ none = sym (empty p h.closed_is h.left) ∙ r in cc)

  -- What is inevitable in a state of the pipe and its two threads.
  pub record IsLive (c : Config A) : Type 0 where
    pub producer_served : c.pipe.producer_waits ≡ true → Inevitable d HasSlot c
    pub consumer_served : c.pipe.consumer_waits ≡ true → Inevitable d HasChunk c
    pub drained_in_the_end : c.producer ≡ ended → Inevitable d Done c

  module _ (slots : List A) (some_slots : 0 < length slots) where
    done : (c : Config A) → Reached d slots c → c.consumer ≡ drained → Done c
    done c r e = record { ends = e; all_taken = drained-taken d slots some_slots c r e }

    finish-waiting :
        (n : ℕ) (c : Config A) → Reached d slots c → Ending waiting n c → Inevitable d Done c
    finish-waiting zero c r h =
        let (e, s) = can_drain d c h.at h.awake h.closed_is h.left in
        later c e s (λ f t. now f (done f (next c f r t) (Ending-drain c f t h)))
    finish-waiting (suc n) c r h =
        let (e, s) = can_take d c h.at h.awake (omega (arith, h.left)) in
        later c e s (λ f t.
          let (i, k) = Ending-take c f n t h in
          let (g, u) = can_release d f i k.at in
          later f g u
            (λ z v. finish-waiting n z (next f z (next c f r t) v) (Ending-release f z i n v k)))

    finish-reading :
        (n i : ℕ) (c : Config A)
        → Reached d slots c
        → Ending (reading i) (suc n) c
        → Inevitable d Done c
    finish-reading n i c r h =
        let (e, s) = can_release d c i h.at in
        later c e s (λ f t. finish-waiting n f (next c f r t) (Ending-release c f i n t h))

    consumer_cases : (m : Consumer) → (m ≡ waiting) ⊎ ((i : ℕ) × (m ≡ reading i)) ⊎ (m ≡ drained)
    consumer_cases waiting = inl refl
    consumer_cases (reading i) = inr (inl (i, refl))
    consumer_cases drained = inr (inr refl)

    producer_cases :
        (q : Producer A)
        → (q ≡ idle)
          ⊎ ((i : ℕ) × (q ≡ filling i))
          ⊎ ((i : ℕ) × (v : A) × (q ≡ filled i v))
          ⊎ (q ≡ ended)
    producer_cases idle = inl refl
    producer_cases (filling i) = inr (inl (i, refl))
    producer_cases (filled i v) = inr (inr (inl (i, v, refl)))
    producer_cases ended = inr (inr (inr refl))

    producer_wakes :
        (c : Config A) → Reached d slots c → c.pipe.producer_waits ≡ true → Inevitable d HasSlot c
    producer_wakes c r a =
        let q = Reached-IsQueue d slots some_slots c r in
        let w = Reached-Woken d slots c r in
        let (e, full) = w.producer_asleep a in
        let some_chunk : 0 < c.pipe.count = omega (arith, q.head_lt) in
        elim (consumer_cases c.consumer) [
          | inl m ↦
              waiting-Inevitable d c
                (elim (Bool-cases c.pipe.consumer_waits) [
                  | inl b ↦ absurd (let (x, y, z) = w.consumer_asleep b in omega arith)
                  | inr b ↦ b
                ])
                (record {
                  idles = e;
                  asleep = a;
                  at = m;
                  some_chunk = some_chunk;
                  bounded = q.bounded;
                })
          | inr (inl (i, m)) ↦ reading-Inevitable d c i (record {
            idles = e;
            asleep = a;
            at = m;
            some_chunk = some_chunk;
            bounded = q.bounded;
          })
          | inr (inr m) ↦ absurd (let (o, z) = subst (Reads d c.pipe) m q.reads in omega arith)
        ]

    consumer_wakes :
        (c : Config A) → Reached d slots c → c.pipe.consumer_waits ≡ true → Inevitable d HasChunk c
    consumer_wakes c r a =
        let q = Reached-IsQueue d slots some_slots c r in
        let w = Reached-Woken d slots c r in
        let (m, n, o) = w.consumer_asleep a in
        let h : Dozes d c = record {
          waits = m;
          asleep = a;
          no_chunk = n;
          room = omega (arith, q.head_lt);
        } in
        elim (producer_cases c.producer) [
          | inl e ↦ idle-Inevitable d c h e (elim (Bool-cases c.pipe.producer_waits) [
            | inl b ↦ absurd (let (x, y) = w.producer_asleep b in omega (arith, q.head_lt))
            | inr b ↦ b
          ])
          | inr (inl (i, e)) ↦ filling-Inevitable d c i h e
          | inr (inr (inl (i, v, e))) ↦ filled-Inevitable d c i v h e
          | inr (inr (inr e)) ↦ absurd (let z = subst (Fills d c.pipe) e q.fills in cc)
        ]

    drains : (c : Config A) → Reached d slots c → c.producer ≡ ended → Inevitable d Done c
    drains c r e =
        let q = Reached-IsQueue d slots some_slots c r in
        let w = Reached-Woken d slots c r in
        let o = subst (Fills d c.pipe) e q.fills in
        let awake : c.pipe.consumer_waits ≡ false = elim (Bool-cases c.pipe.consumer_waits) [
          | inl b ↦ absurd (let (x, y, z) = w.consumer_asleep b in cc)
          | inr b ↦ b
        ] in
        elim (consumer_cases c.consumer) [
          | inl m ↦
              finish-waiting c.pipe.count c r
                (record { ended_is = e; closed_is = o; awake = awake; at = m; left = refl })
          | inr (inl (i, m)) ↦
              let (n, x) = subst (Reads d c.pipe) m q.reads in
              finish-reading (c.pipe.count - 1) i c r
                (record { ended_is = e; closed_is = o; awake = awake; at = m; left = omega arith })
          | inr (inr m) ↦ now c (done c r m)
        ]

    -- From every state that the two threads can reach, in any order of their steps, on a pipe with a
    -- slot, where a thread that sleeps takes no step until it is notified: in every run, a producer
    -- that sleeps is woken to a free slot, a consumer that sleeps is woken to a chunk or to the end of
    -- a closed pipe, and once the producer has closed the pipe the consumer ends, having taken all that
    -- was sent, in order.
    pub Reached-IsLive : (c : Config A) → Reached d slots c → IsLive c
    Reached-IsLive c r = record {
      producer_served = producer_wakes c r;
      consumer_served = consumer_wakes c r;
      drained_in_the_end = drains c r;
    }

-- ===== src/ChunkPipe/Fifo.antt =====
-- chunk_pipe of emp-ag2pc/backend/helper.h is a bounded queue, whatever the order of the two
-- threads' steps.
use emp_ag2pc.Prelude.{
  ℕ, suc, ◌+◌, ◌-◌, ◌%◌, ◌<◌, ◌≤◌, ◌≡◌, refl, sym, ap, subst, ◌∙◌, true, false, List, [], ◌∷◌, ◌++◌,
  length, length-set, get_or, set, get_or-set_self, none, some, arith,
}
use native.Mathlib.Nat.{mod-lt}
use mathlib.Core.List.{append_assoc}
use emp_ag2pc.ChunkPipe.Defs.{
  ChunkPipe, producer_slot, producer_publish, producer_close, consumer_slot, consumer_release,
  producer_sleep, consumer_sleep, notify_full, notify_free,
}
use emp_ag2pc.ChunkPipe.Threads.{
  Producer, idle, filling, filled, ended, Consumer, waiting, reading, drained, Config, Step,
  acquire, fill, publish, close, take_slot, release, drain, sleep_free, sleep_full,
}
use emp_ag2pc.ChunkPipe.Index.{head_moved, held, held-snoc, held-head, held-set}

producer_slot-some :
    {A : Type 0} (p : ChunkPipe A) (i : ℕ)
    → producer_slot p ≡ some i
    → (p.count < length p.slots) × (i ≡ (p.consumer_head + p.count) % length p.slots)
unfolding producer_slot
producer_slot-some p i h = ground arith

consumer_slot-some :
    {A : Type 0} (p : ChunkPipe A) (i : ℕ)
    → consumer_slot p ≡ some (some i)
    → (0 < p.count) × (i ≡ p.consumer_head)
unfolding consumer_slot
consumer_slot-some p i h = ground arith

consumer_slot-none :
    {A : Type 0} (p : ChunkPipe A) → consumer_slot p ≡ some none → (p.closed ≡ true) × (p.count ≡ 0)
unfolding consumer_slot
consumer_slot-none p h = ground arith

module _ {A : Type 0} (d : A) where
  -- What a producer knows of the slot that it fills.
  abbrev pub Fills : ChunkPipe A → Producer A → Type 0
  Fills p idle = p.closed ≡ false
  Fills p (filling i) =
      (p.closed ≡ false)
      × (p.count < length p.slots)
      × (i ≡ (p.consumer_head + p.count) % length p.slots)
  Fills p (filled i v) =
      (p.closed ≡ false)
      × (p.count < length p.slots)
      × (i ≡ (p.consumer_head + p.count) % length p.slots)
      × (get_or p.slots i d ≡ v)
  Fills p ended = p.closed ≡ true

  abbrev pub Reads : ChunkPipe A → Consumer → Type 0
  Reads p waiting = Unit
  Reads p (reading i) = (0 < p.count) × (i ≡ p.consumer_head)
  Reads p drained = (p.closed ≡ true) × (p.count ≡ 0)

  -- The state of the pipe and of its threads.
  pub record IsQueue (c : Config A) : Type 0 where
    pub head_lt : c.pipe.consumer_head < length c.pipe.slots
    pub bounded : c.pipe.count ≤ length c.pipe.slots
    pub in_order : c.sent ≡ c.taken ++ held d c.pipe.slots c.pipe.consumer_head c.pipe.count
    pub fills : Fills c.pipe c.producer
    pub reads : Reads c.pipe c.consumer

  -- The step of a publication.
  publish-IsQueue :
      (p : ChunkPipe A) (i : ℕ) (v : A) (c : Consumer) (xs ys : List A)
      → IsQueue (record { pipe = p; producer = filled i v; consumer = c; sent = xs; taken = ys })
      → IsQueue (record {
        pipe = producer_publish p;
        producer = idle;
        consumer = c;
        sent = xs ++ (v ∷ []);
        taken = ys;
      })
  unfolding producer_publish notify_full
  publish-IsQueue p i v c xs ys h =
      let (o, l, e, g) = h.fills in
      record {
        head_lt = h.head_lt;
        bounded = omega arith;
        in_order =
            ap (λ z. z ++ (v ∷ [])) h.in_order
            ∙ append_assoc ys (held d p.slots p.consumer_head p.count) (v ∷ [])
            ∙ ap (λ z. ys ++ z)
                (ap (λ w. held d p.slots p.consumer_head p.count ++ (w ∷ []))
                    (sym g ∙ ap (λ j. get_or p.slots j d) e)
                  ∙ sym (held-snoc d p.slots p.consumer_head p.count));
        fills = o;
        reads = keeps c h.reads;
      }
    where
      keeps : (c : Consumer) → Reads p c → Reads (producer_publish p) c
      keeps waiting r = tt
      keeps (reading i) (a, b) = (omega arith, b)
      keeps drained (a, b) = absurd (let (o, l, e, g) = h.fills in cc)

  -- The step of a release.
  release-IsQueue :
      (p : ChunkPipe A) (i : ℕ) (q : Producer A) (xs ys : List A)
      → IsQueue (record { pipe = p; producer = q; consumer = reading i; sent = xs; taken = ys })
      → IsQueue (record {
        pipe = consumer_release p;
        producer = q;
        consumer = waiting;
        sent = xs;
        taken = ys ++ (get_or p.slots i d ∷ []);
      })
  unfolding consumer_release notify_free
  release-IsQueue p i q xs ys h =
      let (l, e) = h.reads in
      let n : p.count ≡ suc (p.count - 1) = omega arith in
      record {
        head_lt = mod-lt (p.consumer_head + 1) (let z = h.head_lt in omega arith);
        bounded = omega (arith, h.bounded);
        in_order =
            h.in_order
            ∙ ap (λ z. ys ++ z)
                (ap (held d p.slots p.consumer_head) n
                  ∙ held-head d p.slots p.consumer_head (p.count - 1) h.head_lt
                  ∙ ap
                      (λ j.
                        get_or p.slots j d
                        ∷ held d p.slots ((p.consumer_head + 1) % length p.slots) (p.count - 1))
                      (sym e))
            ∙ sym (append_assoc ys (get_or p.slots i d ∷ []) _);
        fills = keeps q h.fills;
        reads = tt;
      }
    where
      moved :
          p.count ≡ suc (p.count - 1)
          → (p.consumer_head + p.count) % length p.slots
            ≡ ((p.consumer_head + 1) % length p.slots + (p.count - 1)) % length p.slots
      moved n =
          ap (λ k. (p.consumer_head + k) % length p.slots) n
          ∙ sym (head_moved (length p.slots) p.consumer_head (p.count - 1))

      keeps : (q : Producer A) → Fills p q → Fills (consumer_release p) q
      keeps idle f = f
      keeps (filling j) (o, l, e) =
          let (m, r) = h.reads in (o, omega arith, e ∙ moved (omega arith))
      keeps (filled j v) (o, l, e, g) =
          let (m, r) = h.reads in (o, omega arith, e ∙ moved (omega arith), g)
      keeps ended f = f

  fill-IsQueue :
      (p : ChunkPipe A) (i : ℕ) (v : A) (c : Consumer) (xs ys : List A)
      → IsQueue (record { pipe = p; producer = filling i; consumer = c; sent = xs; taken = ys })
      → IsQueue (record {
        pipe = record p { slots = set p.slots i v };
        producer = filled i v;
        consumer = c;
        sent = xs;
        taken = ys;
      })
  fill-IsQueue p i v c xs ys h =
      let (o, l, e) = h.fills in
      let s = length-set p.slots i v in
      let lt : i < length p.slots =
        subst (λ j. j < length p.slots) (sym e)
          (mod-lt (p.consumer_head + p.count) (omega arith)) in
      record {
        head_lt = omega (arith, s, h.head_lt);
        bounded = omega (arith, s, h.bounded);
        in_order =
            h.in_order
            ∙ ap (λ z. ys ++ z)
                (sym (held-set d p.slots p.consumer_head p.count i v h.head_lt l e));
        fills = (
          o,
          omega arith,
          e ∙ ap (λ m. (p.consumer_head + p.count) % m) (sym s),
          get_or-set_self p.slots i v d lt,
        );
        reads = keeps c h.reads;
      }
    where
      keeps : (c : Consumer) → Reads p c → Reads (record p { slots = set p.slots i v }) c
      keeps waiting r = tt
      keeps (reading i) r = r
      keeps drained r = r

  pub Step-IsQueue : (c e : Config A) → Step d c e → IsQueue c → IsQueue e
  Step-IsQueue _ _ (acquire p i c xs ys w r) h =
      let (l, e) = producer_slot-some p i r in
      record {
        head_lt = h.head_lt;
        bounded = h.bounded;
        in_order = h.in_order;
        fills = (h.fills, l, e);
        reads = h.reads;
      }
  Step-IsQueue _ _ (fill p i v c xs ys) h = fill-IsQueue p i v c xs ys h
  Step-IsQueue _ _ (publish p i v c xs ys) h = publish-IsQueue p i v c xs ys h
  Step-IsQueue _ _ (close p c xs ys w) h =
      unfold producer_close in
      unfold notify_full in
      record {
        head_lt = h.head_lt;
        bounded = h.bounded;
        in_order = h.in_order;
        fills = refl;
        reads = keeps c h.reads;
      }
    where
      keeps : (c : Consumer) → Reads p c → Reads (producer_close p) c
      keeps waiting r = tt
      keeps (reading i) r = unfold producer_close in unfold notify_full in r
      keeps drained (a, b) = unfold producer_close in unfold notify_full in (refl, b)
  Step-IsQueue _ _ (take_slot p i q xs ys w r) h = record {
    head_lt = h.head_lt;
    bounded = h.bounded;
    in_order = h.in_order;
    fills = h.fills;
    reads = consumer_slot-some p i r;
  }
  Step-IsQueue _ _ (release p i q xs ys) h = release-IsQueue p i q xs ys h
  Step-IsQueue _ _ (drain p q xs ys w r) h = record {
    head_lt = h.head_lt;
    bounded = h.bounded;
    in_order = h.in_order;
    fills = h.fills;
    reads = consumer_slot-none p r;
  }
  Step-IsQueue _ _ (sleep_free p c xs ys w r) h =
      unfold producer_sleep in
      record {
        head_lt = h.head_lt;
        bounded = h.bounded;
        in_order = h.in_order;
        fills = h.fills;
        reads = keeps c h.reads;
      }
    where
      keeps : (c : Consumer) → Reads p c → Reads (producer_sleep p) c
      keeps waiting r = tt
      keeps (reading i) r = unfold producer_sleep in r
      keeps drained r = unfold producer_sleep in r
  Step-IsQueue _ _ (sleep_full p q xs ys w r) h =
      unfold consumer_sleep in
      record {
        head_lt = h.head_lt;
        bounded = h.bounded;
        in_order = h.in_order;
        fills = keeps q h.fills;
        reads = tt;
      }
    where
      keeps : (q : Producer A) → Fills p q → Fills (consumer_sleep p) q
      keeps idle f = unfold consumer_sleep in f
      keeps (filling i) f = unfold consumer_sleep in f
      keeps (filled i v) f = unfold consumer_sleep in f
      keeps ended f = unfold consumer_sleep in f

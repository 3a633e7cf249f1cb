-- ===== src/ChunkPipe/Wake.antt =====
-- No wake-up of chunk_pipe of emp-ag2pc/backend/helper.h is lost: what a sleeping thread waits for has
-- not happened yet.
use emp_ag2pc.Prelude.{◌≤◌, ◌≡◌, refl, true, false, List, length, none, arith}
use emp_ag2pc.ChunkPipe.Defs.{
  ChunkPipe, producer_slot, producer_publish, producer_close, consumer_slot, consumer_release,
  producer_sleep, consumer_sleep, notify_full, notify_free,
}
use emp_ag2pc.ChunkPipe.Threads.{
  idle, waiting, Config, Step, acquire, fill, publish, close, take_slot, release, drain, sleep_free,
  sleep_full, Reached, start, next,
}

module _ {A : Type 0} where
  -- A producer that sleeps is idle before a full pipe, a consumer before an empty and open one.
  pub record Woken (c : Config A) : Type 0 where
    pub producer_asleep :
        c.pipe.producer_waits ≡ true → (c.producer ≡ idle) × (length c.pipe.slots ≤ c.pipe.count)
    pub consumer_asleep :
        c.pipe.consumer_waits ≡ true
        → (c.consumer ≡ waiting) × (c.pipe.count ≡ 0) × (c.pipe.closed ≡ false)

  no_free : (p : ChunkPipe A) → producer_slot p ≡ none → length p.slots ≤ p.count
  unfolding producer_slot
  no_free p h = ground arith

  no_full : (p : ChunkPipe A) → consumer_slot p ≡ none → (p.count ≡ 0) × (p.closed ≡ false)
  unfolding consumer_slot
  no_full p h = (ground arith, ground arith)

module _ {A : Type 0} (d : A) where
  Step-Woken : (c e : Config A) → Step d c e → Woken c → Woken e
  unfolding producer_publish producer_close consumer_release producer_sleep consumer_sleep
      notify_full notify_free
  Step-Woken _ _ (acquire p i c xs ys w r) h = record {
    producer_asleep = λ a. absurd cc;
    consumer_asleep = h.consumer_asleep;
  }
  Step-Woken _ _ (fill p i v c xs ys) h = record {
    producer_asleep = λ a. absurd (let (q, l) = h.producer_asleep a in cc);
    consumer_asleep = h.consumer_asleep;
  }
  Step-Woken _ _ (publish p i v c xs ys) h = record {
    producer_asleep = λ a. absurd (let (q, l) = h.producer_asleep a in cc);
    consumer_asleep = λ a. absurd cc;
  }
  Step-Woken _ _ (close p c xs ys w) h = record {
    producer_asleep = λ a. absurd cc;
    consumer_asleep = λ a. absurd cc;
  }
  Step-Woken _ _ (take_slot p i q xs ys w r) h = record {
    producer_asleep = h.producer_asleep;
    consumer_asleep = λ a. absurd cc;
  }
  Step-Woken _ _ (release p i q xs ys) h = record {
    producer_asleep = λ a. absurd cc;
    consumer_asleep = λ a. absurd (let (q, l, o) = h.consumer_asleep a in cc);
  }
  Step-Woken _ _ (drain p q xs ys w r) h = record {
    producer_asleep = h.producer_asleep;
    consumer_asleep = λ a. absurd cc;
  }
  Step-Woken _ _ (sleep_free p c xs ys w r) h = record {
    producer_asleep = λ a. (refl, no_free p r);
    consumer_asleep = h.consumer_asleep;
  }
  Step-Woken _ _ (sleep_full p q xs ys w r) h = record {
    producer_asleep = h.producer_asleep;
    consumer_asleep = λ a. (let (n, o) = no_full p r in (refl, n, o));
  }

  pub Reached-Woken : (slots : List A) (c : Config A) → Reached d slots c → Woken c
  Reached-Woken slots _ start = record {
    producer_asleep = λ a. absurd cc;
    consumer_asleep = λ a. absurd cc;
  }
  Reached-Woken slots _ (next c e r s) = Step-Woken c e s (Reached-Woken slots c r)

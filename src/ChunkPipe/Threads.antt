-- ===== src/ChunkPipe/Threads.antt =====
-- The two threads that use a chunk_pipe, as the doc of emp-ag2pc/backend/helper.h asks: the producer
-- takes a slot, fills it and publishes it, or closes the pipe; the consumer takes a slot, reads it
-- and releases it, until the pipe is drained. Their steps interleave in any order; a thread that sleeps
-- takes none.
use emp_ag2pc.Prelude.{ℕ, ◌≡◌, false, List, [], ◌∷◌, ◌++◌, none, some, get_or, set}
use emp_ag2pc.ChunkPipe.Defs.{
  ChunkPipe, new_pipe, producer_slot, producer_publish, producer_close, consumer_slot,
  consumer_release, producer_sleep, consumer_sleep,
}

pub data Producer (A : Type 0) : Type 0 where
  idle : Producer A
  filling : ℕ → Producer A
  filled : ℕ → A → Producer A
  ended : Producer A

pub data Consumer : Type 0 where
  waiting : Consumer
  reading : ℕ → Consumer
  drained : Consumer

-- `sent` and `taken` are the chunks published and released so far, oldest first.
pub record Config (A : Type 0) : Type 0 where
  pub pipe : ChunkPipe A
  pub producer : Producer A
  pub consumer : Consumer
  pub sent : List A
  pub taken : List A

module _ {A : Type 0} where
  abbrev pub initial : List A → Config A
  initial slots = record {
    pipe = new_pipe slots;
    producer = idle;
    consumer = waiting;
    sent = [];
    taken = [];
  }

  -- `d` stands for what is read outside of the slots.
  pub data Step (d : A) : Config A → Config A → Type 0 where
    acquire :
        (p : ChunkPipe A) (i : ℕ) (c : Consumer) (xs ys : List A)
        → p.producer_waits ≡ false
        → producer_slot p ≡ some i
        → Step d
            (record { pipe = p; producer = idle; consumer = c; sent = xs; taken = ys })
            (record { pipe = p; producer = filling i; consumer = c; sent = xs; taken = ys })
    fill :
        (p : ChunkPipe A) (i : ℕ) (v : A) (c : Consumer) (xs ys : List A)
        → Step d
            (record { pipe = p; producer = filling i; consumer = c; sent = xs; taken = ys })
            (record {
              pipe = record p { slots = set p.slots i v };
              producer = filled i v;
              consumer = c;
              sent = xs;
              taken = ys;
            })
    publish :
        (p : ChunkPipe A) (i : ℕ) (v : A) (c : Consumer) (xs ys : List A)
        → Step d
            (record { pipe = p; producer = filled i v; consumer = c; sent = xs; taken = ys })
            (record {
              pipe = producer_publish p;
              producer = idle;
              consumer = c;
              sent = xs ++ (v ∷ []);
              taken = ys;
            })
    close :
        (p : ChunkPipe A) (c : Consumer) (xs ys : List A)
        → p.producer_waits ≡ false
        → Step d
            (record { pipe = p; producer = idle; consumer = c; sent = xs; taken = ys })
            (record {
              pipe = producer_close p;
              producer = ended;
              consumer = c;
              sent = xs;
              taken = ys;
            })
    take_slot :
        (p : ChunkPipe A) (i : ℕ) (q : Producer A) (xs ys : List A)
        → p.consumer_waits ≡ false
        → consumer_slot p ≡ some (some i)
        → Step d
            (record { pipe = p; producer = q; consumer = waiting; sent = xs; taken = ys })
            (record { pipe = p; producer = q; consumer = reading i; sent = xs; taken = ys })
    release :
        (p : ChunkPipe A) (i : ℕ) (q : Producer A) (xs ys : List A)
        → Step d
            (record { pipe = p; producer = q; consumer = reading i; sent = xs; taken = ys })
            (record {
              pipe = consumer_release p;
              producer = q;
              consumer = waiting;
              sent = xs;
              taken = ys ++ (get_or p.slots i d ∷ []);
            })
    drain :
        (p : ChunkPipe A) (q : Producer A) (xs ys : List A)
        → p.consumer_waits ≡ false
        → consumer_slot p ≡ some none
        → Step d
            (record { pipe = p; producer = q; consumer = waiting; sent = xs; taken = ys })
            (record { pipe = p; producer = q; consumer = drained; sent = xs; taken = ys })
    sleep_free :
        (p : ChunkPipe A) (c : Consumer) (xs ys : List A)
        → p.producer_waits ≡ false
        → producer_slot p ≡ none
        → Step d
            (record { pipe = p; producer = idle; consumer = c; sent = xs; taken = ys })
            (record {
              pipe = producer_sleep p;
              producer = idle;
              consumer = c;
              sent = xs;
              taken = ys;
            })
    sleep_full :
        (p : ChunkPipe A) (q : Producer A) (xs ys : List A)
        → p.consumer_waits ≡ false
        → consumer_slot p ≡ none
        → Step d
            (record { pipe = p; producer = q; consumer = waiting; sent = xs; taken = ys })
            (record {
              pipe = consumer_sleep p;
              producer = q;
              consumer = waiting;
              sent = xs;
              taken = ys;
            })

  pub data Reached (d : A) (slots : List A) : Config A → Type 0 where
    start : Reached d slots (initial slots)
    next : (c e : Config A) → Reached d slots c → Step d c e → Reached d slots e

-- ===== src/Tests/ChunkPipe.antt =====
-- A pipe of two slots that carries numbers.
use emp_ag2pc.Prelude.{ℕ, ◌≡◌, ◌≢◌, refl, Bool, true, false, List, [], ◌∷◌, arith, inl}
use emp_ag2pc.ChunkPipe.Defs.{
  ChunkPipe, producer_slot, producer_publish, producer_close, consumer_slot, consumer_release,
  consumer_sleep, notify_full, notify_free,
}
use emp_ag2pc.ChunkPipe.Threads.{
  Producer, idle, filling, ended, Consumer, waiting, reading, drained, Config, acquire, fill,
  publish, close, take_slot, release, drain, sleep_full, Reached, start, next,
}
use emp_ag2pc.ChunkPipe.Fifo.{IsQueue}
use emp_ag2pc.ChunkPipe.Live.{IsLive, Reached-IsLive}
use emp_ag2pc.ChunkPipe.Runs.{Reached-IsQueue, drained-taken, filling-reading}

abbrev two_slots : List ℕ
two_slots = 0 ∷ 0 ∷ []

-- A pipe with `h` as its head and `n` chunks.
abbrev pipe : List ℕ → ℕ → ℕ → Bool → ChunkPipe ℕ
pipe s h n o = record {
  slots = s;
  consumer_head = h;
  count = n;
  closed = o;
  producer_waits = false;
  consumer_waits = false;
}

abbrev config : ChunkPipe ℕ → Producer ℕ → Consumer → List ℕ → List ℕ → Config ℕ
config p q c xs ys = record { pipe = p; producer = q; consumer = c; sent = xs; taken = ys }

-- One chunk is in the pipe.
sent_one : Reached 0 two_slots (config (pipe (7 ∷ 0 ∷ []) 0 1 false) idle waiting (7 ∷ []) [])
unfolding producer_slot producer_publish notify_full
sent_one =
    next _ _
      (next _ _ (next _ _ start (acquire (pipe two_slots 0 0 false) 0 waiting [] [] refl refl))
        (fill (pipe two_slots 0 0 false) 0 7 waiting [] []))
      (publish (pipe (7 ∷ 0 ∷ []) 0 0 false) 0 7 waiting [] [])

-- The producer fills the second slot while the consumer reads the first.
both_busy :
    Reached 0 two_slots (config (pipe (7 ∷ 0 ∷ []) 0 1 false) (filling 1) (reading 0) (7 ∷ []) [])
unfolding producer_slot consumer_slot
both_busy =
    next _ _
      (next _ _ sent_one (take_slot (pipe (7 ∷ 0 ∷ []) 0 1 false) 0 idle (7 ∷ []) [] refl refl))
      (acquire (pipe (7 ∷ 0 ∷ []) 0 1 false) 1 (reading 0) (7 ∷ []) [] refl refl)

all_done : Reached 0 two_slots (config (pipe (7 ∷ 0 ∷ []) 1 0 true) ended drained (7 ∷ []) (7 ∷ []))
unfolding producer_close consumer_slot consumer_release notify_full notify_free
all_done =
    next _ _
      (next _ _
        (next _ _
          (next _ _ sent_one (take_slot (pipe (7 ∷ 0 ∷ []) 0 1 false) 0 idle (7 ∷ []) [] refl refl))
          (release (pipe (7 ∷ 0 ∷ []) 0 1 false) 0 idle (7 ∷ []) []))
        (close (pipe (7 ∷ 0 ∷ []) 1 0 false) waiting (7 ∷ []) (7 ∷ []) refl))
      (drain (pipe (7 ∷ 0 ∷ []) 1 0 true) ended (7 ∷ []) (7 ∷ []) refl refl)

Reached-IsQueue_example :
    IsQueue 0 (config (pipe (7 ∷ 0 ∷ []) 0 1 false) (filling 1) (reading 0) (7 ∷ []) [])
Reached-IsQueue_example = Reached-IsQueue 0 two_slots (omega arith) _ both_busy

abbrev at_end : Config ℕ
at_end = config (pipe (7 ∷ 0 ∷ []) 1 0 true) ended drained (7 ∷ []) (7 ∷ [])

drained-taken_example : at_end.taken ≡ at_end.sent
drained-taken_example = drained-taken 0 two_slots (omega arith) _ all_done refl

filling-reading_example : ◌≢◌ {A = ℕ} 1 0
filling-reading_example =
    filling-reading 0 two_slots (omega arith) _ 1 0 7 both_busy (inl refl) refl

-- The consumer sleeps before an empty pipe.
abbrev asleep : Config ℕ
asleep = config (record (pipe two_slots 0 0 false) { consumer_waits = true }) idle waiting [] []

sleeping : Reached 0 two_slots asleep
unfolding consumer_slot consumer_sleep
sleeping = next _ _ start (sleep_full (pipe two_slots 0 0 false) idle [] [] refl refl)

Reached-IsLive_example : IsLive 0 asleep
Reached-IsLive_example = Reached-IsLive 0 two_slots (omega arith) asleep sleeping

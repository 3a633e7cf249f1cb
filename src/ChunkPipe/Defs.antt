-- ===== src/ChunkPipe/Defs.antt =====
-- chunk_pipe of emp-ag2pc/backend/helper.h. A wait on a condition variable is a test of its predicate
-- under the mutex, with `none` where it fails, and then a sleep until a notification, after which the
-- predicate is tested again. `producer_waits` says that the producer sleeps on `cv_free_`, and
-- `consumer_waits` that the consumer sleeps on `cv_full_`. The mutex makes each operation one step, its
-- notification included. A wake-up without a notification is left out.
use emp_ag2pc.Prelude.{
  ℕ, ◌+◌, ◌-◌, ◌%◌, Bool, true, false, ◌||◌, List, Option, none, some, length, ltb, ◌==◌,
  if◌then◌else◌,
}

pub record ChunkPipe (A : Type 0) : Type 0 where
  pub slots : List A
  pub consumer_head : ℕ
  pub count : ℕ
  pub closed : Bool
  pub producer_waits : Bool
  pub consumer_waits : Bool

module _ {A : Type 0} where
  abbrev pub new_pipe : List A → ChunkPipe A
  new_pipe slots = record {
    slots = slots;
    consumer_head = 0;
    count = 0;
    closed = false;
    producer_waits = false;
    consumer_waits = false;
  }

  -- The slot to fill.
  unfoldable pub producer_slot : ChunkPipe A → Option ℕ
  producer_slot p =
      if ltb p.count (length p.slots)
      then some ((p.consumer_head + p.count) % length p.slots)
      else none

  -- The producer found no free slot and sleeps on `cv_free_`.
  unfoldable pub producer_sleep : ChunkPipe A → ChunkPipe A
  producer_sleep p = record p { producer_waits = true }

  -- `cv_full_.notify_one()`
  unfoldable pub notify_full : ChunkPipe A → ChunkPipe A
  notify_full p = record p { consumer_waits = false }

  -- `cv_free_.notify_one()`
  unfoldable pub notify_free : ChunkPipe A → ChunkPipe A
  notify_free p = record p { producer_waits = false }

  unfoldable pub producer_publish : ChunkPipe A → ChunkPipe A
  unfolding notify_full
  producer_publish p = notify_full (record p { count = p.count + 1 })

  unfoldable pub producer_close : ChunkPipe A → ChunkPipe A
  unfolding notify_full
  producer_close p = notify_full (record p { closed = true })

  -- The slot to read, `some none` when the pipe is closed and drained.
  unfoldable pub consumer_slot : ChunkPipe A → Option (Option ℕ)
  consumer_slot p =
      if ltb 0 p.count || p.closed
      then (if p.count == 0 then some none else some (some p.consumer_head))
      else none

  -- The consumer found no full slot in an open pipe and sleeps on `cv_full_`.
  unfoldable pub consumer_sleep : ChunkPipe A → ChunkPipe A
  consumer_sleep p = record p { consumer_waits = true }

  unfoldable pub consumer_release : ChunkPipe A → ChunkPipe A
  unfolding notify_free
  consumer_release p =
      notify_free
        (record p { consumer_head = (p.consumer_head + 1) % length p.slots; count = p.count - 1 })

-- ===== src/Pipeline/Tests.antt =====
-- A pipeline over a ring of two slots.
use stats.Base.{
  ℕ, zero, suc, ◌+◌, ◌%◌, ◌<◌, ◌≡◌, refl, Bool, false, none, some, List, [], ◌∷◌, arith, get_elem?,
  replicate,
}
use stats.Base.Int.{pos}
use stats.Queue
use stats.Ring.{RingBuffer, empty_slot, full_slot}
use stats.Ring.Invariant.{Holds, slot_for}
use stats.Metric.{Metric, counter, estimate_size}
use stats.Pipeline.{Config, Pipeline, enqueue, drain}
use stats.Pipeline.Buffer.{ring_ops, ring_queue}
use stats.Pipeline.Memory.{Accounts, enqueue_queue, enqueue_lem}
use stats.Pipeline.Drain.{Exports, drain_lem}

abbrev Sample : Type 0
Sample = Metric ℕ (List ℕ)

-- "hits" with the tag "a" and the value "xy".
abbrev hits : ℕ → Sample
hits value = record {
  name = 104 ∷ 105 ∷ 116 ∷ 115 ∷ [];
  type = counter;
  value = value;
  attributes = (97 ∷ [], 120 ∷ 121 ∷ []) ∷ [];
  timestamp = none;
  priority = pos 1;
  trace_id = replicate 16 0;
  span_id = replicate 8 0;
  description = [];
  unit = [];
}

size_test : estimate_size (λ v. v) (hits 1) ≡ 31
unfolding estimate_size stats.Metric.has_exemplar stats.Metric.attributes_size
size_test = refl

abbrev two_slots : RingBuffer Sample
two_slots = record {
  slots = empty_slot 0 ∷ empty_slot 1 ∷ [];
  capacity = 2;
  mask = 1;
  write_pos = 0;
  read_pos = 0;
  dropped = 0;
  added = 0;
  removed = 0;
}

slots_free :
    (j : ℕ)
    → j < 2
    → get_elem? two_slots.slots ((0 + j) % 2)
      ≡ some (slot_for (0 + j) (get_elem? {A = Sample} [] j))
slots_free zero h = refl
slots_free (suc zero) h = refl
slots_free (suc (suc j)) h = absurd (omega arith)

two_slots-Holds : Holds two_slots []
two_slots-Holds = record {
  bits = 1;
  power = refl;
  big = omega arith;
  low_mask = refl;
  storage = refl;
  filled = refl;
  bounded = omega arith;
  slots_as = slots_free;
  added_fits = omega arith;
  removed_fits = omega arith;
  dropped_fits = omega arith;
}

abbrev config : Config Sample
config = record {
  size = estimate_size (λ v. v);
  max_memory = pos 50;
  drop_oldest = false;
  exporters = (λ batch. false) ∷ [];
}

abbrev idle : Pipeline (RingBuffer Sample) Sample
idle = record {
  buffer = two_slots;
  processed = 0;
  dropped = 0;
  errors = 0;
  exporter_errors = 0 ∷ [];
  mem_usage = pos 0;
  exported = [];
}

idle-Accounts : Accounts (ring_ops 0 2) config (ring_queue Sample 0 2) 9 idle []
unfolding ring_queue
idle-Accounts = record {
  held = (two_slots-Holds, omega arith, refl);
  usage = refl;
  within = omega arith;
}

-- The second metric does not fit the memory limit.
OneMetric : Pipeline (RingBuffer Sample) Sample → Type 0
OneMetric p = Accounts (ring_ops 0 2) config (ring_queue Sample 0 2) 8 p (hits 1 ∷ [])

enqueue_example :
    (p' : Pipeline (RingBuffer Sample) Sample) × (enqueue (ring_ops 0 2) config idle (hits 1)
      ≡ some (none, p'))
    × OneMetric p'
    × (p'.dropped ≡ 0)
unfolding OneMetric enqueue_queue Queue.push estimate_size stats.Metric.has_exemplar
    stats.Metric.attributes_size
enqueue_example =
    enqueue_lem (ring_ops 0 2) config (ring_queue Sample 0 2) 8 idle [] (hits 1) (omega arith)
      idle-Accounts

-- A buffer with two metrics in it.
abbrev loaded : Pipeline (RingBuffer Sample) Sample
loaded = record idle {
  buffer = record two_slots {
    slots = full_slot 1 (hits 1) ∷ full_slot 2 (hits 2) ∷ [];
    write_pos = 2;
    added = 2;
  };
  mem_usage = pos 62;
}

slots_full :
    (j : ℕ)
    → j < 2
    → get_elem? loaded.buffer.slots ((0 + j) % 2)
      ≡ some (slot_for (0 + j) (get_elem? (hits 1 ∷ hits 2 ∷ []) j))
slots_full zero h = refl
slots_full (suc zero) h = refl
slots_full (suc (suc j)) h = absurd (omega arith)

loaded-Holds : Holds loaded.buffer (hits 1 ∷ hits 2 ∷ [])
loaded-Holds = record {
  bits = 1;
  power = refl;
  big = omega arith;
  low_mask = refl;
  storage = refl;
  filled = refl;
  bounded = omega arith;
  slots_as = slots_full;
  added_fits = omega arith;
  removed_fits = omega arith;
  dropped_fits = omega arith;
}

abbrev wide_config : Config Sample
wide_config = record config { max_memory = pos 100 }

loaded-Accounts :
    Accounts (ring_ops 0 2) wide_config (ring_queue Sample 0 2) 9 loaded (hits 1 ∷ hits 2 ∷ [])
unfolding ring_queue estimate_size stats.Metric.has_exemplar stats.Metric.attributes_size
loaded-Accounts = record {
  held = (loaded-Holds, omega arith, refl);
  usage = refl;
  within = omega arith;
}

drain_example :
    (failed : Bool) × (p' : Pipeline (RingBuffer Sample) Sample) × (drain
        (ring_ops 0 2)
        wide_config
        3
        (λ at. false)
        []
        loaded
        (hits 3 ∷ [])
      ≡ some (failed, p'))
    × Accounts (ring_ops 0 2) wide_config (ring_queue Sample 0 2) 9 p' []
    × Exports loaded p' (hits 3 ∷ hits 1 ∷ hits 2 ∷ [])
drain_example =
    drain_lem (ring_ops 0 2) wide_config (ring_queue Sample 0 2) 9 loaded (hits 3 ∷ []) []
      (hits 1 ∷ hits 2 ∷ []) loaded-Accounts

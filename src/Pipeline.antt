-- ===== src/Pipeline.antt =====
-- pipeline.go and drain.go: from `Record` through the buffer to the exporters.
-- A method runs with no other goroutine in between. Sizes are those of `EstimateSize`, and
-- `memUsage` is an unbounded integer. An exporter is what it answers to a batch: whether it fails.
pub mod Buffer
pub mod Memory
pub mod Drain
mod Tests
use stats.Base.{
  ℕ, zero, suc, ◌+◌, ◌-◌, Bool, true, false, ◌&&◌, ◌||◌, not, Option, none, some, List, [], ◌∷◌,
  ◌++◌, length, ltb, leb, ◌==◌, if◌then◌else◌,
}
use stats.Base.Int.{ℤ, pos, ◌+ℤ◌, ◌-ℤ◌, ltb_ℤ}
use stats.Base.Word.{add64}

-- What the pipeline calls of its ring. `none` is a call that does not return.
pub record BufferOps (B M : Type 0) : Type 0 where
  pub cap : ℕ
  pub push : B → M → Option (Bool × B)
  pub push_drop_oldest : B → M → Option (Option M × Bool × B)
  pub pop_batch : B → ℕ → Option (List M × B)

pub data RecordError : Type 0 where
  memory_limit buffer_full : RecordError

pub record Config (M : Type 0) : Type 0 where
  pub size : M → ℕ
  pub max_memory : ℤ
  pub drop_oldest : Bool
  pub exporters : List (List M → Bool)

-- `exported` is the batches that the exporters got, in order.
pub record Pipeline (B M : Type 0) : Type 0 where
  pub buffer : B
  pub processed : ℕ
  pub dropped : ℕ
  pub errors : ℕ
  pub exporter_errors : List ℕ
  pub mem_usage : ℤ
  pub exported : List (List M)

abbrev pub drain_chunk : ℕ
drain_chunk = 500

module _ {B M : Type 0} (ops : BufferOps B M) (cfg : Config M) where
  abbrev pub Recorded : Type 0
  Recorded = Option (Option RecordError × Pipeline B M)

  -- The reservation goes back and the metric is dropped.
  abbrev pub roll_back : Pipeline B M → M → Pipeline B M
  roll_back p m = record p {
    mem_usage = p.mem_usage -ℤ pos (cfg.size m);
    dropped = add64 p.dropped 1;
  }

  abbrev pub give_back : Pipeline B M → Option M → Pipeline B M
  give_back p none = p
  give_back p (some old) = record p { mem_usage = p.mem_usage -ℤ pos (cfg.size old) }

  abbrev pub keep_pushed : Pipeline B M → M → Option (Bool × B) → Recorded
  keep_pushed p m none = none
  keep_pushed p m (some (ok, b)) =
      if not ok
      then some (some buffer_full, roll_back (record p { buffer = b }) m)
      else some (none, record p { buffer = b })

  abbrev pub keep_evicting : Pipeline B M → M → Option (Option M × Bool × B) → Recorded
  keep_evicting p m none = none
  keep_evicting p m (some (evicted, ok, b)) =
      if not ok
      then some (some buffer_full, roll_back (record p { buffer = b }) m)
      else some (none, give_back (record p { buffer = b }) evicted)

  enqueue_drop_oldest : Pipeline B M → M → Recorded
  enqueue_drop_oldest p m = keep_evicting p m (ops.push_drop_oldest p.buffer m)

  pub enqueue : Pipeline B M → M → Recorded
  unfolding enqueue_drop_oldest
  enqueue p m =
      let new_usage = p.mem_usage +ℤ pos (cfg.size m) in
      let p' = record p { mem_usage = new_usage } in
      if ltb_ℤ cfg.max_memory new_usage
      then some (some memory_limit, record p { dropped = add64 p.dropped 1 })
      else if cfg.drop_oldest
      then enqueue_drop_oldest p' m
      else keep_pushed p' m (ops.push p.buffer m)

  append_popped : Pipeline B M → List M → List M → List M × Pipeline B M
  append_popped p batch [] = (batch, p)
  append_popped p batch (m ∷ items) =
      append_popped (record p { mem_usage = p.mem_usage -ℤ pos (cfg.size m) }) (batch ++ m ∷ [])
        items

  -- One exporter after the other; in the source they run side by side, on the same batch.
  count_failures : List M → List (List M → Bool) → List ℕ → ℕ × List ℕ
  count_failures batch [] counts = (0, counts)
  count_failures batch (export ∷ exporters) [] = (0, [])
  count_failures batch (export ∷ exporters) (c ∷ counts) =
      let (n, counts') = count_failures batch exporters counts in
      if export batch then (n + 1, add64 c 1 ∷ counts') else (n, c ∷ counts')

  -- Whether an error comes back.
  pub process_batch : Pipeline B M → List M → Bool × Pipeline B M
  unfolding count_failures
  process_batch p [] = (false, p)
  process_batch p (m ∷ batch) =
      let (n, counts) = count_failures (m ∷ batch) cfg.exporters p.exporter_errors in
      (
        ltb 0 n,
        record p {
          errors = add64 p.errors n;
          exporter_errors = counts;
          processed = add64 p.processed (length (m ∷ batch));
          exported = p.exported ++ (m ∷ batch) ∷ [];
        },
      )

  -- The loop of `drain` and the batch that is left. `ended` is whether the context is over when
  -- the loop tests it with so many metrics popped.
  drain_loop :
      ℕ → (ℕ → Bool) → ℕ → Bool → Pipeline B M → List M → Option (Bool × Pipeline B M × List M)
  drain_loop zero ended popped failed p batch = none
  drain_loop (suc fuel) ended popped failed p batch =
      if leb ops.cap popped || ended popped
      then some (failed, p, batch)
      else elim (ops.pop_batch p.buffer drain_chunk) [
        | none ↦ none
        | some ([], b) ↦ some (failed, record p { buffer = b }, batch)
        | some (m ∷ items, b) ↦
            let (batch', p') = append_popped (record p { buffer = b }) batch (m ∷ items) in
            let (error, p'') = process_batch p' batch' in
            let popped' = popped + length (m ∷ items) in
            let full = leb drain_chunk (length batch') in
            drain_loop fuel ended popped' (if full then failed || error else failed)
              (if full then p'' else p') (if full then [] else batch')
      ]

  abbrev pub finish_drain :
      List M → Option (Bool × Pipeline B M × List M) → Option (Bool × Pipeline B M)
  finish_drain counters none = none
  finish_drain counters (some (failed, p, batch)) =
      let (error, p') = process_batch p (batch ++ counters) in some (failed || error, p')

  -- `counters` are the observations of `appendDropCounters`.
  pub drain : ℕ → (ℕ → Bool) → List M → Pipeline B M → List M → Option (Bool × Pipeline B M)
  unfolding drain_loop append_popped
  drain fuel ended counters p batch = finish_drain counters (drain_loop fuel ended 0 false p batch)

-- ===== src/Pipeline/Drain.antt =====
-- `drain`: what a worker exports for a flush.
use stats.Base.{
  ℕ, zero, suc, ◌+◌, ◌%◌, ◌≤◌, ◌<◌, ◌≡◌, refl, sym, ap, subst, ◌∙◌, Bool, true, false, Bool-cases,
  inl, inr, ◌||◌, some, List, [], ◌∷◌, ◌++◌, append-nil, append_assoc, arith, length, length-append,
  take, drop, take-append-drop, leb,
}
use stats.Base.Int.{pos, ◌-ℤ◌, ◌≤ℤ◌, int_laws}
use stats.Base.Word.{word}
use stats.Pipeline.{
  BufferOps, Config, Pipeline, append_popped, process_batch, drain_chunk, drain_loop, finish_drain,
  drain,
}
use stats.Pipeline.Buffer.{IsQueue}
use stats.Pipeline.Memory.{Accounts, total_size, total_size-append}

abbrev pub flatten : {M : Type 0} → List (List M) → List M
flatten [] = []
flatten (b ∷ bs) = b ++ flatten bs

flatten-append :
    {M : Type 0} (bs : List (List M)) (b : List M) → flatten (bs ++ b ∷ []) ≡ flatten bs ++ b
flatten-append [] b = append-nil b
flatten-append (c ∷ bs) b =
    ap (λ t. c ++ t) (flatten-append bs b) ∙ sym (append_assoc c (flatten bs) b)

-- What has gone to the exporters from one state to another.
pub record Exports {B M : Type 0} (p p' : Pipeline B M) (ms : List M) : Type 0 where
  pub sent : flatten p'.exported ≡ flatten p.exported ++ ms
  pub counted : p'.processed % word ≡ (p.processed + length ms) % word

below_cap : (cap popped rest : ℕ) → popped + suc rest ≤ cap → leb cap popped ≡ false
below_cap cap popped rest h = ground arith

handed_on : {M : Type 0} (xs ys zs ws : List M) → xs ++ (ys ++ zs) ++ ws ≡ xs ++ ys ++ (zs ++ ws)
handed_on xs ys zs ws =
    ap (λ t. t ++ ws) (sym (append_assoc xs ys zs)) ∙ append_assoc (xs ++ ys) zs ws

module _ {B M : Type 0} (ops : BufferOps B M) (cfg : Config M) (laws : IsQueue ops) where
  process_batch-Exports :
      (p : Pipeline B M) (batch : List M)
      → let p' = (process_batch ops cfg p batch).1 in
        Exports p p' batch × (p'.buffer ≡ p.buffer) × (p'.mem_usage ≡ p.mem_usage)
  unfolding process_batch
  process_batch-Exports p [] =
      (record { sent = sym (append-nil _); counted = omega arith }, refl, refl)
  process_batch-Exports p (m ∷ batch) =
      (record { sent = flatten-append p.exported (m ∷ batch); counted = omega arith }, refl, refl)

  append_popped_lem :
      (p : Pipeline B M) (batch items : List M)
      → append_popped ops cfg p batch items
        ≡ (batch ++ items, record p { mem_usage = p.mem_usage -ℤ pos (total_size cfg.size items) })
  unfolding append_popped
  append_popped_lem p batch [] =
      let same : p.mem_usage ≡ p.mem_usage -ℤ pos 0 = omega int_laws in
      ap (λ u. (batch, record p { mem_usage = u })) same
      ∙ ap (λ b. (b, record p { mem_usage = p.mem_usage -ℤ pos 0 })) (sym (append-nil batch))
  append_popped_lem p batch (m ∷ items) =
      let less : p.mem_usage -ℤ pos (cfg.size m) -ℤ pos (total_size cfg.size items)
          ≡ p.mem_usage -ℤ pos (cfg.size m + total_size cfg.size items) =
        omega int_laws in
      append_popped_lem (record p { mem_usage = p.mem_usage -ℤ pos (cfg.size m) }) (batch ++ m ∷ [])
        items
      ∙ ap
          (λ b. (
            b,
            record p {
              mem_usage = p.mem_usage -ℤ pos (cfg.size m) -ℤ pos (total_size cfg.size items);
            },
          ))
          (append_assoc batch (m ∷ []) items)
      ∙ ap (λ u. (batch ++ m ∷ items, record p { mem_usage = u })) less

  -- The loop from a state in which the buffer holds the queue.
  abbrev Drains : ℕ → ℕ → ℕ → Bool → Pipeline B M → List M → List M → Type 0
  Drains n fuel popped failed p batch q =
      (failed' : Bool) × (p' : Pipeline B M) × (batch' : List M) × (drain_loop ops cfg fuel
          (λ at. false) popped failed p batch
        ≡ some (failed', p', batch'))
      × Accounts ops cfg laws n p' []
      × (flatten p'.exported ++ batch' ≡ flatten p.exported ++ batch ++ q)
      × ((p'.processed + length batch') % word ≡ (p.processed + length batch + length q) % word)

  -- One round that pops metrics: what is popped joins the batch, which is exported when it is full.
  abbrev popped_to : Pipeline B M → B → List M → Pipeline B M
  popped_to p b items = record p {
    buffer = b;
    mem_usage = p.mem_usage -ℤ pos (total_size cfg.size items);
  }

  full_round :
      (fuel popped : ℕ) (failed : Bool) (p : Pipeline B M) (batch : List M) (m : M) (items : List M)
      (b : B)
      → leb ops.cap popped ≡ false
      → ops.pop_batch p.buffer drain_chunk ≡ some (m ∷ items, b)
      → leb drain_chunk (length (batch ++ m ∷ items)) ≡ true
      → let (error, p'') = process_batch ops cfg (popped_to p b (m ∷ items)) (batch ++ m ∷ items) in
        drain_loop ops cfg (suc fuel) (λ at. false) popped failed p batch
        ≡ drain_loop ops cfg fuel
            (λ at. false)
            (popped + length (m ∷ items))
            (failed || error)
            p''
            []
  unfolding drain_loop
  full_round fuel popped failed p batch m items b room runs full =
      rw (room, runs, append_popped_lem (record p { buffer = b }) batch (m ∷ items), full) refl

  partial_round :
      (fuel popped : ℕ) (failed : Bool) (p : Pipeline B M) (batch : List M) (m : M) (items : List M)
      (b : B)
      → leb ops.cap popped ≡ false
      → ops.pop_batch p.buffer drain_chunk ≡ some (m ∷ items, b)
      → leb drain_chunk (length (batch ++ m ∷ items)) ≡ false
      → drain_loop ops cfg (suc fuel) (λ at. false) popped failed p batch
        ≡ drain_loop ops cfg fuel
            (λ at. false)
            (popped + length (m ∷ items))
            failed
            (popped_to p b (m ∷ items))
            (batch ++ m ∷ items)
  unfolding drain_loop
  partial_round fuel popped failed p batch m items b room runs full =
      rw (room, runs, append_popped_lem (record p { buffer = b }) batch (m ∷ items), full) refl

  last_round :
      (fuel popped : ℕ) (failed : Bool) (p : Pipeline B M) (batch : List M) (b : B)
      → leb ops.cap popped ≡ false
      → ops.pop_batch p.buffer drain_chunk ≡ some ([], b)
      → drain_loop ops cfg (suc fuel) (λ at. false) popped failed p batch
        ≡ some (failed, record p { buffer = b }, batch)
  unfolding drain_loop
  last_round fuel popped failed p batch b room runs = rw (room, runs) refl

  limit_round :
      (fuel popped : ℕ) (failed : Bool) (p : Pipeline B M) (batch : List M)
      → leb ops.cap popped ≡ true
      → drain_loop ops cfg (suc fuel) (λ at. false) popped failed p batch ≡ some (failed, p, batch)
  unfolding drain_loop
  limit_round fuel popped failed p batch over = rw over refl

  -- What is left of the account when the first metrics leave the buffer.
  account_popped :
      (n : ℕ) (p : Pipeline B M) (items rest : List M) (b : B)
      → p.mem_usage ≡ pos (total_size cfg.size (items ++ rest))
      → p.mem_usage ≤ℤ cfg.max_memory
      → laws.Rep n b rest
      → Accounts ops cfg laws n (popped_to p b items) rest
  account_popped n p items rest b usage within rep =
      let left : p.mem_usage -ℤ pos (total_size cfg.size items) ≡ pos (total_size cfg.size rest) =
        rw usage (omega (int_laws, total_size-append cfg.size items rest)) in
      let within' = subst (λ t. t ≤ℤ cfg.max_memory) usage within in
      record {
        held = rep;
        usage = left;
        within = rw left (omega (arith, within', total_size-append cfg.size items rest));
      }

  account_kept :
      (n : ℕ) (p p' : Pipeline B M) (q : List M)
      → Accounts ops cfg laws n p q
      → p'.buffer ≡ p.buffer
      → p'.mem_usage ≡ p.mem_usage
      → Accounts ops cfg laws n p' q
  account_kept n p p' q a b u = record {
    held = subst (λ t. laws.Rep n t q) (sym b) a.held;
    usage = u ∙ a.usage;
    within = subst (λ t. t ≤ℤ cfg.max_memory) (sym u) a.within;
  }

  drains :
      (fuel n popped : ℕ) (failed : Bool) (p : Pipeline B M) (batch q : List M)
      → Accounts ops cfg laws n p q
      → popped + length q ≤ ops.cap
      → length q < fuel
      → Drains n fuel popped failed p batch q
  drains zero n popped failed p batch q a fits enough = absurd (omega arith)
  drains (suc fuel) n popped failed p batch [] a fits enough =
      elim (Bool-cases (leb ops.cap popped)) [
        | inl over ↦ (
          failed,
          p,
          batch,
          limit_round fuel popped failed p batch over,
          a,
          sym (append-nil _),
          omega arith,
        )
        | inr room ↦
            let (b, runs, rep) = laws.pop_batch_lem n p.buffer [] drain_chunk a.held in
            (
              failed,
              record p { buffer = b },
              batch,
              last_round fuel popped failed p batch b room runs,
              record { held = rep; usage = a.usage; within = a.within },
              sym (append-nil _),
              omega arith,
            )
      ]
  drains (suc fuel) n popped failed p batch (y ∷ q) a fits enough =
      let items = take 499 q in
      let rest = drop 499 q in
      let (b, runs, rep) = laws.pop_batch_lem n p.buffer (y ∷ q) drain_chunk a.held in
      let whole : (y ∷ items) ++ rest ≡ y ∷ q = ap (λ t. y ∷ t) (take-append-drop 499 q) in
      let count : length (y ∷ items) + length rest ≡ length (y ∷ q) =
        sym (length-append (y ∷ items) rest) ∙ ap length whole in
      let a' =
        account_popped n p (y ∷ items) rest b
          (a.usage ∙ ap (λ t. pos (total_size cfg.size t)) (sym whole)) a.within rep in
      let room : leb ops.cap popped ≡ false = below_cap ops.cap popped (length q) fits in
      elim (Bool-cases (leb drain_chunk (length (batch ++ y ∷ items)))) [
        | inl full ↦
            let (error, p'') =
              process_batch ops cfg (popped_to p b (y ∷ items)) (batch ++ y ∷ items) in
            let (gone, same_buffer, same_usage) =
              process_batch-Exports (popped_to p b (y ∷ items)) (batch ++ y ∷ items) in
            let a'' : Accounts ops cfg laws n p'' rest =
              account_kept n (popped_to p b (y ∷ items)) p'' rest a' same_buffer same_usage in
            let (failed', p', batch', runs', left, sent, counted) =
              drains fuel n (popped + length (y ∷ items)) (failed || error) p'' [] rest a''
                (omega arith) (omega arith) in
            (
              failed',
              p',
              batch',
              full_round fuel popped failed p batch y items b room runs full ∙ runs',
              left,
              sent
                  ∙ ap (λ t. t ++ rest) (append-nil (flatten p''.exported) ∙ gone.sent)
                  ∙ handed_on (flatten p.exported) batch (y ∷ items) rest
                  ∙ ap (λ t. flatten p.exported ++ batch ++ t) whole,
              omega (arith, counted, gone.counted, length-append batch (y ∷ items)),
            )
        | inr part ↦
            let (failed', p', batch', runs', left, sent, counted) =
              drains fuel n (popped + length (y ∷ items)) failed (popped_to p b (y ∷ items))
                (batch ++ y ∷ items) rest a' (omega arith) (omega arith) in
            (
              failed',
              p',
              batch',
              partial_round fuel popped failed p batch y items b room runs part ∙ runs',
              left,
              sent
                  ∙ handed_on (flatten p.exported) batch (y ∷ items) rest
                  ∙ ap (λ t. flatten p.exported ++ batch ++ t) whole,
              omega (arith, counted, length-append batch (y ∷ items)),
            )
      ]

  -- While its context lasts, `drain` returns with an empty buffer and nothing accounted for. It has
  -- sent to the exporters, each in its order and once, the batch, what was in the buffer, and the
  -- drop counters; and `processed` counts them, modulo 2^64. The rounds are at most as many as the
  -- metrics in the buffer, and one.
  pub drain_lem :
      (n : ℕ) (p : Pipeline B M) (batch counters q : List M)
      → Accounts ops cfg laws n p q
      → (failed : Bool) × (p' : Pipeline B M) × (drain ops cfg
            (suc (length q))
            (λ at. false)
            counters
            p
            batch
          ≡ some (failed, p'))
        × Accounts ops cfg laws n p' []
        × Exports p p' (batch ++ q ++ counters)
  unfolding drain
  drain_lem n p batch counters q a =
      let (failed, p1, batch', runs, left, sent, counted) =
        drains (suc (length q)) n 0 false p batch q a
          (omega (arith, laws.bounded n p.buffer q a.held)) (omega arith) in
      let (error, p2) = process_batch ops cfg p1 (batch' ++ counters) in
      let (gone, same_buffer, same_usage) = process_batch-Exports p1 (batch' ++ counters) in
      (
        failed || error,
        p2,
        ap (finish_drain ops cfg counters) runs,
        account_kept n p1 p2 [] left same_buffer same_usage,
        record {
          sent =
              gone.sent
              ∙ sym (append_assoc (flatten p1.exported) batch' counters)
              ∙ ap (λ t. t ++ counters) (sent ∙ append_assoc (flatten p.exported) batch q)
              ∙ append_assoc (flatten p.exported) (batch ++ q) counters;
          counted = omega (
            arith,
            counted,
            gone.counted,
            length-append batch' counters,
            length-append (batch ++ q) counters,
            length-append batch q,
          );
        },
      )

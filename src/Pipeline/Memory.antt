-- ===== src/Pipeline/Memory.antt =====
-- `enqueue`: the memory that is accounted for is that of the metrics in the buffer.
use stats.Base.{
  ℕ, suc, ◌+◌, ◌≤◌, ◌<◌, ◌≡◌, refl, sym, ap, subst, ◌∙◌, true, false, Bool-cases, inl, inr, Option,
  none, some, List, [], ◌∷◌, ◌++◌, arith, length, if◌then◌else◌, dec_lt,
}
use stats.Base.Int.{pos, ◌+ℤ◌, ◌-ℤ◌, ◌≤ℤ◌, ltb_ℤ, int_laws}
use stats.Base.Word.{add64}
use stats.Queue
use stats.Pipeline.{
  BufferOps, RecordError, memory_limit, buffer_full, Config, Pipeline, roll_back, give_back,
  keep_pushed, keep_evicting, enqueue, enqueue_drop_oldest,
}
use stats.Pipeline.Buffer.{IsQueue}

abbrev pub total_size : {M : Type 0} → (M → ℕ) → List M → ℕ
total_size size [] = 0
total_size size (m ∷ q) = size m + total_size size q

pub total_size-append :
    {M : Type 0} (size : M → ℕ) (q r : List M)
    → total_size size (q ++ r) ≡ total_size size q + total_size size r
total_size-append size [] r = omega arith
total_size-append size (m ∷ q) r = omega (arith, total_size-append size q r)

module _ {B M : Type 0} (ops : BufferOps B M) (cfg : Config M) (laws : IsQueue ops) where
  -- The buffer holds the queue, and `memUsage` is the sum of the sizes in it, within the limit.
  pub record Accounts (n : ℕ) (p : Pipeline B M) (q : List M) : Type 0 where
    pub held : laws.Rep n p.buffer q
    pub usage : p.mem_usage ≡ pos (total_size cfg.size q)
    pub within : p.mem_usage ≤ℤ cfg.max_memory

  -- What `enqueue` promises: the queue with the metric in it, or the error.
  unfoldable pub enqueue_queue : List M → M → Option RecordError × List M
  enqueue_queue q m =
      if ltb_ℤ cfg.max_memory (pos (total_size cfg.size q + cfg.size m))
      then (some memory_limit, q)
      else if cfg.drop_oldest
      then (none, (Queue.push_drop_oldest ops.cap q m).1)
      else (let (ok, q') = Queue.push ops.cap q m in (if ok then none else some buffer_full, q'))

  reserves :
      (q : List M) (m : M)
      → pos (total_size cfg.size q) +ℤ pos (cfg.size m) ≡ pos (total_size cfg.size q + cfg.size m)
  reserves q m = omega int_laws

  over_limit :
      (n : ℕ) (p : Pipeline B M) (q : List M) (m : M)
      → Accounts n p q
      → ltb_ℤ cfg.max_memory (pos (total_size cfg.size q + cfg.size m)) ≡ true
      → enqueue ops cfg p m ≡ some (some memory_limit, record p { dropped = add64 p.dropped 1 })
  unfolding enqueue
  over_limit n p q m a h = rw (a.usage, reserves q m, h) refl

  abbrev reserved : Pipeline B M → List M → M → Pipeline B M
  reserved p q m = record p { mem_usage = pos (total_size cfg.size q + cfg.size m) }

  enqueue_pushing :
      (n : ℕ) (p : Pipeline B M) (q : List M) (m : M)
      → Accounts n p q
      → ltb_ℤ cfg.max_memory (pos (total_size cfg.size q + cfg.size m)) ≡ false
      → cfg.drop_oldest ≡ false
      → enqueue ops cfg p m ≡ keep_pushed ops cfg (reserved p q m) m (ops.push p.buffer m)
  unfolding enqueue
  enqueue_pushing n p q m a h s = rw (a.usage, reserves q m, h, s) refl

  enqueue_evicting :
      (n : ℕ) (p : Pipeline B M) (q : List M) (m : M)
      → Accounts n p q
      → ltb_ℤ cfg.max_memory (pos (total_size cfg.size q + cfg.size m)) ≡ false
      → cfg.drop_oldest ≡ true
      → enqueue ops cfg p m
        ≡ keep_evicting ops cfg (reserved p q m) m (ops.push_drop_oldest p.buffer m)
  unfolding enqueue enqueue_drop_oldest
  enqueue_evicting n p q m a h s = rw (a.usage, reserves q m, h, s) refl

  abbrev pub dropped_after : ℕ → Option RecordError → ℕ
  dropped_after count none = count
  dropped_after count (some err) = add64 count 1

  -- The result of one call.
  abbrev pub Enqueues : ℕ → Pipeline B M → M → Option RecordError × List M → Type 0
  Enqueues n p m (err, q') =
      (p' : Pipeline B M) × (enqueue ops cfg p m ≡ some (err, p'))
      × Accounts n p' q'
      × (p'.dropped ≡ dropped_after p.dropped err)

  Below : List M → M → Type 0
  Below q m = ltb_ℤ cfg.max_memory (pos (total_size cfg.size q + cfg.size m)) ≡ false

  test-Below :
      (q : List M) (m : M)
      → Below q m
      → ltb_ℤ cfg.max_memory (pos (total_size cfg.size q + cfg.size m)) ≡ false
  unfolding Below
  test-Below q m h = h

  -- The buffer with the metric behind the queue.
  with_metric :
      (n : ℕ) (p : Pipeline B M) (q : List M) (m : M) (b' : B)
      → Below q m
      → laws.Rep n b' (q ++ m ∷ [])
      → Accounts n (record (reserved p q m) { buffer = b' }) (q ++ m ∷ [])
  unfolding Below
  with_metric n p q m b' h rep = record {
    held = rep;
    usage = ap pos (omega (arith, total_size-append cfg.size q (m ∷ [])));
    within = ground arith;
  }

  without_metric :
      (n : ℕ) (p : Pipeline B M) (q : List M) (m : M) (b' : B)
      → Accounts (suc n) p q
      → laws.Rep n b' q
      → Accounts n (roll_back ops cfg (record (reserved p q m) { buffer = b' }) m) q
  without_metric n p q m b' a rep =
      let back : pos (total_size cfg.size q + cfg.size m) -ℤ pos (cfg.size m)
          ≡ pos (total_size cfg.size q) =
        omega int_laws in
      record {
        held = rep;
        usage = back;
        within = subst (λ t. t ≤ℤ cfg.max_memory) (a.usage ∙ sym back) a.within;
      }

  without_oldest :
      (n : ℕ) (p : Pipeline B M) (y : M) (q : List M) (m : M) (b' : B)
      → Below (y ∷ q) m
      → laws.Rep n b' (q ++ m ∷ [])
      → Accounts n
          (give_back ops cfg (record (reserved p (y ∷ q) m) { buffer = b' }) (some y))
          (q ++ m ∷ [])
  unfolding Below
  without_oldest n p y q m b' h rep =
      let back : pos (total_size cfg.size (y ∷ q) + cfg.size m) -ℤ pos (cfg.size y)
          ≡ pos (total_size cfg.size (q ++ m ∷ [])) =
        omega (int_laws, total_size-append cfg.size q (m ∷ [])) in
      record {
        held = rep;
        usage = back;
        within = rw back (ground (arith, total_size-append cfg.size q (m ∷ [])));
      }

  pushes :
      (n : ℕ) (p : Pipeline B M) (q : List M) (m : M)
      → Accounts (suc n) p q
      → Below q m
      → cfg.drop_oldest ≡ false
      → Enqueues n p m
          (let (ok, q') = Queue.push ops.cap q m in (if ok then none else some buffer_full, q'))
  unfolding Below
  pushes n p q m a h s =
      let (b', runs, rep) = laws.push_lem n p.buffer q m a.held in
      let start = enqueue_pushing (suc n) p q m a h s in
      elim (dec_lt (length q) ops.cap) [
        | yes room ↦
            let e = Queue.push_with_room ops.cap q m room in
            let rep' = subst (λ r. laws.Rep n b' r.1) e rep in
            rw e (
              record (reserved p q m) { buffer = b' },
              start
                  ∙ ap (keep_pushed ops cfg (reserved p q m) m) (runs ∙ ap (λ r. some (r.0, b')) e),
              with_metric n p q m b' h rep',
              refl,
            )
        | no full ↦
            let e = Queue.push_at_limit ops.cap q m (omega arith) in
            let rep' = subst (λ r. laws.Rep n b' r.1) e rep in
            rw e (
              roll_back ops cfg (record (reserved p q m) { buffer = b' }) m,
              start
                  ∙ ap (keep_pushed ops cfg (reserved p q m) m) (runs ∙ ap (λ r. some (r.0, b')) e),
              without_metric n p q m b' a rep',
              refl,
            )
      ]

  evicts_full :
      (n : ℕ) (p : Pipeline B M) (q : List M) (m : M)
      → Accounts (suc n) p q
      → Below q m
      → cfg.drop_oldest ≡ true
      → 0 < ops.cap
      → ops.cap ≤ length q
      → Enqueues n p m (none, (Queue.push_drop_oldest ops.cap q m).1)
  evicts_full n p [] m a h s room full = absurd (omega arith)
  evicts_full n p (y ∷ q) m a h s room full =
      let (b', runs, rep) = laws.push_drop_oldest_lem n p.buffer (y ∷ q) m a.held in
      let e = Queue.drop_oldest_at_limit ops.cap (y ∷ q) m full in
      let rep' = subst (λ r. laws.Rep n b' r.1) e rep in
      rw e (
        give_back ops cfg (record (reserved p (y ∷ q) m) { buffer = b' }) (some y),
        enqueue_evicting (suc n) p (y ∷ q) m a (test-Below (y ∷ q) m h) s
            ∙ ap (keep_evicting ops cfg (reserved p (y ∷ q) m) m)
                (runs ∙ ap (λ r. some (r.0, true, b')) e),
        without_oldest n p y q m b' h rep',
        refl,
      )

  evicts :
      (n : ℕ) (p : Pipeline B M) (q : List M) (m : M)
      → Accounts (suc n) p q
      → Below q m
      → cfg.drop_oldest ≡ true
      → 0 < ops.cap
      → Enqueues n p m (none, (Queue.push_drop_oldest ops.cap q m).1)
  evicts n p q m a h s pos_cap = elim (dec_lt (length q) ops.cap) [
    | yes room ↦
        let (b', runs, rep) = laws.push_drop_oldest_lem n p.buffer q m a.held in
        let e = Queue.drop_oldest_with_room ops.cap q m room in
        let rep' = subst (λ r. laws.Rep n b' r.1) e rep in
        rw e (
          record (reserved p q m) { buffer = b' },
          enqueue_evicting (suc n) p q m a (test-Below q m h) s
              ∙ ap (keep_evicting ops cfg (reserved p q m) m)
                  (runs ∙ ap (λ r. some (r.0, true, b')) e),
          with_metric n p q m b' h rep',
          refl,
        )
    | no full ↦ evicts_full n p q m a h s pos_cap (omega arith)
  ]

  -- `enqueue` always returns. It refuses a metric for which the memory does not suffice; otherwise
  -- it does with it what the queue of the drop strategy does. Behind it `memUsage` is the size of
  -- what is in the buffer, within the limit, and an error is counted as one drop.
  pub enqueue_lem :
      (n : ℕ) (p : Pipeline B M) (q : List M) (m : M)
      → 0 < ops.cap
      → Accounts (suc n) p q
      → Enqueues n p m (enqueue_queue q m)
  unfolding enqueue_queue Below
  enqueue_lem n p q m room a =
      elim (Bool-cases (ltb_ℤ cfg.max_memory (pos (total_size cfg.size q + cfg.size m)))) [
        | inl over ↦ rw over (
          record p { dropped = add64 p.dropped 1 },
          over_limit (suc n) p q m a over,
          record { held = laws.spare n p.buffer q a.held; usage = a.usage; within = a.within },
          refl,
        )
        | inr below ↦ elim (Bool-cases cfg.drop_oldest) [
          | inl oldest ↦
              subst (Enqueues n p m) (rw (enqueue_queue, below, oldest) refl)
                (evicts n p q m a below oldest room)
          | inr newest ↦
              subst (Enqueues n p m) (rw (enqueue_queue, below, newest) refl)
                (pushes n p q m a below newest)
        ]
      ]

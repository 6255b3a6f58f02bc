-- ===== src/Cardinality/Limit.antt =====
-- Admissions to one metric name in any order: the limit on its series.
use stats.Base.{
  ℕ, ◌+◌, ◌-◌, ◌≤◌, ◌<◌, ◌≡◌, refl, ap, ◌∙◌, Bool, true, ◌&&◌, not, Option, none, some, List, [],
  ◌∷◌, length, arith, leb, ◌==◌, if◌then◌else◌, Bool-cases, inl, inr,
}
use stats.Cardinality.{MetricSeries, has, value_at, put, store, unreserve, reserve, commit, release}
use stats.Cardinality.Series.{
  IsEquality, Tidy, unseen, value-put, value-remove, put-Tidy, remove-Tidy, unseen-put,
  unseen-remove, unseen-mark, apart, read_same,
}

-- An observation arrives, and later is recorded or fails to be.
pub data Move (K : Type 0) : Type 0 where
  arrives records fails : K → Move K

module _ {K : Type 0} (same : K → K → Bool) where
  -- How many admissions in flight hold a slot of the key.
  abbrev pub times : K → List K → ℕ
  times k [] = 0
  times k (x ∷ xs) = (if same k x then 1 else 0) + times k xs

  abbrev pub drop_one : K → List K → List K
  drop_one k [] = []
  drop_one k (x ∷ xs) = if same k x then xs else x ∷ drop_one k xs

  abbrev arrived : List K → K → Option Bool × MetricSeries K → MetricSeries K × List K
  arrived held k (none, s) = (s, held)
  arrived held k (some holds, s) = (s, if holds then k ∷ held else held)

  -- The series of the name, and the keys of the admissions that hold a slot.
  unfoldable pub step : ℕ → MetricSeries K × List K → Move K → MetricSeries K × List K
  step limit (s, held) (arrives k) = arrived held k (reserve same limit s k)
  step limit (s, held) (records k) =
      if times k held == 0 then (s, held) else (commit same s k, drop_one k held)
  step limit (s, held) (fails k) =
      if times k held == 0 then (s, held) else (release same s k, drop_one k held)

  unfoldable pub run : ℕ → MetricSeries K × List K → List (Move K) → MetricSeries K × List K
  run limit now [] = now
  run limit now (m ∷ ms) = run limit (step limit now m) ms

  pub record IsCounted (limit : ℕ) (s : MetricSeries K) (held : List K) : Type 0 where
    pub tidy : Tidy same s.reserved
    pub shared : (k : K) → value_at same k s.reserved ≡ times k held
    pub counted : s.count ≡ length s.admitted + unseen same s.admitted s.reserved
    pub limited : s.count ≤ limit

  abbrev AfterReserve : ℕ → List K → K → Option Bool × MetricSeries K → Type 0
  AfterReserve limit held k (none, s) = IsCounted limit s held
  AfterReserve limit held k (some holds, s) = IsCounted limit s (if holds then k ∷ held else held)

  module _ (eq : IsEquality same) (limit : ℕ) where
    times-drop_one :
        (k j : K) (held : List K)
        → times j (drop_one k held) ≡ (if same j k then times j held - 1 else times j held)
    times-drop_one k j [] = ground arith
    times-drop_one k j (x ∷ held) = elim (Bool-cases (same k x)) [
      | inl s ↦ rw (s, ← eq.sound k x s) (ground arith)
      | inr s ↦ rw s (ground (arith, times-drop_one k j held, apart same eq k x j s))
    ]

    same_times : (k j : K) (held : List K) → same j k ≡ true → times j held ≡ times k held
    same_times k j held s = ap (λ y. times y held) (eq.sound j k s)

    -- One more admission holds the slot of the key.
    holds_more :
        (s : MetricSeries K) (held : List K) (k : K) (count : ℕ)
        → IsCounted limit s held
        → count
          ≡ s.count
            + (if value_at same k s.reserved == 0 && not (has same k s.admitted) then 1 else 0)
        → count ≤ limit
        → IsCounted limit
            (record s {
              count = count;
              reserved = put same k (value_at same k s.reserved + 1) s.reserved;
            })
            (k ∷ held)
    holds_more s held k count c e small = record {
      tidy = put-Tidy same eq k (value_at same k s.reserved + 1) s.reserved (omega arith) c.tidy;
      shared = λ j.
          value-put same eq k (value_at same k s.reserved + 1) s.reserved j
          ∙ ground (arith, c.shared j, read_same same eq k j s.reserved);
      counted = omega (
        arith,
        c.counted,
        e,
        unseen-put same eq s.admitted k (value_at same k s.reserved + 1) s.reserved c.tidy,
      );
      limited = small;
    }

    -- One admission less holds it, and `count` keeps up.
    holds_less :
        (s : MetricSeries K) (held : List K) (k : K)
        → IsCounted limit s held
        → 0 < times k held
        → let s' = unreserve same s k in
          Tidy same s'.reserved
          × ((j : K) → value_at same j s'.reserved ≡ times j (drop_one k held))
          × (unseen same s.admitted s'.reserved
                + (if value_at same k s'.reserved == 0 && not (has same k s.admitted) then 1 else 0)
              ≡ unseen same s.admitted s.reserved)
    unfolding unreserve
    holds_less s held k c h =
        let n = value_at same k s.reserved - 1 in
        let least = c.shared k in
        elim (Bool-cases (n == 0)) [
          | inl last ↦ rw last (
            remove-Tidy same eq k s.reserved c.tidy,
            λ j.
                value-remove same eq k s.reserved j c.tidy
                ∙ ground (arith, c.shared j, times-drop_one k j held, same_times k j held, least),
            ground (
              arith,
              unseen-remove same eq s.admitted k s.reserved c.tidy,
              value-remove same eq k s.reserved k c.tidy,
              eq.self k,
              least,
            ),
          )
          | inr more ↦ rw more (
            put-Tidy same eq k n s.reserved (ground arith) c.tidy,
            λ j.
                value-put same eq k n s.reserved j
                ∙ ground (arith, c.shared j, times-drop_one k j held, same_times k j held, least),
            ground (
              arith,
              unseen-put same eq s.admitted k n s.reserved c.tidy,
              value-put same eq k n s.reserved k,
              eq.self k,
              least,
            ),
          )
        ]

    has-store : (k : K) (ks : List K) → has same k (store same k ks) ≡ true
    has-store k ks = elim (Bool-cases (has same k ks)) [
      | inl seen ↦ rw seen seen
      | inr fresh ↦ rw fresh (ground (arith, eq.self k))
    ]

    -- Marking a key that is held as admitted moves it from one summand of `count` to the other.
    mark-IsCounted :
        (s : MetricSeries K) (held : List K) (k : K)
        → IsCounted limit s held
        → 0 < times k held
        → IsCounted limit (record s { admitted = store same k s.admitted }) held
    mark-IsCounted s held k c h = elim (Bool-cases (has same k s.admitted)) [
      | inl seen ↦
          rw seen
            (record { tidy = c.tidy; shared = c.shared; counted = c.counted; limited = c.limited })
      | inr fresh ↦ rw fresh (record {
        tidy = c.tidy;
        shared = c.shared;
        counted = ground (
          arith,
          c.counted,
          c.shared k,
          unseen-mark same eq s.admitted k s.reserved c.tidy fresh,
        );
        limited = c.limited;
      })
    ]

    commit-IsCounted :
        (s : MetricSeries K) (held : List K) (k : K)
        → IsCounted limit s held
        → 0 < times k held
        → IsCounted limit (commit same s k) (drop_one k held)
    unfolding commit
    commit-IsCounted s held k c h =
        let marked : MetricSeries K = record s { admitted = store same k s.admitted } in
        let c' = mark-IsCounted s held k c h in
        let (tidy', shared', same_sum) = holds_less marked held k c' h in
        record {
          tidy = tidy';
          shared = shared';
          counted = ground (arith, c'.counted, same_sum, has-store k s.admitted);
          limited = c.limited;
        }

    release-IsCounted :
        (s : MetricSeries K) (held : List K) (k : K)
        → IsCounted limit s held
        → 0 < times k held
        → IsCounted limit (release same s k) (drop_one k held)
    unfolding release
    release-IsCounted s held k c h =
        let (tidy', shared', same_sum) = holds_less s held k c h in
        elim (Bool-cases
          (not (has same k s.admitted) && value_at same k (unreserve same s k).reserved == 0)) [
            | inl gone ↦ rw gone (record {
              tidy = tidy';
              shared = shared';
              counted = ground (arith, c.counted, same_sum);
              limited = ground (arith, c.limited);
            })
            | inr kept ↦ rw kept (record {
              tidy = tidy';
              shared = shared';
              counted = ground (arith, c.counted, same_sum);
              limited = c.limited;
            })
          ]

    adds_one :
        (s : MetricSeries K) (k : K)
        → value_at same k s.reserved == 0 ≡ true
        → put same k 1 s.reserved ≡ put same k (value_at same k s.reserved + 1) s.reserved
    adds_one s k h = ap (λ (n : ℕ). put same k n s.reserved) (ground arith)

    reserve-IsCounted :
        (s : MetricSeries K) (held : List K) (k : K)
        → IsCounted limit s held
        → AfterReserve limit held k (reserve same limit s k)
    unfolding reserve
    reserve-IsCounted s held k c = elim (Bool-cases (has same k s.admitted)) [
      | inl seen ↦ rw seen c
      | inr fresh ↦ rw fresh (elim (Bool-cases (value_at same k s.reserved == 0)) [
        | inl first ↦ rw first (elim (Bool-cases (leb limit s.count)) [
          | inl reached ↦ rw reached c
          | inr room ↦
              rw (room, adds_one s k first)
                (holds_more s held k (s.count + 1) c (ground (arith, first, fresh)) (ground arith))
        ])
        | inr again ↦ rw again (holds_more s held k s.count c (ground arith) c.limited)
      ])
    ]

    arrived-IsCounted :
        (held : List K) (k : K) (r : Option Bool × MetricSeries K)
        → AfterReserve limit held k r
        → let (s', held') = arrived held k r in IsCounted limit s' held'
    arrived-IsCounted held k (none, s) c = c
    arrived-IsCounted held k (some holds, s) c = c

    step-IsCounted :
        (s : MetricSeries K) (held : List K) (m : Move K)
        → IsCounted limit s held
        → let (s', held') = step limit (s, held) m in IsCounted limit s' held'
    unfolding step
    step-IsCounted s held (arrives k) c =
        arrived-IsCounted held k (reserve same limit s k) (reserve-IsCounted s held k c)
    step-IsCounted s held (records k) c = elim (Bool-cases (times k held == 0)) [
      | inl idle ↦ rw idle c
      | inr busy ↦ rw busy (commit-IsCounted s held k c (ground arith))
    ]
    step-IsCounted s held (fails k) c = elim (Bool-cases (times k held == 0)) [
      | inl idle ↦ rw idle c
      | inr busy ↦ rw busy (release-IsCounted s held k c (ground arith))
    ]

    run-IsCounted :
        (ms : List (Move K)) (s : MetricSeries K) (held : List K)
        → IsCounted limit s held
        → let (s', held') = run limit (s, held) ms in IsCounted limit s' held'
    unfolding run
    run-IsCounted [] s held c = c
    run-IsCounted (m ∷ ms) s held c =
        let (s', held') = step limit (s, held) m in
        run-IsCounted ms s' held' (step-IsCounted s held m c)

    unseen_of_idle :
        (ks : List K) (m : List (K × ℕ))
        → Tidy same m
        → ((k : K) → value_at same k m ≡ 0)
        → unseen same ks m ≡ 0
    unseen_of_idle ks [] t idle = refl
    unseen_of_idle ks ((x, n) ∷ m) (pos, fresh, t) idle = absurd (ground (arith, idle x, eq.self x))

    abbrev at_first : MetricSeries K × List K
    at_first = (record { admitted = []; count = 0; reserved = [] }, [])

    reached-IsCounted :
        (ms : List (Move K)) → let (s, held) = run limit at_first ms in IsCounted limit s held
    reached-IsCounted ms =
        run-IsCounted ms at_first.0 []
          (record { tidy = tt; shared = λ k. refl; counted = refl; limited = omega arith })

    -- However the admissions to a new name interleave, no more series than the limit are admitted
    -- or reserved, `count` is their number, and a key is reserved as often as admissions hold it.
    pub limited :
        (ms : List (Move K))
        → let (s, held) = run limit at_first ms in
          (s.count ≤ limit)
          × (s.count ≡ length s.admitted + unseen same s.admitted s.reserved)
          × ((k : K) → value_at same k s.reserved ≡ times k held)
    limited ms = let c = reached-IsCounted ms in (c.limited, c.counted, c.shared)

    -- When no admission is in flight, `count` is the number of admitted series.
    pub idle_count :
        (ms : List (Move K))
        → (run limit at_first ms).1 ≡ []
        → (run limit at_first ms).0.count ≡ length (run limit at_first ms).0.admitted
    idle_count ms none_held =
        let c = reached-IsCounted ms in
        let (s, held) = run limit at_first ms in
        let idle : (k : K) → value_at same k s.reserved ≡ 0 =
          λ k. c.shared k ∙ ap (times k) none_held in
        omega (arith, c.counted, unseen_of_idle s.admitted s.reserved c.tidy idle)

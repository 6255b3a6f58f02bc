-- ===== src/Otlp/Points.antt =====
-- Two points of one series in a row.
use stats.Base.{◌≡◌, refl, Bool, true, false, if◌then◌else◌}
use stats.Base.Float.{Float64}
use stats.Base.Text.{Bytes, same_refl}
use stats.Base.Assoc.{find-insert_self}
use stats.Otlp.{SeriesState, kind_sum, Instant, Point, SeriesMeta, Accumulation}
use stats.Otlp.Accumulate.{same_key, key_of, keep, state_of, times, sum_point}

pub if-true {ℓ} : {A : Type ℓ} {b : Bool} {x : A} (y : A) → b ≡ true → (if b then x else y) ≡ x
if-true y e = rw e refl

pub if-false {ℓ} : {A : Type ℓ} {b : Bool} (x : A) {y : A} → b ≡ false → (if b then x else y) ≡ y
if-false x e = rw e refl

module _ {F D : Type 0} (f : Float64 F) (same_attributes : D → D → Bool)
    (refl_attributes : (d : D) → same_attributes d d ≡ true) where
  same_key_refl : (key : Bytes × D) → same_key f same_attributes key key ≡ true
  same_key_refl (name, attributes) = rw (same_refl name, refl_attributes attributes) refl

  pub state_of-keep :
      (a : Accumulation F D) (key key' : Bytes × D) (s : SeriesState F D) (observed : Instant)
      → key ≡ key'
      → state_of f same_attributes (keep f same_attributes a key s) key' observed ≡ (s, true)
  unfolding state_of
  state_of-keep a key key' s observed e =
      rw (← e, find-insert_self (same_key f same_attributes) key s a.next (same_key_refl key)) refl

  -- The state of the series of a point, with the point in its sum.
  abbrev pub summed : Accumulation F D → SeriesMeta → Point D F → SeriesState F D
  summed a meta p =
      let s =
        (state_of f same_attributes a (key_of f same_attributes meta p.point_attributes)
          p.time).0 in
      record s {
        series_meta = meta;
        attributes = p.point_attributes;
        kind = kind_sum;
        sum = f.add s.sum p.content;
      }

  pub sum_point-cumulative :
      (a : Accumulation F D) (meta : SeriesMeta) (p : Point D F)
      → a.is_cumulative ≡ true
      → let key = key_of f same_attributes meta p.point_attributes in
        let (start, at, s) = times f same_attributes a key (summed a meta p) p.time in
        sum_point f same_attributes a meta p ≡ (
          record p { start_time = start; time = at; content = s.sum },
          keep f same_attributes a key s,
        )
  unfolding sum_point
  sum_point-cumulative a meta p c = if-true _ c

  pub sum_point-delta :
      (a : Accumulation F D) (meta : SeriesMeta) (p : Point D F)
      → a.is_cumulative ≡ false
      → let key = key_of f same_attributes meta p.point_attributes in
        let (start, at, s) = times f same_attributes a key (summed a meta p) p.time in
        sum_point f same_attributes a meta p ≡ (
          record p { start_time = start; time = at },
          keep f same_attributes a key (record s { sum = f.nought }),
        )
  unfolding sum_point
  sum_point-delta a meta p c = if-false _ c

  pub times-cumulative :
      (a : Accumulation F D) (key : Bytes × D) (s : SeriesState F D) (observed : Instant)
      → a.is_cumulative ≡ true
      → (times f same_attributes a key s observed).0 ≡ s.start
  unfolding times
  times-cumulative a key s observed c = rw c refl

  pub times-state :
      (a : Accumulation F D) (key : Bytes × D) (s : SeriesState F D) (observed : Instant)
      → let (start, at, s') = times f same_attributes a key s observed in
        (s'.sum ≡ s.sum) × (s'.start ≡ s.start) × (s'.last_time ≡ at)
  unfolding times
  times-state a key s observed = (refl, refl, refl)

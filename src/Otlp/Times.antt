-- ===== src/Otlp/Times.antt =====
-- The times of the points of a series.
use stats.Base.{
  ◌≡◌, refl, Bool, false, ◌&&◌, none, some, if◌then◌else◌, Bool-cases, inl, inr, arith,
}
use stats.Base.Int.{ltb_ℤ}
use stats.Otlp.{Instant, before, is_set, spaced, SeriesState, point_time}

abbrev later : Instant → Instant → Instant
later t u = if before t u then u else t

before_self : (t : Instant) → before t t ≡ false
before_self none = refl
before_self (some t) = ground arith

later-left : (t u : Instant) → before (later t u) t ≡ false
later-left t none = before_self t
later-left none (some u) = refl
later-left (some t) (some u) = elim (Bool-cases (ltb_ℤ t u)) [
  | inl b ↦ rw b (ground arith)
  | inr b ↦ rw b (ground arith)
]

later-right : (t u : Instant) → before (later t u) u ≡ false
later-right t none = refl
later-right none (some u) = before_self (some u)
later-right (some t) (some u) = elim (Bool-cases (ltb_ℤ t u)) [
  | inl b ↦ rw b (ground arith)
  | inr b ↦ rw (b, b) refl
]

not_before_trans : (t u v : Instant) → before t u ≡ false → before u v ≡ false → before t v ≡ false
not_before_trans t u none g h = refl
not_before_trans t none (some v) g h = absurd cc
not_before_trans none (some u) (some v) g h = absurd cc
not_before_trans (some t) (some u) (some v) g h = ground arith

-- The time of a point is not before its observation, nor before that of the last point, nor before
-- that of the last export, which it passes by a millisecond in a cumulative export; it is kept as the last one.
pub point_time_lem :
    {F D : Type 0} (s : SeriesState F D) (observed exported : Instant) (is_cumulative : Bool)
    → let (at, s') = point_time s observed exported is_cumulative in
      (before at observed ≡ false)
      × (before at s.last_time ≡ false)
      × (before at (if is_cumulative && is_set exported then spaced exported else exported) ≡ false)
      × (s'.last_time ≡ at)
unfolding point_time
point_time_lem s observed exported is_cumulative =
    let floor = if is_cumulative && is_set exported then spaced exported else exported in
    let raised = later observed floor in
    let over = later-left raised s.last_time in
    (
      not_before_trans _ raised observed over (later-left observed floor),
      later-right raised s.last_time,
      not_before_trans _ raised floor over (later-right observed floor),
      refl,
    )

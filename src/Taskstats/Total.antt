-- ===== src/Taskstats/Total.antt =====
-- Every buffer is parsed to the end, however malformed: each round of a loop shortens it.
use stats.Base.{
  ℕ, zero, suc, ◌+◌, ◌-◌, ◌*◌, ◌/◌, ◌≤◌, ◌<◌, ◌≡◌, refl, min, bit_and, Bool-cases, inl, inr, ◌||◌,
  Option, none, some, List, length, length-drop, length-take, take, drop, arith, ltb, ◌==◌,
}
use stats.Base.Bits.{bit_and_mask}
use stats.Taskstats.{
  Reply, short, errno, absent, found, uint_at, align4, find_attr, in_nest, in_stats,
  parse_taskstats_message, take_reply, find_reply, parse_taskstats_reply, decode_taskstats,
}

abbrev pub Ends : {T : Type 0} → Option (Reply T) → Type 0
Ends {T = T} o = (r : Reply T) × (o ≡ some r)

pub align4_lem : (n : ℕ) → align4 n ≡ (n + 3) / 4 * 4
align4_lem n = omega (arith, bit_and_mask 2 (n + 3))

-- A round over something of at least four bytes shortens the buffer.
shortens :
    (n fuel : ℕ) (buf : List ℕ)
    → 4 ≤ n
    → 0 < length buf
    → length buf < suc fuel
    → length (drop (min (align4 n) (length buf)) buf) < fuel
shortens n fuel buf big some_left enough =
    omega (arith, align4_lem n, length-drop (min (align4 n) (length buf)) buf)

-- The search ends, and what it finds is within the buffer.
abbrev pub Within : ℕ → Reply (List ℕ) → Type 0
Within n short = Unit
Within n (errno e) = Unit
Within n absent = Unit
Within n (found value) = length value ≤ n

abbrev pub EndsWithin : ℕ → Option (Reply (List ℕ)) → Type 0
EndsWithin n o = (r : Reply (List ℕ)) × (o ≡ some r) × Within n r

within_more : (m n : ℕ) (o : Option (Reply (List ℕ))) → m ≤ n → EndsWithin m o → EndsWithin n o
within_more m n o h (short, e, w) = (short, e, tt)
within_more m n o h (errno c, e, w) = (errno c, e, tt)
within_more m n o h (absent, e, w) = (absent, e, tt)
within_more m n o h (found v, e, w) = (found v, e, omega arith)

-- With more fuel than bytes, the search for an attribute ends, in any buffer, and the value that it
-- finds is not longer than the buffer.
pub find_attr-EndsWithin :
    (fuel : ℕ) (buf : List ℕ) (want : ℕ)
    → length buf < fuel
    → EndsWithin (length buf) (find_attr fuel buf want)
unfolding find_attr
find_attr-EndsWithin zero buf want h = absurd (omega arith)
find_attr-EndsWithin (suc fuel) buf want h =
    let n = uint_at 2 0 buf in
    let next = drop (min (align4 n) (length buf)) buf in
    elim (Bool-cases (length buf == 0)) [
      | inl over ↦ rw over (absent, refl, tt)
      | inr some_left ↦ rw some_left (elim (Bool-cases (ltb (length buf) 4)) [
        | inl cut ↦ rw cut (short, refl, tt)
        | inr whole ↦ rw whole (elim (Bool-cases (ltb n 4 || ltb (length buf) n)) [
          | inl bad ↦ rw bad (short, refl, tt)
          | inr good ↦ rw good (elim (Bool-cases (bit_and (uint_at 2 2 buf) 0x3fff == want)) [
            | inl same ↦ rw same (
              found (take (n - 4) (drop 4 buf)),
              refl,
              omega (arith, length-take (n - 4) (drop 4 buf), length-drop 4 buf),
            )
            | inr other ↦ rw other (
                within_more (length next) (length buf) (find_attr fuel next want)
                  (omega (arith, length-drop (min (align4 n) (length buf)) buf))
                  (find_attr-EndsWithin fuel next want
                    (shortens n fuel buf (ground arith) (ground arith) h)))
          ])
        ])
      ])
    ]

in_stats-Ends : (o : Option (Reply (List ℕ))) → Ends o → Ends (in_stats o)
in_stats-Ends none (r, e) = absurd (ground (arith, e))
in_stats-Ends (some short) r = (short, refl)
in_stats-Ends (some (errno c)) r = (errno c, refl)
in_stats-Ends (some absent) r = (absent, refl)
in_stats-Ends (some (found v)) r = (decode_taskstats v, refl)

in_nest-Ends : (fuel : ℕ) (r : Reply (List ℕ)) → Within fuel r → Ends (in_nest (suc fuel) (some r))
unfolding in_nest
in_nest-Ends fuel short w = (short, refl)
in_nest-Ends fuel (errno c) w = (errno c, refl)
in_nest-Ends fuel absent w = (absent, refl)
in_nest-Ends fuel (found v) w =
    let (r, e, inside) = find_attr-EndsWithin (suc fuel) v 3 (omega arith) in
    in_stats-Ends (find_attr (suc fuel) v 3) (r, e)

message-Ends :
    (fuel : ℕ) (payload : List ℕ)
    → length payload < suc fuel
    → Ends (parse_taskstats_message (suc fuel) payload)
unfolding parse_taskstats_message
message-Ends fuel payload h = elim (Bool-cases (ltb (length payload) 4)) [
  | inl cut ↦ rw cut (short, refl)
  | inr whole ↦
      let (r, e, w) =
        within_more (length (drop 4 payload)) fuel (find_attr (suc fuel) (drop 4 payload) 5)
          (omega (arith, length-drop 4 payload))
          (find_attr-EndsWithin (suc fuel) (drop 4 payload) 5
            (omega (arith, length-drop 4 payload))) in
      rw (whole, e) (in_nest-Ends fuel r w)
]

passes_on :
    {T : Type 0} (reply : Reply T) (rest : Option (Reply T))
    → Ends rest
    → Ends (elim (some reply) as (λ o. Option (Reply T)) [
      | none ↦ none
      | some absent ↦ rest
      | some other ↦ some other
    ])
passes_on short rest r = (short, refl)
passes_on (errno c) rest r = (errno c, refl)
passes_on absent rest r = r
passes_on (found v) rest r = (found v, refl)

take_reply-Ends :
    {T : Type 0} (parsed : Option (Reply T)) (msg_type : ℕ) (payload : List ℕ)
    (rest : Option (Reply T))
    → Ends parsed
    → Ends rest
    → Ends (take_reply parsed msg_type payload rest)
take_reply-Ends none msg_type payload rest p r = absurd (ground (arith, p.1))
take_reply-Ends (some reply) msg_type payload rest p r = elim (Bool-cases (msg_type == 2)) [
  | inl error ↦ rw error (elim (Bool-cases (ltb (length payload) 4)) [
    | inl cut ↦ rw cut (short, refl)
    | inr whole ↦ rw whole (elim (Bool-cases (uint_at 4 0 payload == 0)) [
      | inl acknowledged ↦ rw acknowledged r
      | inr code ↦ rw code (errno _, refl)
    ])
  ])
  | inr data_message ↦ rw data_message (passes_on reply rest r)
]

-- With more fuel than bytes, the scan for the reply ends, in any buffer, if the parser of a payload
-- ends on every payload that is shorter than the buffer.
find_reply-Ends :
    {T : Type 0} (parse : List ℕ → Option (Reply T)) (bound fuel : ℕ) (buf : List ℕ) (seq : ℕ)
    → ((payload : List ℕ) → length payload ≤ bound → Ends (parse payload))
    → length buf < fuel
    → length buf ≤ bound
    → Ends (find_reply parse fuel buf seq)
unfolding find_reply
find_reply-Ends parse bound zero buf seq parses h small = absurd (omega arith)
find_reply-Ends parse bound (suc fuel) buf seq parses h small =
    let n = uint_at 4 0 buf in
    let next = drop (min (align4 n) (length buf)) buf in
    let payload = take (n - 16) (drop 16 buf) in
    elim (Bool-cases (length buf == 0)) [
      | inl over ↦ rw over (absent, refl)
      | inr some_left ↦ rw some_left (elim (Bool-cases (ltb (length buf) 16)) [
        | inl cut ↦ rw cut (short, refl)
        | inr whole ↦ rw whole (elim (Bool-cases (ltb n 16 || ltb (length buf) n)) [
          | inl bad ↦ rw bad (short, refl)
          | inr good ↦
              let rest =
                find_reply-Ends parse bound fuel next seq parses
                  (shortens n fuel buf (ground arith) (ground arith) h)
                  (omega (arith, length-drop (min (align4 n) (length buf)) buf)) in
              let parsed =
                parses payload
                  (omega (arith, length-take (n - 16) (drop 16 buf), length-drop 16 buf)) in
              rw good (elim (Bool-cases (uint_at 4 8 buf == seq)) [
                | inl same ↦ rw same (
                    take_reply-Ends (parse payload) (uint_at 2 4 buf) payload
                      (find_reply parse fuel next seq) parsed rest)
                | inr other ↦ rw other rest
              ])
        ])
      ])
    ]

-- `ParseTaskstatsReply` ends on every buffer, malformed or not, within as many rounds of each loop
-- as the buffer has bytes, and one.
pub reply-Ends : (buf : List ℕ) (seq : ℕ) → Ends (parse_taskstats_reply (suc (length buf)) buf seq)
unfolding parse_taskstats_reply
reply-Ends buf seq =
    find_reply-Ends (parse_taskstats_message (suc (length buf))) (length buf) (suc (length buf)) buf
      seq (λ payload h. message-Ends (length buf) payload (omega arith)) (omega arith) (omega arith)

-- ===== src/Taskstats.antt =====
-- runtimemetrics/taskstats_parse.go: the replies of the kernel about delays of the process.
-- Bytes are numbers below 256, and the native byte order is little-endian. A slice of a buffer is
-- cut where the source has tested that it is in range.
pub mod Attributes
pub mod Total
mod Tests
use stats.Base.{
  ℕ, zero, suc, ◌+◌, ◌-◌, ◌*◌, ◌%◌, ◌/◌, ◌^◌, min, bit_and, Bool, true, false, ◌||◌, not, Option,
  none, some, List, [], ◌∷◌, length, take, drop, ltb, leb, ◌==◌, if◌then◌else◌,
}

-- `binary.NativeEndian` of the first bytes.
abbrev pub little_endian : List ℕ → ℕ
little_endian [] = 0
little_endian (b ∷ bs) = b + 256 * little_endian bs

abbrev pub uint_at : ℕ → ℕ → List ℕ → ℕ
uint_at width offset buf = little_endian (take width (drop offset buf))

-- `(n + 3) &^ 3`
abbrev pub align4 : ℕ → ℕ
align4 n = n + 3 - bit_and (n + 3) 3

-- An error, nothing, or a value.
pub data Reply (T : Type 0) : Type 0 where
  short : Reply T
  errno : ℕ → Reply T
  absent : Reply T
  found : T → Reply T

-- The loops run on fuel; `none` means that it ran out.
pub find_attr : ℕ → List ℕ → ℕ → Option (Reply (List ℕ))
find_attr zero buf want = none
find_attr (suc fuel) buf want =
    let attr_len = uint_at 2 0 buf in
    let attr_type = bit_and (uint_at 2 2 buf) 0x3fff in
    let rest = find_attr fuel (drop (min (align4 attr_len) (length buf)) buf) want in
    if length buf == 0
    then some absent
    else if ltb (length buf) 4
    then some short
    else if ltb attr_len 4 || ltb (length buf) attr_len
    then some short
    else if attr_type == want
    then some (found (take (attr_len - 4) (drop 4 buf)))
    else rest

pub record DelayInfo : Type 0 where
  pub cpu : ℕ
  pub block_io : ℕ
  pub swap_in : ℕ
  pub free_pages : ℕ

abbrev pub ns_to_duration : ℕ → ℕ
ns_to_duration ns = if ltb (2 ^ 63 - 1) ns then 2 ^ 63 - 1 else ns

pub decode_taskstats : List ℕ → Reply DelayInfo
decode_taskstats p =
    let info : DelayInfo = record {
      cpu = ns_to_duration (uint_at 8 24 p);
      block_io = ns_to_duration (uint_at 8 40 p);
      swap_in = ns_to_duration (uint_at 8 56 p);
      free_pages = 0;
    } in
    if ltb (length p) 64
    then short
    else if leb 7 (uint_at 2 0 p)
    then if ltb (length p) 328
      then short
      else found (record info { free_pages = ns_to_duration (uint_at 8 320 p) })
    else found info

abbrev in_stats : Option (Reply (List ℕ)) → Option (Reply DelayInfo)
in_stats none = none
in_stats (some short) = some short
in_stats (some (errno e)) = some (errno e)
in_stats (some absent) = some absent
in_stats (some (found stats)) = some (decode_taskstats stats)

in_nest : ℕ → Option (Reply (List ℕ)) → Option (Reply DelayInfo)
in_nest fuel none = none
in_nest fuel (some short) = some short
in_nest fuel (some (errno e)) = some (errno e)
in_nest fuel (some absent) = some absent
in_nest fuel (some (found aggr)) = in_stats (find_attr fuel aggr 3)

pub parse_taskstats_message : ℕ → List ℕ → Option (Reply DelayInfo)
unfolding find_attr in_nest
parse_taskstats_message fuel payload =
    if ltb (length payload) 4 then some short else in_nest fuel (find_attr fuel (drop 4 payload) 5)

-- The part of the loop of `findReply` behind the test of the sequence number.
abbrev take_reply :
    {T : Type 0} → Option (Reply T) → ℕ → List ℕ → Option (Reply T) → Option (Reply T)
take_reply parsed msg_type payload rest =
    if msg_type == 2
    then if ltb (length payload) 4
      then some short
      else if uint_at 4 0 payload == 0
      then rest
      else some (
          errno (
            if leb (2 ^ 31) (uint_at 4 0 payload)
            then 2 ^ 32 - uint_at 4 0 payload
            else uint_at 4 0 payload))
    else elim parsed [ none ↦ none | some absent ↦ rest | some other ↦ some other ]

pub find_reply : {T : Type 0} → (List ℕ → Option (Reply T)) → ℕ → List ℕ → ℕ → Option (Reply T)
find_reply parse zero buf seq = none
find_reply parse (suc fuel) buf seq =
    let msg_len = uint_at 4 0 buf in
    let payload = take (msg_len - 16) (drop 16 buf) in
    let rest = find_reply parse fuel (drop (min (align4 msg_len) (length buf)) buf) seq in
    if length buf == 0
    then some absent
    else if ltb (length buf) 16
    then some short
    else if ltb msg_len 16 || ltb (length buf) msg_len
    then some short
    else if not (uint_at 4 8 buf == seq)
    then rest
    else take_reply (parse payload) (uint_at 2 4 buf) payload rest

pub parse_taskstats_reply : ℕ → List ℕ → ℕ → Option (Reply DelayInfo)
unfolding find_reply
parse_taskstats_reply fuel buf seq = find_reply (parse_taskstats_message fuel) fuel buf seq

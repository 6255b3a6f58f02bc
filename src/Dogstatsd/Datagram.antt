-- ===== src/Dogstatsd/Datagram.antt =====
-- statstest/dogstatsd_parse.go: `dispatchDatagram`, with the messages that the handler gets as a list.
-- The rounds of the loop are the lines that `bytes.Cut` takes off the datagram one after another; an
-- empty rest behind the last line feed is passed over as an empty line is.
use stats.Base.{Option, none, some, List, [], ◌∷◌, ◌++◌, ◌==◌, if◌then◌else◌}
use stats.Base.Float.{Float64, FloatText}
use stats.Base.Text.{Bytes, split, has_prefix, is_empty}
use stats.Dogstatsd.{WireMetric, WireEvent, parse_metric}
use stats.Dogstatsd.Event.{Outcome, ok, rejected, panics, ◌>>=◌, parse_event}

pub data Message (F : Type 0) : Type 0 where
  metric : WireMetric F → Message F
  event : WireEvent → Message F

-- `bytes.TrimSuffix` of a carriage return.
unfoldable pub trim_return : Bytes → Bytes
trim_return [] = []
trim_return (c ∷ []) = if c == b'\r' then [] else c ∷ []
trim_return (c ∷ d ∷ s) = c ∷ trim_return (d ∷ s)

abbrev pub handle_event : {F : Type 0} → Outcome WireEvent → Outcome (List (Message F))
handle_event (ok e) = ok (event e ∷ [])
handle_event rejected = ok []
handle_event panics = panics

abbrev pub handle_metric : {F : Type 0} → Option (WireMetric F) → Outcome (List (Message F))
handle_metric (some m) = ok (metric m ∷ [])
handle_metric none = ok []

module _ {F : Type 0} (f : Float64 F) (t : FloatText F) where
  unfoldable pub dispatch_line : Bytes → Outcome (List (Message F))
  dispatch_line line =
      if is_empty line
      then ok []
      else if has_prefix (b'_' ∷ b'e' ∷ b'{' ∷ []) line
      then handle_event (parse_event line)
      else handle_metric (parse_metric f t line)

  unfoldable pub dispatch_lines : List Bytes → Outcome (List (Message F))
  dispatch_lines [] = ok []
  dispatch_lines (line ∷ lines) = do
    first ← dispatch_line (trim_return line)
    rest ← dispatch_lines lines
    ok (first ++ rest)

  unfoldable pub dispatch_datagram : Bytes → Outcome (List (Message F))
  unfolding dispatch_lines
  dispatch_datagram datagram = dispatch_lines (split b'\n' datagram)

-- ===== src/Dogstatsd/Batches.antt =====
-- From the serializer through the writer buffer to the handler of the test server.
use stats.Base.{◌≡◌, false, List, [], ◌∷◌, ◌++◌, All}
use stats.Base.Float.{Float64, FloatText}
use stats.Base.Text.{Bytes, Lacks, has_prefix}
use stats.Metric.{Metric}
use stats.Dogstatsd.Serializer.{Serializer}
use stats.Dogstatsd.Packets.{wire_tags, IsSendable}

-- No line feed and no carriage return.
abbrev pub IsOneLine : Bytes → Type 0
IsOneLine s = Lacks b'\n' s × Lacks b'\r' s

-- Every packet with a line feed behind it.
abbrev lines : List Bytes → Bytes
lines [] = []
lines (p ∷ ps) = p ++ (b'\n' ∷ lines ps)

module _ {F V : Type 0} (f : Float64 F) (t : FloatText F) (emit : V → Bytes) where
  -- A metric that is one line, and not the line of an event.
  pub record IsLine (s : Serializer) (m : Metric F V) : Type 0 where
    pub sendable : IsSendable emit f t s m
    pub no_event : has_prefix (b'_' ∷ b'e' ∷ b'{' ∷ []) m.name ≡ false
    pub name_line : IsOneLine m.name
    pub tag_lines : All IsOneLine (wire_tags emit s m.attributes)

-- ===== src/WriterBuffer.antt =====
-- exporters/buffer.go: the buffer that serializes metrics and writes whole lines to an `io.Writer`.
-- The serializer and the writer are parameters: a serializer may fail, a writer tells whether it
-- failed. No other goroutine holds a buffer of the pool. `written` is what the writer was given.
pub mod Lines
mod Tests
use stats.Base.{
  ℕ, zero, suc, ◌+◌, ◌%◌, Bool, true, false, ◌||◌, Option, none, some, List, [], ◌∷◌, ◌++◌, length,
  get_or, set, replicate, ltb, leb, ◌==◌, if◌then◌else◌,
}
use stats.Base.Word.{add64}

pub data HandleError : Type 0 where
  serialize_failed write_failed : HandleError

pub record WriterBuffer : Type 0 where
  pub buffer_size : ℕ
  pub offset : ℕ
  pub buffers : List (List ℕ)
  pub written : List (List ℕ)

abbrev pub default_buffer_size : ℕ
default_buffer_size = 1024

-- A size that is not positive is 0 here.
abbrev pub size : WriterBuffer → ℕ
size b = if ltb 0 b.buffer_size then b.buffer_size else default_buffer_size

-- `prepare`: the pool has `n` empty buffers.
pub prepared : ℕ → ℕ → WriterBuffer
prepared buffer_size n = record {
  buffer_size = buffer_size;
  offset = 0;
  buffers = replicate n [];
  written = [];
}

abbrev pub ends_line : List ℕ → Bool
ends_line [] = false
ends_line (c ∷ []) = c == 10
ends_line (c ∷ d ∷ cs) = ends_line (d ∷ cs)

-- The loop of `Handle` over the packets.
unfoldable pub append_lines : List ℕ → List (List ℕ) → List ℕ
append_lines text [] = text
append_lines text (p ∷ packets) =
    append_lines (if ends_line p then text ++ p else text ++ p ++ 10 ∷ []) packets

module _ (write_fails : List ℕ → Bool) where
  -- Whether the write failed, for the buffer with the given index.
  drain : WriterBuffer → ℕ → List ℕ → Bool × WriterBuffer
  drain b i [] = (false, record b { buffers = set b.buffers i [] })
  drain b i (c ∷ text) = (
    write_fails (c ∷ text),
    record b { buffers = set b.buffers i []; written = b.written ++ (c ∷ text) ∷ [] },
  )

  abbrev write_error : Bool → Option HandleError
  write_error failed = if failed then some write_failed else none

  fill : WriterBuffer → List (List ℕ) → Option HandleError × WriterBuffer
  unfolding append_lines drain
  fill b packets =
      let offset = add64 b.offset 1 in
      let i = offset % length b.buffers in
      let text = append_lines (get_or b.buffers i []) packets in
      let b' = record b { offset = offset } in
      let (failed, b'') = drain b' i text in
      if leb (size b) (length text)
      then (write_error failed, b'')
      else (none, record b' { buffers = set b.buffers i text })

  flush_loop : WriterBuffer → ℕ → List (List ℕ) → Bool × WriterBuffer
  flush_loop b i [] = (false, b)
  flush_loop b i (text ∷ buffers) =
      let (failed, b') = drain b i text in
      let (others, b'') = flush_loop b' (i + 1) buffers in (failed || others, b'')

  pub flush : WriterBuffer → Option HandleError × WriterBuffer
  unfolding flush_loop
  flush b = let (failed, b') = flush_loop b 0 b.buffers in (write_error failed, b')

  module _ {M : Type 0} (serialize : List M → Option (List (List ℕ))) where
    abbrev filled : WriterBuffer → Option (List (List ℕ)) → Option HandleError × WriterBuffer
    filled b none = (some serialize_failed, b)
    filled b (some packets) = fill b packets

    pub handle : WriterBuffer → List M → Option HandleError × WriterBuffer
    unfolding fill
    handle b [] = (none, b)
    handle b (m ∷ metrics) = filled b (serialize (m ∷ metrics))

    abbrev then_flush : Option HandleError × WriterBuffer → Option HandleError × WriterBuffer
    then_flush (some err, b) = (some err, b)
    then_flush (none, b) = flush b

    pub export : WriterBuffer → List M → Option HandleError × WriterBuffer
    export b metrics = then_flush (handle b metrics)

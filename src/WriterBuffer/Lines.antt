-- ===== src/WriterBuffer/Lines.antt =====
-- What is written: whole lines, and by a flush everything.
use stats.Base.{
  ℕ, ◌+◌, ◌≡◌, refl, sym, ap, ◌∙◌, ◌⊎◌, inl, inr, Bool, true, Bool-cases, List, [], ◌∷◌, ◌++◌,
  append-nil, append_assoc, arith, length, length-append, set, replicate,
}
use stats.WriterBuffer.{WriterBuffer, ends_line, append_lines, drain, flush_loop, flush}

-- The texts that are not empty, in order.
abbrev pub filled_only : List (List ℕ) → List (List ℕ)
filled_only [] = []
filled_only ([] ∷ texts) = filled_only texts
filled_only ((c ∷ text) ∷ texts) = (c ∷ text) ∷ filled_only texts

set_middle :
    (front : List (List ℕ)) (text v : List ℕ) (rest : List (List ℕ))
    → set (front ++ text ∷ rest) (length front) v ≡ front ++ v ∷ rest
set_middle [] text v rest = refl
set_middle (x ∷ front) text v rest = ap (λ t. x ∷ t) (set_middle front text v rest)

-- A text is whole lines: it is empty or ends in a line feed.
abbrev pub IsLines : List ℕ → Type 0
IsLines text = (text ≡ []) ⊎ (ends_line text ≡ true)

ends_line-append : (text p : List ℕ) → ends_line p ≡ true → ends_line (text ++ p) ≡ true
ends_line-append [] p h = h
ends_line-append (c ∷ []) [] h = absurd (ground (arith, h))
ends_line-append (c ∷ []) (d ∷ p) h = h
ends_line-append (c ∷ d ∷ text) p h = ends_line-append (d ∷ text) p h

-- Whatever the packets are, whole lines stay whole lines when `Handle` appends them.
pub append_lines-IsLines :
    (packets : List (List ℕ)) (text : List ℕ) → IsLines text → IsLines (append_lines text packets)
unfolding append_lines
append_lines-IsLines [] text h = h
append_lines-IsLines (p ∷ packets) text h = elim (Bool-cases (ends_line p)) [
  | inl whole ↦
      rw whole (append_lines-IsLines packets (text ++ p) (inr (ends_line-append text p whole)))
  | inr cut ↦ rw cut (
      append_lines-IsLines packets (text ++ p ++ 10 ∷ [])
        (inr (ends_line-append (text ++ p) (10 ∷ []) refl)))
]

module _ (write_fails : List ℕ → Bool) where
  drain-written :
      (b : WriterBuffer) (i : ℕ) (text : List ℕ)
      → let b' = (drain write_fails b i text).1 in
        (b'.buffers ≡ set b.buffers i []) × (b'.written ≡ b.written ++ filled_only (text ∷ []))
  unfolding drain
  drain-written b i [] = (refl, sym (append-nil b.written))
  drain-written b i (c ∷ text) = (refl, refl)

  filled_only-cons :
      (text : List ℕ) (rest : List (List ℕ))
      → filled_only (text ∷ []) ++ filled_only rest ≡ filled_only (text ∷ rest)
  filled_only-cons [] rest = refl
  filled_only-cons (c ∷ text) rest = refl

  flush_loop_lem :
      (front rest : List (List ℕ)) (b : WriterBuffer) (i : ℕ)
      → i ≡ length front
      → b.buffers ≡ front ++ rest
      → let b' = (flush_loop write_fails b i rest).1 in
        (b'.buffers ≡ front ++ replicate (length rest) [])
        × (b'.written ≡ b.written ++ filled_only rest)
  unfolding flush_loop
  flush_loop_lem front [] b i e s = (s, sym (append-nil b.written))
  flush_loop_lem front (text ∷ rest) b i e s =
      let (kept, out) = drain-written b i text in
      let b1 = (drain write_fails b i text).1 in
      let emptied : b1.buffers ≡ front ++ [] ∷ [] ++ rest =
        kept
        ∙ ap (λ t. set t i []) s
        ∙ ap (λ (n : ℕ). set (front ++ text ∷ rest) n []) e
        ∙ set_middle front text [] rest
        ∙ sym (append_assoc front ([] ∷ []) rest) in
      let (buffers, written) =
        flush_loop_lem (front ++ [] ∷ []) rest b1 (i + 1)
          (omega (arith, length-append front ([] ∷ []))) emptied in
      (
        buffers ∙ append_assoc front ([] ∷ []) (replicate (length rest) []),
        written
            ∙ ap (λ t. t ++ filled_only rest) out
            ∙ append_assoc b.written (filled_only (text ∷ [])) (filled_only rest)
            ∙ ap (λ t. b.written ++ t) (filled_only-cons text rest),
      )

  -- `Flush` gives the writer the text of every buffer that has one, in the order of the pool, and
  -- leaves every buffer empty, whether or not a write fails.
  pub flush_lem :
      (b : WriterBuffer)
      → let b' = (flush write_fails b).1 in
        (b'.buffers ≡ replicate (length b.buffers) [])
        × (b'.written ≡ b.written ++ filled_only b.buffers)
  unfolding flush
  flush_lem b = flush_loop_lem [] b.buffers b 0 refl refl

-- ===== src/WriterBuffer/Tests.antt =====
-- A pool of two buffers.
use stats.Base.{ℕ, ◌≡◌, refl, true, false, none, some, List, [], ◌∷◌}
use stats.WriterBuffer.{WriterBuffer, append_lines, flush, export}
use stats.WriterBuffer.Lines.{flush_lem}

abbrev half_full : WriterBuffer
half_full = record { buffer_size = 0; offset = 0; buffers = [] ∷ (97 ∷ 10 ∷ []) ∷ []; written = [] }

flush_lem_example :
    let b' = (flush (λ text. true) half_full).1 in
    (b'.buffers ≡ [] ∷ [] ∷ []) × (b'.written ≡ (97 ∷ 10 ∷ []) ∷ [])
flush_lem_example = flush_lem (λ text. true) half_full

-- One metric, "b", goes behind what its buffer holds.
export_test :
    export (λ text. false) (λ (metrics : List ℕ). some ((98 ∷ []) ∷ [])) half_full (0 ∷ []) ≡ (
      none,
      record {
        buffer_size = 0;
        offset = 1;
        buffers = [] ∷ [] ∷ [];
        written = (97 ∷ 10 ∷ 98 ∷ 10 ∷ []) ∷ [];
      },
    )
unfolding export stats.WriterBuffer.handle flush stats.WriterBuffer.flush_loop
    stats.WriterBuffer.fill stats.WriterBuffer.drain append_lines
export_test = refl

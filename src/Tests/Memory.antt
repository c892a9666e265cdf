-- ===== src/Tests/Memory.antt =====
-- The page allocator and a pipe at concrete states.
use osn_assignments.Base.{ℕ, ◌≡◌, refl, true, false, List, [], ◌∷◌, ◌++◌, length, min, arith}
use osn_assignments.Kalloc.{Kmem}
use osn_assignments.Kalloc.Pages.{IsFreeList}
use osn_assignments.Pipe.{Pipe, done, pipewrite, piperead}
use osn_assignments.Pipe.Fifo.{
  IsPipe, WriteSpec, contents, count, pipewrite-WriteSpec, piperead_lem,
}

-- Two free pages.
abbrev memory : Kmem
memory = record { use_lock = true; freelist = 8192 ∷ (12288 ∷ []); memory = λ a. 0 }

memory-IsFreeList : IsFreeList 4096 40960 memory
memory-IsFreeList = record { good = (refl, (refl, tt)); distinct = (refl, (refl, tt)) }

-- A pipe with two bytes, its write counter wrapped round.
abbrev two_bytes : Pipe
two_bytes = record {
  bytes = λ i. i;
  nread = 4294967295;
  nwrite = 1;
  readopen = true;
  writeopen = true;
}

two_bytes-IsPipe : IsPipe two_bytes
two_bytes-IsPipe = record { read_word = omega arith; write_word = omega arith; fits = omega arith }

contents_run : contents two_bytes ≡ 511 ∷ (0 ∷ [])
contents_run = refl

pipewrite-WriteSpec_example :
    WriteSpec false (7 ∷ (8 ∷ [])) two_bytes (pipewrite false (7 ∷ (8 ∷ [])) two_bytes)
pipewrite-WriteSpec_example = pipewrite-WriteSpec false (7 ∷ (8 ∷ [])) two_bytes two_bytes-IsPipe

piperead_lem_example :
    (q : Pipe) × (bs : List ℕ) × (piperead false 5 two_bytes ≡ done q bs)
    × IsPipe q
    × (bs ++ contents q ≡ contents two_bytes)
    × (length bs ≡ min 5 (count two_bytes))
piperead_lem_example = piperead_lem false 5 two_bytes two_bytes-IsPipe (omega arith)

-- ===== src/Pipe.antt =====
-- Pipes of xv6 modified/pipe.c. `nread` and `nwrite` are `uint`s, counted modulo 2^32. Each function
-- runs under the pipe's lock from one wait to the next: a call that must wait returns `waits` with
-- what is left to do, and is called again with that when it is woken.
pub mod Fifo
use osn_assignments.Base.{
  ℕ, zero, suc, ◌+◌, ◌%◌, ◌^◌, ◌==◌, if◌then◌else◌, Bool, true, false, not, ◌||◌, ◌&&◌, List, [],
  ◌∷◌, update,
}

-- `PIPESIZE`
abbrev pub pipe_size : ℕ
pipe_size = 512

-- `struct pipe`
pub record Pipe : Type 0 where
  pub bytes : ℕ → ℕ
  pub nread : ℕ
  pub nwrite : ℕ
  pub readopen : Bool
  pub writeopen : Bool

-- The pipe that `pipealloc` makes in a fresh page.
abbrev pub fresh_pipe : (ℕ → ℕ) → Pipe
fresh_pipe page = record { bytes = page; nread = 0; nwrite = 0; readopen = true; writeopen = true }

-- `pipeclose`: the pipe, and whether its page is freed.
unfoldable pub pipeclose : Pipe → Bool → Pipe × Bool
pipeclose p writable =
    let q = if writable then record p { writeopen = false } else record p { readopen = false } in
    (q, not (q.readopen || q.writeopen))

-- How a call goes on.
pub data Progress (A : Type 0) : Type 0 where
  done : Pipe → A → Progress A
  waits : Pipe → A → Progress A
  fails : Pipe → A → Progress A

abbrev pub is_full : Pipe → Bool
is_full p = p.nwrite == (p.nread + pipe_size) % 2 ^ 32

-- `p->data[p->nwrite++ % PIPESIZE] = b`
abbrev pub put_byte : ℕ → Pipe → Pipe
put_byte b p = record p {
  bytes = update p.bytes (p.nwrite % pipe_size) b;
  nwrite = (p.nwrite + 1) % 2 ^ 32;
}

-- `pipewrite` of the bytes that are left; the answer is those still left.
unfoldable pub pipewrite : Bool → List ℕ → Pipe → Progress (List ℕ)
pipewrite killed [] p = done p []
pipewrite killed (b ∷ bs) p =
    let rest = pipewrite killed bs (put_byte b p) in
    if is_full p
    then (if not p.readopen || killed then fails p (b ∷ bs) else waits p (b ∷ bs))
    else rest

-- The copying loop of `piperead`, for `n` bytes at most.
unfoldable pub copy_out : ℕ → Pipe → List ℕ × Pipe
copy_out zero p = ([], p)
copy_out (suc n) p =
    let (bs, q) = copy_out n (record p { nread = (p.nread + 1) % 2 ^ 32 }) in
    if p.nread == p.nwrite then ([], p) else (p.bytes (p.nread % pipe_size) ∷ bs, q)

-- `piperead`; the answer is the bytes read.
unfoldable pub piperead : Bool → ℕ → Pipe → Progress (List ℕ)
unfolding copy_out
piperead killed n p =
    if (p.nread == p.nwrite) && p.writeopen
    then (if killed then fails p [] else waits p [])
    else (let (bs, q) = copy_out n p in done q bs)

-- ===== src/Fs/Icache.antt =====
-- The inode cache of xv6 modified/fs.c: iget and idup. A `struct inode *` is its place in `icache.inode`, and each function is one step under
-- icache.lock. The sleeping locks of the entries are those of Sleeplock.
pub mod Entries
use osn_assignments.Base.{
  ℕ, zero, suc, ◌+◌, ◌-◌, ◌<◌, ◌≤◌, ◌≡◌, ◌≢◌, refl, sym, ◌∙◌, ap, ◌⊎◌, inl, inr, ◌==◌, ltb,
  if◌then◌else◌, Bool, Bool-cases, true, false, Option, Option-cases, find_index, find_index-some,
  find_index-none, get_or-modify_self, get_or-modify_ne, none, some, List, [], ◌∷◌, ◌++◌, All,
  length, modify, get_or, arith,
}

-- The part of `struct dinode` that the cache copies.
pub record Dinode : Type 0 where
  pub kind : ℕ
  pub major : ℕ
  pub minor : ℕ
  pub nlink : ℕ
  pub size : ℕ
  pub addrs : List ℕ

-- `struct inode`
pub record Inode : Type 0 where
  pub dev : ℕ
  pub inum : ℕ
  pub ref : ℕ
  pub valid : Bool
  pub node : Dinode

abbrev pub is_cached : ℕ → ℕ → Inode → Bool
is_cached dev inum ip =
    if ltb 0 ip.ref then (if ip.dev == dev then ip.inum == inum else false) else false

-- `if(empty == 0 && ip->ref == 0) empty = ip;` at place `i`.
abbrev pub remember : Option ℕ → ℕ → Inode → Option ℕ
remember (some e) i ip = some e
remember none i ip = if ip.ref == 0 then some i else none

-- The loop of `iget` from place `i` on: the place of the inode, if it is cached, and `empty`.
unfoldable pub iget_loop : ℕ → ℕ → List Inode → ℕ → Option ℕ → Option ℕ × Option ℕ
iget_loop dev inum [] i empty = (none, empty)
iget_loop dev inum (ip ∷ t) i empty =
    let rest = iget_loop dev inum t (i + 1) (remember empty i ip) in
    if is_cached dev inum ip then (some i, empty) else rest

-- `ip->ref++`, and the recycling of an entry.
abbrev pub hold : Inode → Inode
hold ip = record ip { ref = ip.ref + 1 }

abbrev pub take_over : ℕ → ℕ → Inode → Inode
take_over dev inum ip = record ip { dev = dev; inum = inum; ref = 1; valid = false }

unfoldable pub iget_end : ℕ → ℕ → List Inode → Option ℕ → Option ℕ → Option (ℕ × List Inode)
iget_end dev inum t (some i) empty = some (i, modify t i hold)
iget_end dev inum t none (some e) = some (e, modify t e (take_over dev inum))
iget_end dev inum t none none = none

-- `iget`: the place and the cache; `none` is the panic.
unfoldable pub iget : ℕ → ℕ → List Inode → Option (ℕ × List Inode)
unfolding iget_loop iget_end
iget dev inum t = let r = iget_loop dev inum t 0 none in iget_end dev inum t r.0 r.1

-- `idup`
unfoldable pub idup : ℕ → List Inode → List Inode
idup i t = modify t i hold

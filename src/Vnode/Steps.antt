-- ===== src/Vnode/Steps.antt =====
-- What may happen to the vnodes. A link is given, and a vnode opened, only where a name leads to it;
-- the library of the platform counts the opens, and calls CloseNode after each close. `fails` says
-- whether BeginTransaction may fail in CloseNode.
use fuchsia_minfs.Prelude.{ℕ, ◌+◌, ◌-◌, ◌<◌, ◌≡◌, ◌≢◌, Bool, true, false, some, ok}
use fuchsia_minfs.Vnode.State.{
  Vnodes, Calls, Outcome, put, put_vnode, recycle_node, add_link, remove_inode_link, close_node,
  vnode_new,
}

abbrev pub opened : Vnodes → ℕ → Vnodes
opened s ino =
    put_vnode s ino (record (s.vnodes ino) { open_count = (s.vnodes ino).open_count + 1 })

abbrev pub closed : Vnodes → ℕ → Vnodes
closed s ino =
    put_vnode s ino (record (s.vnodes ino) { open_count = (s.vnodes ino).open_count - 1 })

-- VnodeGet of a vnode with a link, that it finds or makes again.
abbrev pub got : Vnodes → ℕ → Vnodes
got s ino = record s { in_hash = put s.in_hash ino true }

pub data Step (fails : Bool) (s : Vnodes) : Vnodes → Type 0 where
  create :
      (is_directory : Bool) (ino : ℕ)
      → ino ≢ 0
      → s.ino_allocated ino ≡ false
      → Step fails s (vnode_new is_directory s ino)
  get : (ino : ℕ) → 0 < (s.vnodes ino).link_count → Step fails s (got s ino)
  recycle : (ino : ℕ) → (s.vnodes ino).open_count ≡ 0 → Step fails s (recycle_node s ino)
  open_vnode : (ino : ℕ) → 0 < (s.vnodes ino).link_count → Step fails s (opened s ino)
  link :
      {t : Vnodes} (ino : ℕ)
      → 0 < (s.vnodes ino).link_count
      → add_link s ino ≡ some t
      → Step fails s t
  unlink :
      {t : Vnodes} (calls : Calls) (ino : ℕ) (o : Outcome)
      → s.in_hash ino ≡ true
      → remove_inode_link calls s ino ≡ some o
      → o.0 ≡ t
      → Step fails s t
  close :
      {t : Vnodes} (calls : Calls) (ino : ℕ) (o : Outcome)
      → (fails ≡ false → calls.begin_transaction ≡ ok tt)
      → 0 < (s.vnodes ino).open_count
      → close_node calls (closed s ino) ino ≡ some o
      → o.0 ≡ t
      → Step fails s t

pub data Reach (fails : Bool) (s : Vnodes) : Vnodes → Type 0 where
  here : Reach fails s s
  next : {t u : Vnodes} → Reach fails s t → Step fails t u → Reach fails s u

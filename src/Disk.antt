-- ===== src/Disk.antt =====
-- Files as the program reads and writes them, and the snapshots that it takes of them:
-- `FileSnapshot` of privibe/core/rewind/manager.py.
use privibe.Prelude.{
  ℕ, String, ◌≡◌, Bool, true, false, Option, none, some, List, ◌==◌, if◌then◌else◌, arith,
}
use text.Mathlib.TextPositions.{eq_refl}

-- The bytes of a file.
abbrev pub Bytes : Type 0
Bytes = List ℕ

-- What each path holds; `none` where there is no file.
abbrev pub Disk : Type 0
Disk = String → Option Bytes

pub record FileSnapshot : Type 0 where
  pub path : String
  pub content : Option Bytes

-- `path.write_bytes(content)`, and `path.unlink()` for no content.
abbrev pub store : String → Option Bytes → Disk → Disk
store path content disk p = if path == p then content else disk p

-- `path.exists()`
abbrev pub exists : Disk → String → Bool
exists disk path = elim (disk path) [ none ↦ false | some _ ↦ true ]

-- Every file can be read.
abbrev pub readable : String → Bool
readable path = false

-- The snapshot of the file as it is now, with no content if it is missing or if the operating system
-- refuses to read it, as `unreadable` says (`except Exception: content = None`).
abbrev pub snapshot_of : (String → Bool) → Disk → String → FileSnapshot
snapshot_of unreadable disk path = record {
  path = path;
  content = if unreadable path then none else disk path;
}

pub store_self :
    (path : String) (content : Option Bytes) (disk : Disk) → store path content disk path ≡ content
store_self path content disk = ground (arith, eq_refl path)

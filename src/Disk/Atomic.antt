-- ===== src/Disk/Atomic.antt =====
-- Writing a file through a temporary one and os.Rename: `atomicWrite` of
-- internal/agentbridge/store.go, and `saveFile` in `Save` of internal/store/store.go.
use Prim.Native.String.{◌++◌, count}
use text.Mathlib.TextLemmas.{length-append}
use forge_grid.Prelude.{
  String, ◌≡◌, ◌≢◌, ap, ◌⊎◌, inl, inr, Bool, true, false, some, arith, if◌then◌else◌, Bool-cases,
  ◌∙◌,
}
use forge_grid.Disk.{FileSystem}

abbrev pub tmp_of : String → String
tmp_of path = path ++ ".tmp"

pub tmp_of_ne : (path : String) → tmp_of path ≢ path
tmp_of_ne path e = omega (arith, ap count e, length-append path ".tmp")

module _ {D : Type 0} (os : FileSystem D) where
  unfoldable pub atomic_write : String → String → D → D × Bool
  atomic_write path text d =
      let (d', written) = os.write_file (tmp_of path) text d in
      if written then os.rename (tmp_of path) path d' else (d', false)

module _ {D : Type 0} (os : FileSystem D) where
  -- Whatever fails, the file has its old content or all of the new one.
  pub atomic_write_old_or_new :
      (path text : String) (d : D)
      → (os.read_file path (atomic_write os path text d).0 ≡ os.read_file path d)
        ⊎ (os.read_file path (atomic_write os path text d).0 ≡ some text)
  unfolding atomic_write
  atomic_write_old_or_new path text d =
      let (d', written) = os.write_file (tmp_of path) text d in
      let kept = os.write_file_other (tmp_of path) path text d (tmp_of_ne path) in
      elim (Bool-cases (os.write_file (tmp_of path) text d).1) [
        | inr broken ↦ inl (rw broken kept)
        | inl done ↦ rw done (elim (Bool-cases (os.rename (tmp_of path) path d').1) [
          | inl moved ↦ inr (
              os.rename_done (tmp_of path) path d' moved
              ∙ os.write_file_done (tmp_of path) text d done)
          | inr stuck ↦ inl (rw (os.rename_failed (tmp_of path) path d' stuck) kept)
        ])
      ]

  -- A call that reports no error has written the file.
  pub atomic_write_done :
      (path text : String) (d : D)
      → (atomic_write os path text d).1 ≡ true
      → os.read_file path (atomic_write os path text d).0 ≡ some text
  unfolding atomic_write
  atomic_write_done path text d h = ground (
    arith,
    os.write_file_done (tmp_of path) text d,
    os.rename_done (tmp_of path) path (os.write_file (tmp_of path) text d).0,
  )

  -- No other file changes, the temporary one apart.
  pub atomic_write_other :
      (path text other : String) (d : D)
      → path ≢ other
      → tmp_of path ≢ other
      → os.read_file other (atomic_write os path text d).0 ≡ os.read_file other d
  unfolding atomic_write
  atomic_write_other path text other d p q = ground (
    arith,
    os.write_file_other (tmp_of path) other text d q,
    os.rename_other (tmp_of path) path other (os.write_file (tmp_of path) text d).0 q p,
  )

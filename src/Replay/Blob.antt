-- ===== src/Replay/Blob.antt =====
-- `writeSecureBlob` of .agents/scripts/bootstrap-crypto/acl_other.go.
use forge_grid.Prelude.{
  String, Bool, true, false, Option, some, ◌&&◌, ◌≡◌, ◌⊎◌, inl, inr, Bool-cases, if◌then◌else◌,
}

-- What its calls answer: MkdirAll, CreateTemp, Chmod, Write, Sync, Close and Rename.
pub record BlobCalls : Type 0 where
  pub secured : Bool
  pub created : Bool
  pub restricted : Bool
  pub written : Bool
  pub synced : Bool
  pub closed : Bool
  pub replaced : Bool

abbrev pub all_done : BlobCalls
all_done = record {
  secured = true;
  created = true;
  restricted = true;
  written = true;
  synced = true;
  closed = true;
  replaced = true;
}

abbrev all_succeed : BlobCalls → Bool
all_succeed c =
    c.secured
    && (c.created && (c.restricted && (c.written && (c.synced && (c.closed && c.replaced)))))

-- The text goes to a temporary file first, so the file changes in the last call or not at all. The
-- Boolean says that there was no error.
unfoldable pub write_secure_blob : BlobCalls → String → Option String → Option String × Bool
write_secure_blob c text file = if all_succeed c then (some text, true) else (file, false)

pub write_secure_blob_cases :
    (c : BlobCalls) (text : String) (file : Option String)
    → (write_secure_blob c text file ≡ (some text, true))
      ⊎ (write_secure_blob c text file ≡ (file, false))
unfolding write_secure_blob
write_secure_blob_cases c text file = elim (Bool-cases (all_succeed c)) [
  | inl done ↦ inl (rw done)
  | inr failed ↦ inr (rw failed)
]

-- ===== src/Agent/Files.antt =====
-- agent/internal/fs/service.go. The file system and filepath are parameters: `S` is the state of the
-- disk.
pub mod Dispatch
pub mod Access
use pocketclaude.Base.{
  ℕ, GoString, text, str_eq, Bool, true, false, Option, none, some, List, [], ◌∷◌, if◌then◌else◌,
  length, has_prefix, ◌≡◌,
}

-- A directory entry with what entry.Info gives, if it can be read.
pub record RawEntry (Info : Type 0) : Type 0 where
  pub name : GoString
  pub is_dir : Bool
  pub info : Option Info

pub record Os (S Info : Type 0) : Type 0 where
  -- path/filepath: `abs` is none where the working directory is unknown
  pub is_abs : GoString → Bool
  pub clean : GoString → GoString
  pub abs : GoString → Option GoString
  pub join : GoString → GoString → GoString
  pub dir : GoString → GoString
  -- os.ReadDir, os.ReadFile; os.MkdirAll and os.WriteFile may change the disk and then fail
  pub read_dir : S → GoString → Option (List (RawEntry Info))
  pub read_file : S → GoString → Option GoString
  pub mkdir_all : S → GoString → S × Bool
  pub write_file : S → GoString → GoString → S × Bool

pub data FsError : Type 0 where
  cannot_resolve access_denied read_dir_failed read_file_failed mkdir_failed write_failed : FsError

pub data Result (A : Type 0) : Type 0 where
  ok : A → Result A
  err : FsError → Result A

pub record DirEntry (Info : Type 0) : Type 0 where
  pub name : GoString
  pub path : GoString
  pub is_dir : Bool
  pub info : Info

pub record ReadDirResult (Info : Type 0) : Type 0 where
  pub path : GoString
  pub entries : List (DirEntry Info)

pub record ReadFileResult : Type 0 where
  pub path : GoString
  pub content : GoString
  pub size : ℕ

pub record WriteFileResult : Type 0 where
  pub path : GoString
  pub size : ℕ

module _ {S Info : Type 0} (os : Os S Info) where
  unfoldable pub resolve_path : GoString → GoString
  resolve_path path =
      if os.is_abs path
      then os.clean path
      else elim (os.abs path) [ none ↦ path | some absolute ↦ absolute ]

  -- The loop over the allowed directories; one that cannot be resolved is passed over.
  unfoldable pub any_prefix : GoString → List GoString → Bool
  any_prefix abs_path [] = false
  any_prefix abs_path (d ∷ dirs) =
      let rest = any_prefix abs_path dirs in
      elim (os.abs d) [
        | none ↦ rest
        | some abs_dir ↦ if has_prefix abs_path abs_dir then true else rest
      ]

  -- Entries that cannot be read are passed over.
  unfoldable pub dir_entries : GoString → List (RawEntry Info) → List (DirEntry Info)
  dir_entries path [] = []
  dir_entries path (e ∷ es) =
      let rest = dir_entries path es in
      elim e.info [
        | none ↦ rest
        | some info ↦
            record { name = e.name; path = os.join path e.name; is_dir = e.is_dir; info = info }
            ∷ rest
      ]

module _ {S Info : Type 0} (os : Os S Info) (allowed_dirs : List GoString) where
  -- `none` is permission.
  unfoldable pub check_access : GoString → Option FsError
  unfolding any_prefix
  check_access path = elim allowed_dirs [
    | [] ↦ none
    | d ∷ dirs ↦ elim (os.abs path) [
      | none ↦ some cannot_resolve
      | some abs_path ↦ if any_prefix os abs_path (d ∷ dirs) then none else some access_denied
    ]
  ]

  unfoldable pub read_dir : S → GoString → Result (ReadDirResult Info)
  read_dir s path =
      let full = resolve_path os path in
      elim (check_access full) [
        | some e ↦ err e
        | none ↦ elim (os.read_dir s full) [
          | none ↦ err read_dir_failed
          | some es ↦ ok (record { path = full; entries = dir_entries os full es })
        ]
      ]

  unfoldable pub read_file : S → GoString → Result ReadFileResult
  read_file s path =
      let full = resolve_path os path in
      elim (check_access full) [
        | some e ↦ err e
        | none ↦ elim (os.read_file s full) [
          | none ↦ err read_file_failed
          | some bytes ↦ ok (record { path = full; content = bytes; size = length bytes })
        ]
      ]

  unfoldable pub write_file : S → GoString → GoString → S × Result WriteFileResult
  write_file s path content =
      let full = resolve_path os path in
      elim (check_access full) [
        | some e ↦ (s, err e)
        | none ↦
            (let made = os.mkdir_all s (os.dir full) in
              if made.1
              then (let written = os.write_file made.0 full content in
                  if written.1
                  then (written.0, ok (record { path = full; size = length content }))
                  else (written.0, err write_failed))
              else (made.0, err mkdir_failed))
      ]

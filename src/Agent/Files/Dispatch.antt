-- ===== src/Agent/Files/Dispatch.antt =====
-- HandleRPC of agent/internal/fs/service.go. `path_of` and `write_of` are json.Unmarshal at the types of
-- the parameters.
use pocketclaude.Base.{GoString, text, str_eq, Option, none, some, List, if◌then◌else◌}
use pocketclaude.Agent.Rpc.{Rpc, result, failed, invalid_params, unknown_method}
use pocketclaude.Agent.Files.{
  Os, FsError, Result, ok, err, ReadDirResult, ReadFileResult, WriteFileResult, read_dir, read_file,
  write_file,
}

pub data FsResult (Info : Type 0) : Type 0 where
  listing : ReadDirResult Info → FsResult Info
  content : ReadFileResult → FsResult Info
  stored : WriteFileResult → FsResult Info

abbrev pub rpc_of : {A B : Type 0} → (A → B) → Result A → Rpc B FsError
rpc_of f (ok a) = result (f a)
rpc_of f (err e) = failed e

-- The fields of WriteFileRequest.
pub record WriteFileRequest : Type 0 where
  pub path : GoString
  pub content : GoString

module _ {S Info : Type 0} (os : Os S Info) (allowed_dirs : List GoString)
    (path_of : GoString → Option GoString) (write_of : GoString → Option WriteFileRequest) where
  unfoldable pub handle_rpc : GoString → GoString → S → S × Rpc (FsResult Info) FsError
  handle_rpc method params s =
      if str_eq method (text "fs.read_dir")
      then elim (path_of params) [
        | none ↦ (s, invalid_params)
        | some path ↦ (s, rpc_of listing (read_dir os allowed_dirs s path))
      ]
      else if str_eq method (text "fs.read_file")
      then elim (path_of params) [
        | none ↦ (s, invalid_params)
        | some path ↦ (s, rpc_of content (read_file os allowed_dirs s path))
      ]
      else if str_eq method (text "fs.write_file")
      then elim (write_of params) [
        | none ↦ (s, invalid_params)
        | some req ↦
            (let (s', written) = write_file os allowed_dirs s req.path req.content in
              (s', rpc_of stored written))
      ]
      else (s, unknown_method)

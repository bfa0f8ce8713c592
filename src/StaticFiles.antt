-- ===== src/StaticFiles.antt =====
-- src/static_files/mod.rs. The file system is an argument.
pub mod Path
pub mod Mime
pub mod Sanitized
pub mod Confined
use multithreaded.Base.{ℕ, Bool, true, false, Option, none, some, List, [], ◌∷◌, if◌then◌else◌}
use multithreaded.Base.Text.{Str, bytes}
use multithreaded.Http.Response.{
  HttpResponse, HttpLib, HttpBody, stream, text, stream_body, ok, not_found, internal_error,
}
use multithreaded.Http.Response as Response
use multithreaded.StaticFiles.Path.{
  Component, root_dir, cur_dir, parent_dir, normal, components, push,
}
use multithreaded.StaticFiles.Mime.{from_path}

-- The loop over the components.
sanitize_loop : Str → List Component → Option Str
sanitize_loop result [] = some result
sanitize_loop result (normal segment ∷ cs) = sanitize_loop (push result segment) cs
sanitize_loop result (cur_dir ∷ cs) = sanitize_loop result cs
sanitize_loop result (root_dir ∷ cs) = none
sanitize_loop result (parent_dir ∷ cs) = none

unfoldable pub sanitize_path : Str → Option Str
unfolding sanitize_loop
sanitize_path path = sanitize_loop [] (components path)

-- An open file: its length, where `fstat` gives one, and the chunks that reading it yields.
pub record OpenFile : Type 0 where
  pub len : Option ℕ
  pub chunks : List Str

-- What a call of the file system gives: it failed with `NotFound`, or with another error.
pub data IoResult (A : Type 0) : Type 0 where
  found : A → IoResult A
  missing failed : IoResult A

-- `metadata` says whether a path is a directory.
pub record FileSystem : Type 0 where
  pub metadata : Str → IoResult Bool
  pub open_file : Str → IoResult OpenFile

module _ ⦃http : HttpLib⦄ where
  unfoldable pub missing_file : HttpResponse
  missing_file = text not_found (bytes "404 Not Found\n")

  unfoldable pub io_failure : HttpResponse
  io_failure = text internal_error (bytes "500 Internal Server Error\n")

  serve_opened : Str → IoResult OpenFile → HttpResponse
  serve_opened file_path missing = missing_file
  serve_opened file_path failed = io_failure
  serve_opened file_path (found file) = elim (file.len) [
    | none ↦ io_failure
    | some file_size ↦ stream_body ok (from_path file_path) (stream file.chunks) file_size
  ]

  serve_target : FileSystem → Str → IoResult Bool → HttpResponse
  unfolding serve_opened
  serve_target fs target missing = missing_file
  serve_target fs target failed = io_failure
  serve_target fs target (found is_dir) =
      let file_path = if is_dir then push target (bytes "index.html") else target in
      serve_opened file_path (fs.open_file file_path)

  serve_safe : FileSystem → Str → Option Str → HttpResponse
  unfolding serve_target
  serve_safe fs base_dir none = text (Response.new 403) (bytes "403 Forbidden\n")
  serve_safe fs base_dir (some safe_path) =
      let target = push base_dir safe_path in serve_target fs target (fs.metadata target)

  unfoldable pub serve_file : FileSystem → Str → Str → HttpResponse
  unfolding serve_safe
  serve_file fs base_dir req_path = serve_safe fs base_dir (sanitize_path req_path)

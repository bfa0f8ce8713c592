-- ===== src/Tests/Files.antt =====
-- src/static_files at concrete paths.
use multithreaded.Base.{◌≡◌, refl, true, false, none, some, [], ◌∷◌, if◌then◌else◌}
use multithreaded.Base.Text.{Str, bytes, str_eq, split, filter_map, lookup}
use multithreaded.Http.Response.{HttpLib}
use multithreaded.StaticFiles.{
  FileSystem, found, missing, failed, OpenFile, sanitize_path, serve_file,
}
use multithreaded.StaticFiles.Path.{is_absolute, components, push, extension, after_last_dot}
use multithreaded.StaticFiles.Path.Joined.{plain_relative}
use multithreaded.StaticFiles.Mime.{from_path, mime_types}
use multithreaded.StaticFiles.Sanitized.{Sanitizes, sanitize_path-Sanitizes}
use multithreaded.StaticFiles.Confined.{Below, AgreeBelow, serve_file-confined}

instance abbrev lenient : HttpLib
lenient = record { accepts = λ _. true }

sanitize_skips_cur_dir : sanitize_path (bytes "./img//logo.png") ≡ some (bytes "img/logo.png")
unfolding sanitize_path components split bytes str_eq filter_map push
sanitize_skips_cur_dir = refl

sanitize_rejects_traversal : sanitize_path (bytes "css/../../etc/passwd") ≡ none
unfolding sanitize_path components split bytes str_eq filter_map push
sanitize_rejects_traversal = refl

sanitize_absolute_path_rejected : sanitize_path (bytes "/etc/passwd") ≡ none
unfolding sanitize_path components split bytes str_eq filter_map push
sanitize_absolute_path_rejected = refl

known : from_path (bytes "a.b/photo.min.jpeg") ≡ bytes "image/jpeg"
unfolding from_path extension after_last_dot components split bytes str_eq filter_map mime_types
    lookup
known = refl

unknown : from_path (bytes "a.b/.html") ≡ bytes "application/octet-stream"
unfolding from_path extension after_last_dot components split bytes str_eq filter_map mime_types
    lookup
unknown = refl

sanitize_path-Sanitizes_example :
    Sanitizes (components (bytes "./img//logo.png")) (sanitize_path (bytes "./img//logo.png"))
sanitize_path-Sanitizes_example = sanitize_path-Sanitizes (bytes "./img//logo.png")

-- Two file systems that differ on the absolute paths.
abbrev file : OpenFile
file = record { len = some 2; chunks = bytes "hi" ∷ [] }

abbrev everything : FileSystem
everything = record { metadata = λ path. found false; open_file = λ path. found file }

abbrev relative_only : FileSystem
relative_only = record {
  metadata = λ path. if is_absolute path then missing else found false;
  open_file = λ path. if is_absolute path then failed else found file;
}

Below-relative : (path : Str) → Below (bytes "static") path → is_absolute path ≡ false
unfolding components split bytes str_eq filter_map
Below-relative path (segments, h) = plain_relative path (bytes "static" ∷ segments) h

agree : AgreeBelow (bytes "static") everything relative_only
agree = record {
  on_metadata = λ path b. rw (Below-relative path b) refl;
  on_open = λ path b. rw (Below-relative path b) refl;
}

serve_file-confined_example :
    serve_file everything (bytes "static") (bytes "css/style.css")
    ≡ serve_file relative_only (bytes "static") (bytes "css/style.css")
serve_file-confined_example =
    serve_file-confined (bytes "static") everything relative_only agree (bytes "css/style.css")

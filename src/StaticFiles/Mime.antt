-- ===== src/StaticFiles/Mime.antt =====
-- src/static_files/mime.rs
use multithreaded.Base.{List, [], ◌∷◌, Option, none, some}
use multithreaded.Base.Text.{Str, bytes, lookup}
use multithreaded.StaticFiles.Path.{extension}

-- The arms of the `match`, an alternative to each extension.
unfoldable pub mime_types : List (Str × Str)
mime_types =
    (bytes "html", bytes "text/html; charset=utf-8")
    ∷ (bytes "htm", bytes "text/html; charset=utf-8")
    ∷ (bytes "css", bytes "text/css; charset=utf-8")
    ∷ (bytes "js", bytes "application/javascript; charset=utf-8")
    ∷ (bytes "mjs", bytes "application/javascript; charset=utf-8")
    ∷ (bytes "json", bytes "application/json")
    ∷ (bytes "png", bytes "image/png")
    ∷ (bytes "jpg", bytes "image/jpeg")
    ∷ (bytes "jpeg", bytes "image/jpeg")
    ∷ (bytes "gif", bytes "image/gif")
    ∷ (bytes "svg", bytes "image/svg+xml")
    ∷ (bytes "ico", bytes "image/x-icon")
    ∷ (bytes "txt", bytes "text/plain; charset=utf-8")
    ∷ (bytes "md", bytes "text/plain; charset=utf-8")
    ∷ (bytes "pdf", bytes "application/pdf")
    ∷ (bytes "wasm", bytes "application/wasm")
    ∷ (bytes "xml", bytes "application/xml; charset=utf-8")
    ∷ (bytes "webp", bytes "image/webp")
    ∷ (bytes "mp4", bytes "video/mp4")
    ∷ (bytes "mp3", bytes "audio/mpeg")
    ∷ (bytes "ogg", bytes "audio/ogg")
    ∷ (bytes "webm", bytes "video/webm")
    ∷ (bytes "ttf", bytes "font/ttf")
    ∷ (bytes "otf", bytes "font/ttf")
    ∷ (bytes "woff", bytes "font/woff")
    ∷ (bytes "woff2", bytes "font/woff2")
    ∷ (bytes "zip", bytes "application/zip")
    ∷ []

type_of : Option Str → Str
type_of (some mime) = mime
type_of none = bytes "application/octet-stream"

by_extension : Option Str → Str
unfolding type_of
by_extension none = bytes "application/octet-stream"
by_extension (some e) = type_of (lookup e mime_types)

unfoldable pub from_path : Str → Str
unfolding by_extension
from_path path = by_extension (extension path)

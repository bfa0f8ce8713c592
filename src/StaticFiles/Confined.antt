-- ===== src/StaticFiles/Confined.antt =====
-- No request reads outside the directory that is served.
use multithreaded.Base.{
  ◌≡◌, refl, sym, ◌∙◌, ap, Bool, true, false, Option, none, some, List, [], ◌∷◌, ◌++◌, map,
  append_assoc, map-append,
}
use multithreaded.Base.Text.{Str, bytes, str_eq, split, filter_map}
use multithreaded.Http.Response.{HttpLib}
use multithreaded.StaticFiles.{
  FileSystem, IoResult, found, missing, failed, sanitize_path, serve_opened, serve_target,
  serve_safe, serve_file,
}
use multithreaded.StaticFiles.Path.{
  normal, components, push, components_of, body_components, piece_component,
}
use multithreaded.StaticFiles.Path.Joined.{IsPlain, components-push}
use multithreaded.StaticFiles.Sanitized.{Sanitizes, names, sanitize_path-Sanitizes}

-- The path is the base, followed by names: nothing in it leads up or elsewhere.
abbrev pub Below : Str → Str → Type 0
Below base path = (segments : List Str) × (components path ≡ components base ++ map normal segments)

pub record AgreeBelow (base : Str) (fs fs' : FileSystem) : Type 0 where
  pub on_metadata : (path : Str) → Below base path → fs.metadata path ≡ fs'.metadata path
  pub on_open : (path : Str) → Below base path → fs.open_file path ≡ fs'.open_file path

push-Below :
    (base path segment : Str)
    → IsPlain segment (segment ∷ [])
    → Below base path
    → Below base (push path segment)
push-Below base path segment k (done, h) = (
  done ++ segment ∷ [],
  components-push path segment (segment ∷ []) k
      ∙ ap (λ cs. cs ++ map normal (segment ∷ [])) h
      ∙ append_assoc (components base) (map normal done) (map normal (segment ∷ []))
      ∙ ap (λ cs. components base ++ cs) (sym (map-append normal done (segment ∷ []))),
)

index_html : IsPlain (bytes "index.html") (bytes "index.html" ∷ [])
unfolding components components_of body_components piece_component split filter_map str_eq bytes
index_html = refl

module _ ⦃http : HttpLib⦄ (base : Str) (fs fs' : FileSystem) (same : AgreeBelow base fs fs') where
  target_confined :
      (target : Str) (r : IoResult Bool)
      → Below base target
      → serve_target fs target r ≡ serve_target fs' target r
  unfolding serve_target
  target_confined target missing b = refl
  target_confined target failed b = refl
  target_confined target (found false) b = ap (serve_opened target) (same.on_open target b)
  target_confined target (found true) b =
      ap (serve_opened (push target (bytes "index.html")))
        (same.on_open _ (push-Below base target (bytes "index.html") index_html b))

  safe_confined :
      (req_path : Str) (o : Option Str)
      → Sanitizes (components req_path) o
      → serve_safe fs base o ≡ serve_safe fs' base o
  unfolding serve_safe
  safe_confined req_path none h = refl
  safe_confined req_path (some safe_path) h =
      let below : Below base (push base safe_path) = (
        names (components req_path),
        components-push base safe_path (names (components req_path)) h.1,
      ) in
      ap (serve_target fs (push base safe_path)) (same.on_metadata _ below)
      ∙ target_confined (push base safe_path) (fs'.metadata (push base safe_path)) below

  -- Where two file systems agree on every path that is the base directory followed by names, every
  -- request path gets the same answer from both: what lies elsewhere is never read.
  pub serve_file-confined :
      (req_path : Str) → serve_file fs base req_path ≡ serve_file fs' base req_path
  unfolding serve_file
  serve_file-confined req_path =
      safe_confined req_path (sanitize_path req_path) (sanitize_path-Sanitizes req_path)

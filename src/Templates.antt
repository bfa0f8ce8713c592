-- ===== src/Templates.antt =====
-- src/templates/mod.rs. The crate tera is an argument: what it makes of the files, and of a template
-- and a context.
use multithreaded.Base.{ℕ, Option, none, some, List, ◌++◌}
use multithreaded.Base.Results as Results
use multithreaded.Base.Results.{Result, err}
use multithreaded.Base.Text.{Str, bytes}
use multithreaded.Database.Items.{Item}
use multithreaded.Http.Response.{HttpResponse, HttpLib, header, text, ok, internal_error}

-- The values that the handlers put into a context.
pub data Value : Type 0 where
  string : Str → Value
  number : ℕ → Value
  items : List Item → Value

-- `Context::insert` replaces the value of its key.
abbrev pub Context : Type 0
Context = List (Str × Value)

pub data Rendered : Type 0 where
  html : Str → Rendered
  template_error : Str → Rendered

pub record TemplateLib : Type 0 where
  pub render : Str → Context → Rendered

-- `Tera::new`: compiling the files that a glob names.
pub record TeraLib : Type 1 where
  pub Tera : Type 0
  pub TeraError : Type 0
  pub compile : Str → Result TeraError Tera

-- `TemplateEngine::new`
unfoldable pub new : (tera : TeraLib) → Str → Option tera.Tera
new tera template_dir = elim (tera.compile (template_dir ++ bytes "/**/*.html")) [
  | Results.ok engine ↦ some engine
  | err e ↦ none
]

module _ ⦃http : HttpLib⦄ where
  unfoldable pub respond_rendered : Rendered → HttpResponse
  respond_rendered (html page) =
      text
        (header
          (header
            (header
              (header (header ok (bytes "content-type") (bytes "text/html; charset=utf-8"))
                (bytes "content-security-policy")
                (bytes
                  "default-src 'self'; style-src 'self' 'unsafe-inline'; base-uri 'self'; form-action 'self'; frame-ancestors 'none'"))
              (bytes "x-content-type-options") (bytes "nosniff"))
            (bytes "x-frame-options") (bytes "DENY"))
          (bytes "referrer-policy") (bytes "no-referrer"))
        page
  respond_rendered (template_error message) =
      text (header internal_error (bytes "content-type") (bytes "text/html; charset=utf-8"))
        (bytes "<h1>500 Internal Server Error</h1><pre>" ++ (message ++ bytes "</pre>"))

  -- `TemplateEngine::render`
  unfoldable pub render : ⦃tera : TemplateLib⦄ → Str → Context → HttpResponse
  unfolding respond_rendered
  render ⦃tera⦄ template_name ctx = respond_rendered (tera.render template_name ctx)

-- ===== src/Tests/Routing.antt =====
-- src/http at concrete requests.
use multithreaded.Base.{◌≡◌, refl, true, none, some, List, [], ◌∷◌, ◌++◌}
use multithreaded.Base.Text.{Str, bytes, split_nonempty, join, str_eq, insert}
use multithreaded.Http.Request.{HttpRequest}
use multithreaded.Http.Response.{
  HttpResponse, HttpLib, ResponseBuilder, header, header_calls, build, text, ok, full,
}
use multithreaded.Http.Response as Response
use multithreaded.Http.Response.Laws.{values, own_headers, extra_values, build-values}
use multithreaded.Http.Router.{
  PathSegment, literal, param, wildcard, RouteEntry, parse_pattern, match_path, dispatch, slash,
}
use multithreaded.Http.Router.Reference.{reference}
use multithreaded.Http.Router.Matching.{match_path-reference}
use multithreaded.Http.Router.Dispatch.{Answers, dispatch-Answers}
use multithreaded.Http.Router.Pattern.{print_pattern, parse_pattern-print_pattern}

instance abbrev lenient : HttpLib
lenient = record { accepts = λ _. true }

abbrev files : List PathSegment
files = literal (bytes "files") ∷ wildcard (bytes "path") ∷ []

deep_path :
    match_path files (bytes "/files/css/style.css")
    ≡ some ((bytes "path", bytes "css/style.css") ∷ [])
unfolding match_path split_nonempty join str_eq bytes insert
deep_path = refl

short_path : match_path files (bytes "/files") ≡ some []
unfolding match_path split_nonempty join str_eq bytes
short_path = refl

match_path-reference_example :
    match_path files (bytes "/files/a/b")
    ≡ reference files (split_nonempty slash (bytes "/files/a/b")) []
match_path-reference_example = match_path-reference files (bytes "/files/a/b") refl

abbrev get : Str
get = bytes "GET"

abbrev request : HttpRequest
request = record {
  method = bytes "POST";
  path = bytes "/users/42";
  query = none;
  headers = λ name. none;
  entries = [];
  body = [];
  path_params = [];
}

abbrev routes : List (RouteEntry HttpResponse)
routes =
    record {
      method = get;
      segments = literal (bytes "users") ∷ param (bytes "id") ∷ [];
      handler = λ req. text ok (bytes "user");
    }
    ∷ []

abbrev itself : HttpResponse → HttpResponse
itself r = r

wrong_method_status : (dispatch itself routes request).status ≡ 405
unfolding dispatch match_path split_nonempty str_eq bytes insert Response.empty
wrong_method_status = refl

dispatch-Answers_example : Answers request itself routes (dispatch itself routes request)
dispatch-Answers_example = dispatch-Answers itself request routes

abbrev segments : List PathSegment
segments = literal (b'u' ∷ []) ∷ param (b'i' ∷ b'd' ∷ []) ∷ []

parse_pattern-print_pattern_example : parse_pattern (print_pattern segments) ≡ segments
parse_pattern-print_pattern_example =
    parse_pattern-print_pattern segments
      (((refl, (refl, tt)), (refl, refl)), ((refl, (refl, (refl, (refl, tt)))), tt))

abbrev html : ResponseBuilder
html = header ok (bytes "content-type") (bytes "text/html")

build-values_example :
    ((build html (bytes "text/plain") (1 ∷ [])).status ≡ 200)
    × ((build html (bytes "text/plain") (1 ∷ [])).body ≡ full (1 ∷ []))
    × (values (bytes "content-type") (build html (bytes "text/plain") (1 ∷ [])).headers
        ≡ extra_values
            (bytes "content-type")
            (own_headers (bytes "text/plain") 1 ++ html.extra_headers))
build-values_example = build-values html (bytes "text/plain") (1 ∷ []) (bytes "content-type") refl

-- ===== src/Tests/Administration.antt =====
-- The item routes of src/server/connection.rs over a table in memory, where one token is valid.
use multithreaded.Base.{
  ◌≢◌, is_some, ◌+◌, ◌++◌, ◌≤◌, ◌<◌, leb, subst, ℕ, ◌≡◌, refl, Bool, true, false, Option, none,
  some, [], ◌∷◌, ◌⊎◌, if◌then◌else◌, ltb, arith,
}
use multithreaded.Base.Text.{Str, bytes, str_eq, strip_prefix, lookup}
use multithreaded.Database.Items.{Item, ItemsTable, Rows, put}
use multithreaded.Http.Request.{HttpRequest, path_param}
use multithreaded.Http.Response.{HttpResponse, HttpLib, json, ok, empty, internal_error}
use multithreaded.Http.Response as Response
use multithreaded.Middleware.Auth.{
  Claims, leeway, JwtLib, create_token, verify_token, extract_bearer,
}
use multithreaded.Server.Api.Tokens.{create_token-rejected}
use multithreaded.Server.Api.{
  JsonLib, error_response, path_id, rejected, get_one, post_item, delete_one,
}
use multithreaded.Server.Api.Guarded.{IsAuthorized}
use multithreaded.Server.Api.Lifecycle.{post_item-get_one, delete_one-get_one}

instance abbrev lenient : HttpLib
lenient = record { accepts = λ _. true }

-- A token that is the claims themselves.
abbrev decode_token : ℕ → Str → Option Claims
decode_token now [] = none
decode_token now (exp ∷ sub) = if leb now exp then some (record { sub = sub; exp = exp }) else none

pub decode_valid :
    (claims : Claims) (token : Str) (now : ℕ)
    → some (claims.exp ∷ claims.sub) ≡ some token
    → now ≤ claims.exp
    → decode_token now token ≡ some claims
decode_valid claims token now e h =
    subst (λ t. decode_token now t ≡ some claims) (inner e) (ground arith)
  where
    inner : {a b : Str} → some a ≡ some b → a ≡ b
    inner e = cc

pub decode_expired :
    (claims : Claims) (token : Str) (now : ℕ)
    → some (claims.exp ∷ claims.sub) ≡ some token
    → claims.exp + leeway < now
    → decode_token now token ≡ none
decode_expired claims token now e h =
    subst (λ t. decode_token now t ≡ none) (inner e) (ground arith)
  where
    inner : {a b : Str} → some a ≡ some b → a ≡ b
    inner e = cc

instance abbrev pub plain_tokens : JwtLib
plain_tokens = record {
  encode = λ claims. some (claims.exp ∷ claims.sub);
  decode = decode_token;
  decode_valid = decode_valid;
  decode_expired = decode_expired;
}

-- The name of an item stands for it.
instance abbrev pub names : JsonLib
names = record {
  error_text = λ message. some message;
  deleted_text = some (bytes "deleted");
  item_text = λ item. some item.name;
  items_text = λ items. some [];
  token_text = λ token. some token;
  parse_login = λ body. none;
  parse_item = λ body. some (record { name = body; description = [] });
}

abbrev insert_row : Item → Option Item → Rows → Bool × Rows
insert_row item none t = (true, put item.id (some item) t)
insert_row item (some old) t = (false, t)

pub insert_row-ok :
    (item : Item) (old : Option Item) (t : Rows)
    → (insert_row item old t).0 ≡ true
    → (insert_row item old t).1 ≡ put item.id (some item) t
insert_row-ok item none t h = refl
insert_row-ok item (some old) t h = absurd (ground (arith, h))

pub insert_row-error :
    (item : Item) (old : Option Item) (t : Rows)
    → (insert_row item old t).0 ≡ false
    → (insert_row item old t).1 ≡ t
insert_row-error item none t h = absurd (ground (arith, h))
insert_row-error item (some old) t h = refl

abbrev count : Option Item → ℕ
count none = 0
count (some item) = 1

pub count-is_some : (row : Option Item) (n : ℕ) → some (count row) ≡ some n → ltb 0 n ≡ is_some row
count-is_some row n h = ground (arith, h)

pub some_eq {ℓ} : {A : Type ℓ} (a b : A) → some a ≡ some b → b ≡ a
some_eq a b h = ground (arith, h)

pub never_none {ℓ} : {A : Type 0} {B : Type ℓ} (b : B) → some b ≡ none → A
never_none b h = absurd (ground (arith, h))

abbrev pub memory : ItemsTable
memory = record {
  Table = Rows;
  rows = λ t. t;
  select_all = λ t. (some [], t);
  select = λ id t. (some (t id), t);
  insert = λ item t. insert_row item (t item.id) t;
  delete = λ id t. (some (count (t id)), put id none t);
  select_all_rows = λ t. refl;
  select_ok = λ id t o h. some_eq _ _ h;
  select_rows = λ id t. refl;
  insert_ok = λ item t h. insert_row-ok item (t item.id) t h;
  insert_error = λ item t h. insert_row-error item (t item.id) t h;
  delete_ok = λ id t n h. (count-is_some (t id) n h, refl);
  delete_error = λ id t h. never_none _ h;
}

abbrev pub no_items : Rows
no_items = λ key. none

abbrev request : HttpRequest
request = record {
  method = bytes "POST";
  path = bytes "/api/admin/items";
  query = none;
  headers = λ name.
      if str_eq name (bytes "authorization")
      then some (bytes "Bearer " ++ (3700 ∷ bytes "a"))
      else none;
  entries = [];
  body = bytes "pen";
  path_params = (bytes "id", bytes "7") ∷ [];
}

authorized : IsAuthorized request 150
unfolding extract_bearer bytes str_eq strip_prefix verify_token
authorized = record {
  token = 3700 ∷ bytes "a";
  claims = record { sub = bytes "a"; exp = 3700 };
  carried = refl;
  verifies = refl;
}

asked : path_id request ≡ bytes "7"
unfolding path_param lookup bytes str_eq
asked = refl

abbrev pen : Item
pen = record { id = bytes "7"; name = bytes "pen"; description = [] }

post_item-get_one_example :
    let (response, t') = post_item memory (bytes "7") 150 request no_items in
    (response ≡ json (Response.new 201) (names.item_text pen))
    × (((get_one memory request t').0 ≡ json ok (names.item_text pen))
        ⊎ ((get_one memory request t').0 ≡ empty internal_error))
post_item-get_one_example =
    post_item-get_one memory (bytes "7") 150 request request
      (record { name = bytes "pen"; description = [] }) no_items authorized refl asked refl

abbrev pub stocked : Rows
stocked = λ key. some pen

delete_one-get_one_example :
    let (response, t') = delete_one memory 150 request stocked in
    (((stocked (path_id request) ≢ none) × (response ≡ json (Response.new 200) names.deleted_text))
      ⊎ ((stocked (path_id request) ≡ none)
          × (response ≡ json (Response.new 404) (names.error_text (bytes "item not found")))))
    × (((get_one memory request t').0
          ≡ json (Response.new 404) (names.error_text (bytes "item not found")))
        ⊎ ((get_one memory request t').0 ≡ empty internal_error))
delete_one-get_one_example =
    delete_one-get_one memory 150 request request 1 stocked authorized refl refl

made : create_token (bytes "a") 100 ≡ some (3700 ∷ bytes "a")
unfolding create_token
made = refl

sent : request.headers (bytes "authorization") ≡ some (bytes "Bearer " ++ (3700 ∷ bytes "a"))
unfolding str_eq bytes
sent = refl

create_token-rejected_example :
    (rejected request 150 ≡ none)
    × (rejected request 4000 ≡ some (error_response 401 (bytes "invalid or expired token")))
create_token-rejected_example =
    create_token-rejected (bytes "a") (3700 ∷ bytes "a") 100 150 4000 request made sent
      (omega arith) (omega arith)

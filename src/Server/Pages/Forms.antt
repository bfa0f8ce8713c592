-- ===== src/Server/Pages/Forms.antt =====
-- The loop over the fields of a form, as the login and the creation of an item have it.
use multithreaded.Base.{Option, none, some, List, [], ◌∷◌, map, if◌then◌else◌, ◌==◌}
use multithreaded.Base.Text.{Str, str_eq, split}
use multithreaded.Http.Request.{HttpRequest, Utf8Lib, unplus}

-- The crate percent_encoding: `percent_decode_str(..).decode_utf8_lossy()`.
pub record PercentLib : Type 0 where
  pub decode_lossy : Str → Str

-- `split_once('=')`
unfoldable pub split_once : Str → Option (Str × Str)
split_once [] = none
split_once (c ∷ s) =
    let rest = split_once s in
    if c == b'=' then some ([], s) else elim rest [ none ↦ none | some (k, v) ↦ some (c ∷ k, v) ]

module _ ⦃percent : PercentLib⦄ where
  decoded : Str → Str
  decoded v = percent.decode_lossy (map unplus v)

  -- One round: a field with the name of one of the two variables is written to it.
  assign : Str → Str → Option (Str × Str) → Str × Str → Str × Str
  unfolding decoded
  assign first second none (a, b) = (a, b)
  assign first second (some (k, v)) (a, b) =
      (if str_eq k first then decoded v else a, if str_eq k second then decoded v else b)

  fields_loop : Str → Str → List Str → Str × Str → Str × Str
  unfolding assign split_once
  fields_loop first second [] ab = ab
  fields_loop first second (pair ∷ pairs) ab =
      fields_loop first second pairs (assign first second (split_once pair) ab)

  -- The values of two fields of a body; a field that is missing is empty, and of several with one
  -- name the last counts.
  unfoldable pub two_fields : ⦃utf8 : Utf8Lib⦄ → Str → Str → HttpRequest → Str × Str
  unfolding fields_loop
  two_fields ⦃utf8⦄ first second req =
      fields_loop first second (split b'&' (utf8.from_utf8_lossy req.body)) ([], [])

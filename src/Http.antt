-- ===== src/Http.antt =====
-- Requests and responses of net/http, as far as internal/gateway and internal/api use them. The body
-- of a request comes decoded: the decoder of encoding/json is not part of the program.
use Prim.Native.Char.{code}
use routecat.Prelude.{List, Option, String, [], if◌then◌else◌, none, some, ◌==◌, ◌∷◌}

-- s without the prefix p, if it has it: strings.HasPrefix and strings.TrimPrefix
abbrev pub cut_prefix : String → String → Option String
cut_prefix String.[] s = some s
cut_prefix (String.◌∷◌ c p) String.[] = none
cut_prefix (String.◌∷◌ c p) (String.◌∷◌ d s) = if code c == code d then cut_prefix p s else none

-- The key of an Authorization header.
abbrev pub bearer_key : String → Option String
bearer_key auth = cut_prefix "Bearer " auth

-- strings.TrimPrefix(auth, "Bearer ")
abbrev pub trim_bearer : String → String
trim_bearer auth = elim (bearer_key auth) [ none ↦ auth | some key ↦ key ]

-- The status codes that the handlers answer with.
pub data Status : Type 0 where
  success created bad_request unauthorized forbidden not_found method_not_allowed : Status
  too_many_requests internal_error not_implemented bad_gateway service_unavailable : Status

-- strings.Split(path, "/")
abbrev pub split_path : String → List String
split_path String.[] = "" ∷ []
split_path (String.◌∷◌ c s) =
    let rest = split_path s in
    if code c == b'/' then "" ∷ rest else (elim rest [ [] ↦ [] | p ∷ ps ↦ String.◌∷◌ c p ∷ ps ])

-- A body that cannot be read, is not valid JSON, or is decoded.
pub data Body (A : Type 0) : Type 0 where
  unreadable : Body A
  invalid_json : Body A
  decoded : A → Body A

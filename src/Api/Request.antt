-- ===== src/Api/Request.antt =====
-- What an endpoint of web/src/lib/api.ts hands to `request`, and the parts of its paths.
use mc_gantry.Base.{
  ℕ, zero, suc, List, [], ◌∷◌, ◌++◌, Option, none, some, String, Text, codes, present,
}
use mc_gantry.Utils.Json.{Json}
use mc_gantry.Export.Bytes.{decimal}

pub data Method : Type 0 where
  get_method post_method put_method delete_method : Method

pub record Request : Type 0 where
  pub method : Method
  pub path : Text
  pub body : Option Json

abbrev pub get : Text → Request
get path = record { method = get_method; path = path; body = none }

abbrev pub post : Text → Option Json → Request
post path body = record { method = post_method; path = path; body = body }

abbrev pub put : Text → Option Json → Request
put path body = record { method = put_method; path = path; body = body }

abbrev pub delete : Text → Request
delete path = record { method = delete_method; path = path; body = none }

-- `if (value) params.set(key, value);`
abbrev pub text_param : String → Option Text → List (Text × Text)
text_param key value = elim (present value) [ none ↦ [] | some v ↦ (codes key, v) ∷ [] ]

-- `if (n) params.set(key, String(n));`
abbrev pub number_param : String → Option ℕ → List (Text × Text)
number_param key none = []
number_param key (some zero) = []
number_param key (some (suc n)) = (codes key, decimal (suc n)) ∷ []

-- The query after its question mark, if there is one.
abbrev pub query_suffix : Text → Text
query_suffix [] = []
query_suffix (c ∷ qs) = codes "?" ++ (c ∷ qs)

-- `value ? ?key=${encodeURIComponent(value)} : ''`
abbrev pub query_of : (Text → Text) → String → Option Text → Text
query_of encode key value = elim (present value) [
  | none ↦ []
  | some v ↦ codes "?" ++ (codes key ++ (codes "=" ++ encode v))
]

-- `list.join(',')`
unfoldable pub joined : List Text → Text
joined [] = []
joined (x ∷ []) = x
joined (x ∷ y ∷ xs) = x ++ (codes "," ++ joined (y ∷ xs))

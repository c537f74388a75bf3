-- ===== src/Http/Request.antt =====
-- include/http/HttpRequest.h and src/http/HttpRequest.cc.
pub mod Laws
use ai_chat_server.Base.{
  ℕ, ◌+◌, ◌-◌, ◌==◌, suc, Bool, true, false, not, ◌||◌, Option, none, some, Bytes, codes, List, [],
  ◌∷◌, length, take, drop, bytes_eq, if◌then◌else◌, case_eq, is_empty,
}
use ai_chat_server.Http.Headers.{Headers, assign}

pub data Method : Type 0 where
  invalid get post put patch delete : Method

pub data Version : Type 0 where
  unknown http10 http11 : Version

pub record Request : Type 0 where
  pub method : Method
  pub version : Version
  pub path : Bytes
  pub query : Bytes
  pub headers : Headers
  pub body : Bytes

abbrev pub new_request : Request
new_request = record {
  method = invalid;
  version = unknown;
  path = [];
  query = [];
  headers = [];
  body = [];
}

-- The bytes of " \t\r\n".
abbrev pub is_space : ℕ → Bool
is_space x = x == 32 || x == 9 || x == 13 || x == 10

-- find_first_not_of and find_last_not_of; `none` is npos.
pub find_first_not_space : Bytes → Option ℕ
find_first_not_space [] = none
find_first_not_space (x ∷ xs) =
    if is_space x
    then elim (find_first_not_space xs) [ none ↦ none | some i ↦ some (suc i) ]
    else some 0

pub find_last_not_space : Bytes → Option ℕ
find_last_not_space [] = none
find_last_not_space (x ∷ xs) = elim (find_last_not_space xs) [
  | some i ↦ some (suc i)
  | none ↦ if is_space x then none else some 0
]

-- substr(start, end - start + 1) of the two positions.
substr_to : Bytes → ℕ → Option ℕ → Bytes
substr_to s start none = []
substr_to s start (some last) = take (last + 1 - start) (drop start s)

trim_from : Bytes → Option ℕ → Bytes
trim_from s none = []
trim_from s (some start) = substr_to s start (find_last_not_space s)

unfoldable pub trim : Bytes → Bytes
unfolding trim_from substr_to find_first_not_space find_last_not_space
trim s = trim_from s (find_first_not_space s)

unfoldable pub method_of : Bytes → Method
method_of m =
    if bytes_eq m (codes "GET")
    then get
    else if bytes_eq m (codes "POST")
    then post
    else if bytes_eq m (codes "PUT")
    then put
    else if bytes_eq m (codes "PATCH")
    then patch
    else if bytes_eq m (codes "DELETE")
    then delete
    else invalid

unfoldable pub method_string : Method → Bytes
method_string get = codes "GET"
method_string post = codes "POST"
method_string put = codes "PUT"
method_string patch = codes "PATCH"
method_string delete = codes "DELETE"
method_string invalid = codes "INVALID"

abbrev pub is_valid_method : Method → Bool
is_valid_method invalid = false
is_valid_method _ = true

-- The new request, and whether the method is one of the five.
unfoldable pub set_method : Bytes → Request → Bool × Request
set_method m r = (is_valid_method (method_of m), record r { method = method_of m })

unfoldable pub add_header : Bytes → Bytes → Request → Request
add_header key value r = record r { headers = assign key (trim value) r.headers }

-- The first header, in the order of the names, whose name is the field but for case.
unfoldable pub find_header : Bytes → Headers → Bytes
find_header field [] = []
find_header field ((name, value) ∷ hs) = if case_eq name field then value else find_header field hs

unfoldable pub get_header : Bytes → Request → Bytes
unfolding find_header
get_header field r = find_header field r.headers

abbrev pub is_http11 : Version → Bool
is_http11 http11 = true
is_http11 _ = false

unfoldable pub keep_alive : Request → Bool
unfolding get_header is_empty
keep_alive r =
    let connection = get_header (codes "Connection") r in
    if is_empty connection then is_http11 r.version else not (case_eq connection (codes "close"))

-- reset() exchanges the request with an empty one: `swap` gives both.
abbrev pub swap : Request → Request → Request × Request
swap this other = (other, this)

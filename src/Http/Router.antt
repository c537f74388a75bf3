-- ===== src/Http/Router.antt =====
-- include/http/HttpRouter.h and src/http/HttpRouter.cc. A handler turns a response into the one
-- to send. The hash table is an association list; only its lookups are used.
pub mod Laws
use ai_chat_server.Base.{
  Bool, true, false, ◌&&◌, Option, none, some, Bytes, List, [], ◌∷◌, bytes_eq, if◌then◌else◌, ite,
}
use ai_chat_server.Http.Request.{Method, Request}
use ai_chat_server.Http.Response.{Response}

abbrev pub Handler : Type 0
Handler = Request → Response → Response

pub record RouteKey : Type 0 where
  pub method : Method
  pub path : Bytes

pub Method-discrete : Discrete Method
Method-discrete = hlevel

-- RouteKey::operator==
unfoldable pub key_eq : RouteKey → RouteKey → Bool
key_eq a b = ite (Method-discrete a.method b.method) (bytes_eq a.path b.path) false

pub record Router : Type 0 where
  pub routes : List (RouteKey × Handler)
  pub not_found_handler : Option Handler

assign_route : RouteKey → Handler → List (RouteKey × Handler) → List (RouteKey × Handler)
assign_route k h [] = (k, h) ∷ []
assign_route k h ((j, g) ∷ rs) = if key_eq j k then (j, h) ∷ rs else (j, g) ∷ assign_route k h rs

find_route : RouteKey → List (RouteKey × Handler) → Option Handler
find_route k [] = none
find_route k ((j, g) ∷ rs) = if key_eq j k then some g else find_route k rs

unfoldable pub add_route : Method → Bytes → Handler → Router → Router
unfolding assign_route
add_route method path h t = record t {
  routes = assign_route (record { method = method; path = path }) h t.routes;
}

abbrev pub set_not_found_handler : Handler → Router → Router
set_not_found_handler h t = record t { not_found_handler = some h }

fall_back : Option Handler → Request → Response → Bool × Response
fall_back none req resp = (false, resp)
fall_back (some h) req resp = (true, h req resp)

run_route : Option Handler → Option Handler → Request → Response → Bool × Response
run_route none other req resp = fall_back other req resp
run_route (some h) other req resp = (true, h req resp)

-- Whether a handler ran, and the response.
unfoldable pub route : Router → Request → Response → Bool × Response
unfolding run_route fall_back find_route
route t req resp =
    run_route (find_route (record { method = req.method; path = req.path }) t.routes)
      t.not_found_handler req resp

-- ===== src/Http/Router/Laws.antt =====
-- What registering a route changes.
use ai_chat_server.Base.{
  ◌≡◌, refl, ap, ◌↔◌, Bool-cases, inl, inr, true, some, Bytes, List, [], ◌∷◌, bytes_eq_iff,
  if◌then◌else◌, arith,
}
use ai_chat_server.Http.Request.{Method, Request}
use ai_chat_server.Http.Response.{Response}
use ai_chat_server.Http.Router.{
  Handler, RouteKey, key_eq, Router, assign_route, find_route, add_route, route,
}

key_eq_iff : (a b : RouteKey) → (key_eq a b ≡ true) ↔ (a ≡ b)
unfolding key_eq
key_eq_iff a b = ground (arith, bytes_eq_iff a.path b.path)

find_route-assign_route :
    (k j : RouteKey) (h : Handler) (rs : List (RouteKey × Handler))
    → find_route j (assign_route k h rs) ≡ (if key_eq k j then some h else find_route j rs)
unfolding find_route assign_route
find_route-assign_route k j h [] = refl
find_route-assign_route k j h ((i, g) ∷ rs) =
    ground (arith, key_eq_iff i k, key_eq_iff i j, key_eq_iff k j, find_route-assign_route k j h rs)

-- After a registration a request of that method and that path runs the new handler, whatever was
-- registered before; a request of another method or another path is routed as before.
pub route-add_route :
    (t : Router) (method : Method) (path : Bytes) (h : Handler) (req : Request) (resp : Response)
    → ((method ≡ req.method) × (path ≡ req.path)
        → route (add_route method path h t) req resp ≡ (true, h req resp))
      × (¬ ((method ≡ req.method) × (path ≡ req.path))
          → route (add_route method path h t) req resp ≡ route t req resp)
unfolding route add_route
route-add_route t method path h req resp =
    let new : RouteKey = record { method = method; path = path } in
    let asked : RouteKey = record { method = req.method; path = req.path } in
    let found = find_route-assign_route new asked h t.routes in
    (
      λ (same_method, same_path).
          let hit : key_eq new asked ≡ true =
            (key_eq_iff new asked).1 (rw (same_method, same_path) refl) in
          ground (arith, found, hit),
      λ other. elim (Bool-cases (key_eq new asked)) [
        | inl hit ↦
            let same = (key_eq_iff new asked).0 hit in
            absurd (other (ap (λ k. k.method) same, ap (λ k. k.path) same))
        | inr miss ↦ ground (arith, found, miss)
      ],
    )

-- ===== src/Oauth/Clients.antt =====
-- The clients of the store when another registers (`RegisterClient` of pkg/server/oauth.go).
use native_ops.Base.{
  ℕ, ◌+◌, ◌-◌, ◌≤◌, ◌≡◌, inl, inr, arith, String, Bool, true, List, [], ◌∷◌, ◌++◌, length,
  length-append, Option,
}
use native_ops.Base.Sort.{Member, sort_asc, sort_asc-Member, sort_asc-length}
use native_ops.Oauth.Registration.{Url, register_client, client_name_of, make_room, holds_grant}
use native_ops.Oauth.{OauthClient, OauthGrant, OauthStore, max_oauth_clients, saved}

-- making room lets go of exactly what it says
make_room-length :
    (gs : List OauthGrant) (need : ℕ) (cs : List OauthClient)
    → (length (make_room gs need cs).0 + need ≡ length cs + (make_room gs need cs).1)
      × ((make_room gs need cs).1 ≤ need)
unfolding make_room
make_room-length gs need [] = (omega arith, omega arith)
make_room-length gs need (c ∷ cs) =
    ground (arith, make_room-length gs need cs, make_room-length gs (need - 1) cs)

make_room-Member :
    (gs : List OauthGrant) (need : ℕ) (cs : List OauthClient) (c : OauthClient)
    → holds_grant gs c ≡ true
    → Member c cs
    → Member c (make_room gs need cs).0
unfolding make_room
make_room-Member gs need [] c h m = m
make_room-Member gs need (x ∷ xs) c h (inl e) =
    let held : holds_grant gs x ≡ true = rw e h in ground (arith, held)
make_room-Member gs need (x ∷ xs) c h (inr m) =
    ground (arith, make_room-Member gs need xs c h m, make_room-Member gs (need - 1) xs c h m)

Member-append : (c : OauthClient) (xs ys : List OauthClient) → Member c xs → Member c (xs ++ ys)
Member-append c (x ∷ xs) ys (inl e) = inl e
Member-append c (x ∷ xs) ys (inr m) = inr (Member-append c xs ys m)
Member-append c [] ys m = absurd m

register_client-bound :
    (parse : String → Option Url) (name : List ℕ) (uris : List String) (id : String) (now : ℕ)
    (wrote : Bool) (s : OauthStore)
    → length s.clients ≤ 500
    → length (register_client parse name uris id now wrote s).0.clients ≤ 500
unfolding register_client saved
register_client-bound parse name uris id now wrote s h =
    let sorted = sort_asc (λ c. c.created) s.clients in
    let need = length s.clients - max_oauth_clients + 1 in
    let kept = (make_room s.grants need sorted).0 in
    let new : OauthClient = record {
      id = id;
      name = client_name_of name;
      redirect_uris = uris;
      created = now;
    } in
    ground (
      arith,
      sort_asc-length (λ c. c.created) s.clients,
      make_room-length s.grants need sorted,
      length-append kept (new ∷ []),
      length-append s.clients (new ∷ []),
    )

register_client-keeps :
    (parse : String → Option Url) (name : List ℕ) (uris : List String) (id : String) (now : ℕ)
    (wrote : Bool) (s : OauthStore) (c : OauthClient)
    → Member c s.clients
    → holds_grant s.grants c ≡ true
    → Member c (register_client parse name uris id now wrote s).0.clients
unfolding register_client saved
register_client-keeps parse name uris id now wrote s c m h =
    let sorted = sort_asc (λ x. x.created) s.clients in
    let need = length s.clients - max_oauth_clients + 1 in
    let kept = (make_room s.grants need sorted).0 in
    let there =
      make_room-Member s.grants need sorted c h (sort_asc-Member (λ x. x.created) c s.clients m) in
    let new : OauthClient = record {
      id = id;
      name = client_name_of name;
      redirect_uris = uris;
      created = now;
    } in
    ground
      (arith, there, Member-append c kept (new ∷ []) there, Member-append c s.clients (new ∷ []) m)

-- Registering a client keeps a store of at most 500 clients within 500, and lets no client go that holds a
-- grant, however full the store is and however the registration ends.
pub register_client_room :
    (parse : String → Option Url) (name : List ℕ) (uris : List String) (id : String) (now : ℕ)
    (wrote : Bool) (s : OauthStore)
    → length s.clients ≤ 500
    → (length (register_client parse name uris id now wrote s).0.clients ≤ 500)
      × ((c : OauthClient)
          → Member c s.clients
          → holds_grant s.grants c ≡ true
          → Member c (register_client parse name uris id now wrote s).0.clients)
register_client_room parse name uris id now wrote s h = (
  register_client-bound parse name uris id now wrote s h,
  register_client-keeps parse name uris id now wrote s,
)

-- ===== src/Mesh/Routes.antt =====
-- gateway/gateway.go, invalidateRoutes: what a failed tunnel forgets.
use gatewaysshd.Common.{
  ℕ, ◌≡◌, ◌≢◌, inl, inr, refl, sym, subst, List, [], ◌∷◌, none, Text, ◌==◌, text_key, if◌then◌else◌,
  arith, Member, Member-map, Member-map_of, Member-range_from, Member-range_from_lt, length, split,
}
use gatewaysshd.RouteCache
use gatewaysshd.RouteCache.{RouteCache}
use gatewaysshd.RouteCache.History.{get-invalidate}
use gatewaysshd.Gateway.{dot, user_at, part_indexes, host_at}
use gatewaysshd.Gateway.Lookup.{Names, Names-at, index_of_Names}
use gatewaysshd.Mesh.{Mesh, candidates, invalidate_users, invalidate_routes}

-- The candidates are the users that the host name names.
pub candidates-Names :
    (host user : Text) → Member user (candidates host) → (service : Text) × Names host service user
unfolding candidates
candidates-Names host user m =
    let (index, listed, e) = Member-map (user_at host) user (part_indexes host) m in
    let bound = Member-range_from_lt index 0 (length (split dot host)) listed in
    (
      host_at host index,
      subst (Names host (host_at host index)) (sym e) (Names-at host index (omega (arith, bound))),
    )

pub Names-candidates :
    (host service user : Text) → Names host service user → Member user (candidates host)
unfolding candidates
Names-candidates host service user n =
    let (index, bound, _, e) = index_of_Names host service user n in
    subst (λ u. Member u (candidates host)) e
      (Member-map_of (user_at host) index (part_indexes host)
        (Member-range_from index 0 (length (split dot host)) (omega arith) (omega arith)))

get-invalidate_users-none :
    (routes : RouteCache) (users : List Text) (user : Text) (now : ℕ)
    → RouteCache.get routes user now ≡ none
    → RouteCache.get (invalidate_users routes users) user now ≡ none
unfolding invalidate_users
get-invalidate_users-none routes [] user now h = h
get-invalidate_users-none routes (x ∷ xs) user now h =
    get-invalidate_users-none (if x == [] then routes else RouteCache.invalidate routes x) xs user
      now (ground (arith, get-invalidate routes x user now))

get-invalidate_users :
    (routes : RouteCache) (users : List Text) (user : Text) (now : ℕ)
    → user ≢ []
    → Member user users
    → RouteCache.get (invalidate_users routes users) user now ≡ none
unfolding invalidate_users
get-invalidate_users routes [] user now named m = absurd m
get-invalidate_users routes (x ∷ xs) user now named (inl e) =
    get-invalidate_users-none (if x == [] then routes else RouteCache.invalidate routes x) xs user
      now (ground (arith, get-invalidate routes x user now))
get-invalidate_users routes (x ∷ xs) user now named (inr m) =
    get-invalidate_users (if x == [] then routes else RouteCache.invalidate routes x) xs user now
      named m

get-invalidate_users_other :
    (routes : RouteCache) (users : List Text) (user : Text) (now : ℕ)
    → ¬ Member user users
    → RouteCache.get (invalidate_users routes users) user now ≡ RouteCache.get routes user now
unfolding invalidate_users
get-invalidate_users_other routes [] user now out = refl
get-invalidate_users_other routes (x ∷ xs) user now out =
    let rest =
      get-invalidate_users_other (if x == [] then routes else RouteCache.invalidate routes x) xs
        user now (λ m. out (inr m)) in
    let other : user ≢ x = λ e. out (inl e) in
    ground (arith, rest, get-invalidate routes x user now, other)

-- After a failed tunnel no user that the host name names has a cached route, so the next attempt
-- reads the database.
pub get-invalidate_routes :
    (self : Mesh) (host service user : Text) (now : ℕ)
    → Names host service user
    → user ≢ []
    → RouteCache.get (invalidate_routes self host).routes user now ≡ none
unfolding invalidate_routes
get-invalidate_routes self host service user now n named =
    get-invalidate_users self.routes (candidates host) user now named
      (Names-candidates host service user n)

-- A failed tunnel leaves the routes of the users that its host name does not name.
pub get-invalidate_routes_other :
    (self : Mesh) (host user : Text) (now : ℕ)
    → ¬ ((service : Text) × Names host service user)
    → RouteCache.get (invalidate_routes self host).routes user now
      ≡ RouteCache.get self.routes user now
unfolding invalidate_routes
get-invalidate_routes_other self host user now unnamed =
    get-invalidate_users_other self.routes (candidates host) user now
      (λ m. unnamed (candidates-Names host user m))

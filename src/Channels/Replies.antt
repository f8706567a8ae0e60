-- ===== src/Channels/Replies.antt =====
-- gateway/tunnel.go, handleRequests: the requests on the channel of a tunnel.
use gatewaysshd.Common.{◌≡◌, refl, Bool, true, false, List, [], ◌∷◌, if◌then◌else◌, All}

-- What the loop selects: that the tunnel is closed, that there are no more requests, or a request, with
-- whether it wants a reply and whether that can be sent.
pub data Arrival : Type 0 where
  closed no_more : Arrival
  requested : Bool → Bool → Arrival

-- The replies that are sent. A reply that cannot be sent ends the loop.
unfoldable pub handle_requests : List Arrival → List Bool
handle_requests [] = []
handle_requests (closed ∷ arrivals) = []
handle_requests (no_more ∷ arrivals) = []
handle_requests (requested want_reply can_reply ∷ arrivals) =
    let later = handle_requests arrivals in
    if want_reply then (if can_reply then false ∷ later else []) else later

-- No request on the channel of a tunnel is granted.
pub handle_requests_refuse :
    (arrivals : List Arrival) → All (λ reply. reply ≡ false) (handle_requests arrivals)
unfolding handle_requests
handle_requests_refuse [] = tt
handle_requests_refuse (closed ∷ arrivals) = tt
handle_requests_refuse (no_more ∷ arrivals) = tt
handle_requests_refuse (requested true true ∷ arrivals) = (refl, handle_requests_refuse arrivals)
handle_requests_refuse (requested true false ∷ arrivals) = tt
handle_requests_refuse (requested false can_reply ∷ arrivals) = handle_requests_refuse arrivals

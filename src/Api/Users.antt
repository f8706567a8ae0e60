-- ===== src/Api/Users.antt =====
-- cli/http.go and gateway/gateway.go: who is shown as online.
use gatewaysshd.Common.{
  ℕ, ◌≡◌, ◌≢◌, ◌↔◌, refl, sym, ◌∙◌, ap, Bool, true, false, ◌||◌, List, [], ◌∷◌, some, Text, ◌==◌,
  text_key, ltb, length, map, Member, Member-select, Member-select_keeps, ==_refl, nat_key, arith,
  inl, inr, Bool-cases, ==_eq,
}
use gatewaysshd.Common.Dict.{lookup}
use gatewaysshd.Errors.{ok}
use gatewaysshd.Connection.Usage.{UsageStats}
use gatewaysshd.Connection.Status.{gather_status}
use gatewaysshd.Gateway.{Gateway}
use gatewaysshd.Gateway.Index.{IsIndexed, of_user}
use gatewaysshd.Db.{User, Db, list_columns, detail_columns}
use gatewaysshd.Db
use gatewaysshd.Heartbeat.{is_user_online, list_users_online}
use gatewaysshd.Heartbeat.Online.{list_users_online_lem}
use gatewaysshd.Api.{UserView, view_user, get_user}

same_truth : (a b : Bool) → (a ≡ true → b ≡ true) → (b ≡ true → a ≡ true) → a ≡ b
same_truth true b f g = sym (f refl)
same_truth false true f g = g refl
same_truth false false f g = refl

length-map : {A B : Type 0} (f : A → B) (xs : List A) → length (map f xs) ≡ length xs
length-map f [] = refl
length-map f (x ∷ xs) = omega (arith, length-map f xs)

-- A user has a connection exactly if the list of the user's connections is not empty.
connected_iff :
    (self : Gateway) (user_id : Text)
    → (ltb 0 (length (of_user self user_id)) ≡ true)
      ↔ ((c : ℕ) × Member c self.connections_list × ((self.store c).user ≡ user_id))
connected_iff self user_id = (
  (λ h.
      let (c, held) = first (of_user self user_id) h in
      let (listed, e) =
        Member-select (λ x. (self.store x).user == user_id) c self.connections_list held in
      (c, listed, ==_eq _ _ e)),
  (λ (c, listed, e). nonempty (of_user self user_id) c (
      Member-select_keeps (λ x. (self.store x).user == user_id) c self.connections_list listed
        (rw e (==_refl user_id)))),
)
  where
    first : (xs : List ℕ) → ltb 0 (length xs) ≡ true → (c : ℕ) × Member c xs
    first [] h = absurd (ground arith)
    first (c ∷ xs) h = (c, inl refl)

    nonempty : (xs : List ℕ) (c : ℕ) → Member c xs → ltb 0 (length xs) ≡ true
    nonempty [] c m = absurd m
    nonempty (x ∷ xs) c m = ground arith

-- The page of a user and the list of users agree: where the index equals the list of connections,
-- both show a user of the table, and as online in the one exactly if in the other.
pub get_user-list_users_online :
    (usage : ℕ → UsageStats) (gateway : Gateway) (db : Db) (now : ℕ) (user_id : Text) (user : User)
    → IsIndexed gateway
    → user_id ≢ []
    → lookup user_id db.users ≡ some user
    → (view : UserView) × (get_user usage true gateway db now user_id ≡ ok (some view))
      × (lookup user_id (list_users_online gateway db now) ≡ some (list_columns user, view.online))
      × (view.user ≡ detail_columns user)
unfolding get_user view_user is_user_online Db.get_user
get_user-list_users_online usage gateway db now user_id user v named e =
    let (online, shown, on) = list_users_online_lem gateway db now user_id user v e in
    let view = view_user usage true gateway db now user_id (detail_columns user) in
    let counted =
      length-map (λ c. gather_status (gateway.store c) (usage c) now) (of_user gateway user_id) in
    let connected = connected_iff gateway user_id in
    let here = ltb 0 (length (of_user gateway user_id)) in
    let beating = is_user_online now user in
    let same : view.online ≡ (here || beating) = ground (arith, counted) in
    let agree : (here || beating) ≡ online =
      same_truth (here || beating) online
        (λ h. on.1 (elim (Bool-cases here) [
          | inl c ↦ inl (named, connected.0 c)
          | inr away ↦ inr (ground arith)
        ]))
        (λ h. elim (on.0 h) [ inl (_, c) ↦ rw (connected.1 c) refl | inr b ↦ ground (arith, b) ]) in
    (
      view,
      ground (arith, e),
      shown ∙ ap (λ b. some (list_columns user, b)) (sym (same ∙ agree)),
      refl,
    )

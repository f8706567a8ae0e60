-- ===== src/Gateway/Index.antt =====
-- The index of gateway/gateway.go agrees with the list of connections.
use gatewaysshd.Common.{
  ℕ, ◌≡◌, ◌≢◌, ◌↔◌, refl, sym, ◌∙◌, Bool, true, false, not, List, [], ◌∷◌, none, some, Text, ◌==◌,
  text_key, nat_key, select, Member, arith, inl, subst, ==_eq, ==_refl, Member-select,
  Member-select_keeps,
}
use gatewaysshd.Common.Dict.{Dict, Distinct, lookup, lookup-insert, insert-Distinct}
use gatewaysshd.Gateway.{
  Gateway, connections_of, add_connection, delete_connection, users_in, connected_user_ids,
}

-- The connections of a user, newest first.
abbrev pub of_user : Gateway → Text → List ℕ
of_user self user =
    select (λ connection. (self.store connection).user == user) self.connections_list

pub record IsIndexed (self : Gateway) : Type 0 where
  pub indexed : (user : Text) → connections_of self user ≡ of_user self user
  pub distinct : Distinct self.connections_index

select_swap :
    (p : ℕ → Bool) (deleted : ℕ) (xs : List ℕ)
    → select p (select (λ x. not (x == deleted)) xs)
      ≡ select (λ x. not (x == deleted)) (select p xs)
select_swap p deleted [] = refl
select_swap p deleted (x ∷ xs) = ground (arith, select_swap p deleted xs)

select_other :
    (p : ℕ → Bool) (deleted : ℕ) (xs : List ℕ)
    → p deleted ≡ false
    → select (λ x. not (x == deleted)) (select p xs) ≡ select p xs
select_other p deleted [] h = refl
select_other p deleted (x ∷ xs) h = ground (arith, select_other p deleted xs)

-- Publishing a connection keeps the index equal to the list, seen user by user, and holds no user
-- twice.
pub add_connection-IsIndexed :
    (self : Gateway) (added : ℕ) → IsIndexed self → IsIndexed (add_connection self added)
unfolding add_connection connections_of
add_connection-IsIndexed self added v = record {
  indexed = λ user. ground (
    arith,
    v.indexed user,
    v.indexed (self.store added).user,
    lookup-insert (self.store added).user user (added ∷ connections_of self (self.store added).user)
        self.connections_index,
  );
  distinct = insert-Distinct _ _ self.connections_index v.distinct;
}

-- Removing a connection keeps the index equal to the list, seen user by user, and holds no user
-- twice, also when the user's last connection goes.
pub delete_connection-IsIndexed :
    (self : Gateway) (deleted : ℕ) → IsIndexed self → IsIndexed (delete_connection self deleted)
unfolding delete_connection connections_of
delete_connection-IsIndexed self deleted v = record {
  indexed = λ user. ground (
    arith,
    v.indexed user,
    v.indexed (self.store deleted).user,
    select_swap (λ connection. (self.store connection).user == user) deleted self.connections_list,
    select_other (λ connection. (self.store connection).user == user) deleted self.connections_list,
    lookup-insert (self.store deleted).user user
        (select (λ x. not (x == deleted)) (connections_of self (self.store deleted).user))
        self.connections_index,
  );
  distinct = insert-Distinct _ _ self.connections_index v.distinct;
}

abbrev connections_at : Dict Text (List ℕ) → Text → List ℕ
connections_at index user = elim (lookup user index) [ none ↦ [] | some connections ↦ connections ]

Member-users_in :
    (user : Text) (index : Dict Text (List ℕ))
    → connections_at index user ≢ []
    → user ≢ []
    → Member user (users_in index)
unfolding users_in lookup
Member-users_in user [] full named = absurd (full refl)
Member-users_in user ((u, []) ∷ index) full named = ground (arith, Member-users_in user index)
Member-users_in user ((u, c ∷ rest) ∷ index) full named = ground (arith, Member-users_in user index)

users_in-Member :
    (user : Text) (index : Dict Text (List ℕ))
    → Distinct index
    → Member user (users_in index)
    → (user ≢ []) × (connections_at index user ≢ [])
unfolding users_in lookup
users_in-Member user [] d m = absurd m
users_in-Member user ((u, []) ∷ index) d m = ground (arith, users_in-Member user index d.1)
users_in-Member user ((u, c ∷ rest) ∷ index) d m = ground (arith, users_in-Member user index d.1)

select-ne-nil : (p : ℕ → Bool) (c : ℕ) (xs : List ℕ) → Member c xs → p c ≡ true → select p xs ≢ []
select-ne-nil p c xs m h = λ e. subst (Member c) e (Member-select_keeps p c xs m h)

nonempty : (xs : List ℕ) → xs ≢ [] → (c : ℕ) × Member c xs
nonempty [] h = absurd (h refl)
nonempty (c ∷ xs) h = (c, inl refl)

-- Where the index equals the list, the users of the heartbeat are exactly the named users that have
-- a connection on this node.
pub connected_user_ids_iff :
    (self : Gateway) (user : Text)
    → IsIndexed self
    → Member user (connected_user_ids self)
      ↔ ((user ≢ []) × ((c : ℕ) × Member c self.connections_list × ((self.store c).user ≡ user)))
unfolding connected_user_ids connections_of
connected_user_ids_iff self user v = (
  (λ m.
      let (named, full) = users_in-Member user self.connections_index v.distinct m in
      let (c, held) = nonempty (of_user self user) (λ e. full (v.indexed user ∙ e)) in
      let (listed, e) =
        Member-select (λ x. (self.store x).user == user) c self.connections_list held in
      (named, (c, listed, ==_eq _ _ e))),
  (λ (named, (c, listed, e)).
      Member-users_in user self.connections_index
        (λ none_left.
          select-ne-nil (λ x. (self.store x).user == user) c self.connections_list listed
            (rw e (==_refl user)) (sym (v.indexed user) ∙ none_left))
        named),
)

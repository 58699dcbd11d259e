-- ===== src/Guard/Keys.antt =====
-- Which callers share a window.
use dbbuddy.Base.{
  ◌≡◌, ◌↔◌, refl, ap, false, Option, none, some, Option-cases, [], ◌∷◌, ◌++◌, Text, codes, empty,
  inl, inr,
}
use dbbuddy.Guard.{bearer_token, budget_key}

-- A caller whose token does not verify is counted with the callers of its address that show none.
pub budget_key-unverified :
    (decode : Text → Option Text) (budget authorization : Text) (client_ip : Option Text)
    → ((token : Text) → bearer_token authorization ≡ some token → decode token ≡ none)
    → budget_key decode budget (some authorization) client_ip
      ≡ budget_key decode budget none client_ip
unfolding budget_key
budget_key-unverified decode budget authorization client_ip h =
    elim (Option-cases (bearer_token authorization)) [
      | inl e ↦ rw (e, budget_key) refl
      | inr r ↦ rw (r.1, budget_key) (rw (h r.0 r.1) refl)
    ]

append-injective : (front t u : Text) → front ++ t ≡ front ++ u → t ≡ u
append-injective [] t u h = h
append-injective (c ∷ front) t u h = append-injective front t u cc

user_key :
    (decode : Text → Option Text) (budget a s u : Text) (ip : Option Text)
    → bearer_token a ≡ some s
    → decode s ≡ some u
    → empty u ≡ false
    → budget_key decode budget (some a) ip
      ≡ codes "rl::" ++ (budget ++ (codes "::" ++ (codes "user:" ++ u)))
unfolding budget_key
user_key decode budget a s u ip ha hs hu = rw (ha, budget_key) (rw hs (rw hu refl))

-- Two callers with verified tokens share a window exactly when they are the same subject.
pub budget_key-user :
    (decode : Text → Option Text) (budget a b s t u v : Text) (ip ip' : Option Text)
    → bearer_token a ≡ some s
    → decode s ≡ some u
    → empty u ≡ false
    → bearer_token b ≡ some t
    → decode t ≡ some v
    → empty v ≡ false
    → (budget_key decode budget (some a) ip ≡ budget_key decode budget (some b) ip') ↔ (u ≡ v)
budget_key-user decode budget a b s t u v ip ip' ha hs hu hb ht hv =
    rw (user_key decode budget a s u ip ha hs hu) (
      rw (user_key decode budget b t v ip' hb ht hv) (
        (λ e. append-injective (codes "::user:") u v (
            append-injective budget (codes "::user:" ++ u) (codes "::user:" ++ v) (
              append-injective (codes "rl::") (budget ++ (codes "::user:" ++ u))
                (budget ++ (codes "::user:" ++ v)) e))),
        (λ e. ap (λ w. codes "rl::" ++ (budget ++ (codes "::user:" ++ w))) e),
      ))

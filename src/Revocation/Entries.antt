-- ===== src/Revocation/Entries.antt =====
-- What a write to the entries of the cache leaves there.
use dbbuddy.Base.{
  ℕ, ◌≤◌, ◌≡◌, true, ltb, if◌then◌else◌, some, String, ◌=ₛ◌, List, [], ◌∷◌, keep, length,
  length-map, Holds, Holds-append, arith,
}
use dbbuddy.Base.Equality.{string_eq}
use dbbuddy.Base.Distinct.{Distinct, is_in, Distinct-append-one, length-Distinct-le}
use dbbuddy.Base.Dict.{
  Dict, get, remove, keys, get-remove, get-append, keys-append, Holds-keys-remove,
  keys_remove-others, Distinct-keys-remove,
}
use dbbuddy.Revocation.{Entry, Cache, touch, evict, drop_oldest}

pub get-touch :
    (user other : String) (e : Entry) (m : Dict Entry)
    → get other (touch user e m) ≡ (if user =ₛ other then some e else get other m)
unfolding touch get
get-touch user other e m =
    ground (arith, get-append other (remove user m) ((user, e) ∷ []), get-remove user other m)

-- No user is there twice, and all are among the given ones.
abbrev pub AreUsers : List String → Dict Entry → Type 0
AreUsers users m = Distinct (keys m) × Holds (λ u. is_in u users ≡ true) (keys m)

pub remove-AreUsers :
    (users : List String) (user : String) (m : Dict Entry)
    → AreUsers users m
    → AreUsers users (remove user m)
remove-AreUsers users user m h =
    (Distinct-keys-remove user m h.0, Holds-keys-remove (λ u. is_in u users ≡ true) user m h.1)

pub touch-AreUsers :
    (users : List String) (user : String) (e : Entry) (m : Dict Entry)
    → is_in user users ≡ true
    → AreUsers users m
    → AreUsers users (touch user e m)
unfolding touch
touch-AreUsers users user e m k h =
    let rest = remove-AreUsers users user m h in
    rw (keys-append (remove user m) ((user, e) ∷ [])) (
      Distinct-append-one (keys (remove user m)) user rest.0 (keys_remove-others user m),
      Holds-append (λ u. is_in u users ≡ true) (keys (remove user m)) (user ∷ []) rest.1 (k, tt),
    )

pub evict-small :
    (users : List String) (max now : ℕ) (c : Cache)
    → AreUsers users c.entries
    → length users ≤ max
    → evict max now c ≡ c
unfolding evict
evict-small users max now c h l =
    let few = length-Distinct-le users (keys c.entries) h.0 h.1 in
    let small : length c.entries ≤ max =
      omega (arith, length-map (λ (e : String × Entry). e.0) c.entries) in
    ground arith

length-drop_oldest-le : (max : ℕ) (m : Dict Entry) → length (drop_oldest max m) ≤ max
unfolding drop_oldest
length-drop_oldest-le max [] = omega arith
length-drop_oldest-le max (e ∷ m) = ground (arith, length-drop_oldest-le max m)

pub length-evict-le : (max now : ℕ) (c : Cache) → length (evict max now c).entries ≤ max
unfolding evict
length-evict-le max now c =
    ground (arith, length-drop_oldest-le max (keep (λ e. ltb now e.1.expires_at) c.entries))

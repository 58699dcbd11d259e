-- ===== src/Slots/System/Ceiling.antt =====
-- The ceiling: however the workers interleave, live leases on a target never outnumber the limit.
use dbbuddy.Base.{
  ℕ, ◌+◌, ◌≤◌, ◌<◌, ◌≡◌, ◌≢◌, refl, ap, true, false, not, leb, leb→le, String, ◌=ₛ◌, eq_iff, List,
  [], ◌∷◌, map, any, some, length, Holds, arith, Bool-cases, inl, inr, keep-true, keep-false,
  Holds-keep,
}
use dbbuddy.Base.Distinct.{Distinct, Distinct-map-keep}
use dbbuddy.Slots.Redis.{SortedSets, IsPresent}
use dbbuddy.Slots.System.{
  acquire_transaction, release, Holder, World, same_token, others, Step, tick, admit, refuse,
  back_out, finish, die, key_expires, Reach, here, next, is_live, live,
}

abbrev pub tokens : List Holder → List String
tokens = map (λ h. h.token)

fresh-ne :
    (token : String) (hs : List Holder)
    → any (same_token token) hs ≡ false
    → Holds (λ u. token ≢ u) (tokens hs)
fresh-ne token [] h = tt
fresh-ne token (x ∷ hs) h =
    ((λ e. ground (arith, eq_iff x.token token)), fresh-ne token hs (ground arith))

length-tokens : (hs : List Holder) → length (tokens hs) ≡ length hs
length-tokens [] = refl
length-tokens (x ∷ hs) = omega (arith, length-tokens hs)

length-live-tick :
    (k : String) (c n : ℕ) (hs : List Holder) → length (live k (c + n) hs) ≤ length (live k c hs)
length-live-tick k c n [] = omega arith
length-live-tick k c n (x ∷ hs) = ground (arith, length-live-tick k c n hs)

length-live-others :
    (k : String) (c : ℕ) (token : String) (hs : List Holder)
    → length (live k c (others token hs)) ≤ length (live k c hs)
length-live-others k c token [] = omega arith
length-live-others k c token (x ∷ hs) = ground (arith, length-live-others k c token hs)

module _ (redis : SortedSets) (limit lease : ℕ) where
  open redis use {
    Store, score, zadd, zrem, zremrangebyscore, zcard, score_zadd, score_zrem,
    score_zremrangebyscore, zcard_counts,
  }

  -- A lease that has not run out has its entry.
  abbrev pub InStore : ℕ → Store → Holder → Type 0
  InStore c s h = c < h.expires → score h.target h.token s ≡ some h.expires

  pub record Inv (w : World redis) : Type 0 where
    pub stored : Holds (InStore w.clock w.store) w.holders
    pub distinct : Distinct (tokens w.holders)
    pub bounded : (k : String) → length (live k w.clock w.holders) ≤ limit

  live-IsPresent :
      (k : String) (c : ℕ) (s : Store) (hs : List Holder)
      → Holds (InStore c s) hs
      → Holds (λ t. IsPresent (score k t s)) (tokens (live k c hs))
  live-IsPresent k c s [] h = tt
  live-IsPresent k c s (x ∷ hs) h = elim (Bool-cases (is_live k c x)) [
    | inl e ↦
        rw (keep-true (is_live k c) x hs e)
          ((λ p. ground (arith, h.0, eq_iff x.target k)), live-IsPresent k c s hs h.1)
    | inr e ↦ rw (keep-false (is_live k c) x hs e) (live-IsPresent k c s hs h.1)
  ]

  live-le-zcard :
      (k : String) (c : ℕ) (s : Store) (hs : List Holder)
      → Holds (InStore c s) hs
      → Distinct (tokens hs)
      → length (live k c hs) ≤ zcard k s
  live-le-zcard k c s hs h d = omega (
    arith,
    length-tokens (live k c hs),
    zcard_counts k (tokens (live k c hs)) s (Distinct-map-keep (λ h. h.token) (is_live k c) hs d)
        (live-IsPresent k c s hs h),
  )

  prune-InStore :
      (target : String) (now c : ℕ) (s : Store) (hs : List Holder)
      → now ≤ c
      → Holds (InStore c s) hs
      → Holds (InStore c (zremrangebyscore target now s)) hs
  prune-InStore target now c s [] le h = tt
  prune-InStore target now c s (x ∷ hs) le h = (
    (λ l. ground (arith, score_zremrangebyscore target x.target x.token now s, h.0)),
    prune-InStore target now c s hs le h.1,
  )

  add-InStore :
      (target token : String) (e c : ℕ) (s : Store) (hs : List Holder)
      → any (same_token token) hs ≡ false
      → Holds (InStore c s) hs
      → Holds (InStore c (zadd target token e s)) hs
  add-InStore target token e c s [] f h = tt
  add-InStore target token e c s (x ∷ hs) f h = (
    (λ l. ground (
      arith,
      score_zadd target x.target token x.token e s,
      h.0,
      eq_iff x.token token,
      eq_iff token x.token,
    )),
    add-InStore target token e c s hs (ground arith) h.1,
  )

  remove-InStore :
      (target token : String) (c : ℕ) (s : Store) (hs : List Holder)
      → any (same_token token) hs ≡ false
      → Holds (InStore c s) hs
      → Holds (InStore c (zrem target token s)) hs
  remove-InStore target token c s [] f h = tt
  remove-InStore target token c s (x ∷ hs) f h = (
    (λ l. ground (
      arith,
      score_zrem target x.target token x.token s,
      h.0,
      eq_iff x.token token,
      eq_iff token x.token,
    )),
    remove-InStore target token c s hs (ground arith) h.1,
  )

  others-none :
      (token : String) (hs : List Holder) → any (same_token token) (others token hs) ≡ false
  others-none token [] = refl
  others-none token (x ∷ hs) = ground (arith, others-none token hs)

  tick-InStore :
      (n c : ℕ) (s : Store) (hs : List Holder)
      → Holds (InStore c s) hs
      → Holds (InStore (c + n) s) hs
  tick-InStore n c s [] h = tt
  tick-InStore n c s (x ∷ hs) h = ((λ l. h.0 (omega arith)), tick-InStore n c s hs h.1)

  finish-stored :
      (target token : String) (c : ℕ) (s : Store) (hs : List Holder)
      → Holds (InStore c s) hs
      → Holds (InStore c (zrem target token s)) (others token hs)
  finish-stored target token c s hs h =
      remove-InStore target token c s (others token hs) (others-none token hs)
        (Holds-keep (InStore c s) (λ x. not (same_token token x)) hs h)

  module _ {w : World redis} (v : Inv w) where
    live-others : (token k : String) → length (live k w.clock (others token w.holders)) ≤ limit
    live-others token k = omega (arith, length-live-others k w.clock token w.holders, v.bounded k)

    Distinct-others : (token : String) → Distinct (tokens (others token w.holders))
    Distinct-others token =
        Distinct-map-keep (λ h. h.token) (λ x. not (same_token token x)) w.holders v.distinct

    module _ (target token : String) (now : ℕ) (old : now ≤ w.clock)
        (new : any (same_token token) w.holders ≡ false) where
      abbrev after : Store
      after = zadd target token (now + lease) (zremrangebyscore target now w.store)

      transaction-stored : Holds (InStore w.clock after) w.holders
      transaction-stored =
          add-InStore target token (now + lease) w.clock (zremrangebyscore target now w.store)
            w.holders new (prune-InStore target now w.clock w.store w.holders old v.stored)

      abbrev joined : List Holder
      joined = record { target = target; token = token; expires = now + lease } ∷ w.holders

      joined-stored : Holds (InStore w.clock after) joined
      joined-stored = (
        (λ l. ground (
          arith,
          score_zadd target target token token (now + lease) (zremrangebyscore target now w.store),
          eq_iff target target,
          eq_iff token token,
        )),
        transaction-stored,
      )

      joined-Distinct : Distinct (tokens joined)
      joined-Distinct = (fresh-ne token w.holders new, v.distinct)

      joined-bounded :
          leb (zcard target after) limit ≡ true
          → (k : String) → length (live k w.clock joined) ≤ limit
      joined-bounded fits k = elim (Bool-cases (target =ₛ k)) [
        | inl e ↦ omega (
          arith,
          leb→le (zcard target after) limit fits,
          live-le-zcard k w.clock after joined joined-stored joined-Distinct,
          ap (λ j. zcard j after) ((eq_iff target k).0 e),
        )
        | inr e ↦ ground (arith, v.bounded k)
      ]

  -- Whatever one worker does keeps the ceiling.
  Step-Inv : {w u : World redis} → Step redis limit lease w u → Inv w → Inv u
  unfolding acquire_transaction release
  Step-Inv {w} (tick n) v = record {
    stored = tick-InStore n w.clock w.store w.holders v.stored;
    distinct = v.distinct;
    bounded = λ k. omega (arith, length-live-tick k w.clock n w.holders, v.bounded k);
  }
  Step-Inv (admit target token now old new _ fits) v = record {
    stored = joined-stored v target token now old new;
    distinct = joined-Distinct v target token now old new;
    bounded = joined-bounded v target token now old new fits;
  }
  Step-Inv (refuse target token now old new _ full) v = record {
    stored = transaction-stored v target token now old new;
    distinct = v.distinct;
    bounded = v.bounded;
  }
  Step-Inv {w} (back_out target token new) v = record {
    stored = remove-InStore target token w.clock w.store w.holders new v.stored;
    distinct = v.distinct;
    bounded = v.bounded;
  }
  Step-Inv {w} (finish target token) v = record {
    stored = finish-stored target token w.clock w.store w.holders v.stored;
    distinct = Distinct-others v token;
    bounded = live-others v token;
  }
  Step-Inv {w} (die token) v = record {
    stored =
        Holds-keep (InStore w.clock w.store) (λ x. not (same_token token x)) w.holders v.stored;
    distinct = Distinct-others v token;
    bounded = live-others v token;
  }
  Step-Inv {w} (key_expires target) v = record {
    stored = prune-InStore target w.clock w.clock w.store w.holders (omega arith) v.stored;
    distinct = v.distinct;
    bounded = v.bounded;
  }

  Reach-Inv : {w u : World redis} → Inv w → Reach redis limit lease w u → Inv u
  Reach-Inv v here = v
  Reach-Inv v (next r st) = Step-Inv st (Reach-Inv v r)

  -- From a start with no holders, whatever the set already holds, after any interleaving of the
  -- workers' transactions, retries, releases and deaths, the slots of a target that are held under
  -- a lease that has not run out number at most the limit.
  pub live-le-limit :
      (s : Store) (clock : ℕ) (w : World redis)
      → Reach redis limit lease (record { store = s; clock = clock; holders = []; leaving = [] }) w
      → (target : String) → length (live target w.clock w.holders) ≤ limit
  live-le-limit s clock w r =
      (Reach-Inv (record { stored = tt; distinct = tt; bounded = λ k. omega arith }) r).bounded

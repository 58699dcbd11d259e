-- ===== src/Revocation/Fresh.antt =====
-- While there are no more users than the cache may hold, no account state that was revoked is served.
use dbbuddy.Base.{
  ℕ, ◌+◌, ◌-◌, ◌≤◌, ◌≡◌, refl, ◌∙◌, subst, Bool, true, false, ◌==◌, if◌then◌else◌, Option, none,
  some, Option-cases, String, ◌=ₛ◌, eq_iff, List, ◌∷◌, length, arith, Bool-cases, inl, inr, ◌⊎◌,
}
use dbbuddy.Base.Equality.{string_eq}
use dbbuddy.Base.Distinct.{is_in}
use dbbuddy.Base.Dict.{Dict, get, put, remove, get-put, get-remove}
use dbbuddy.Revocation.{
  State, Entry, Cache, generation_of, touch, hit, fresh_entry, begin, resume, land, publish,
  invalidate, check_state,
}
use dbbuddy.Revocation.World.{
  Reader, idle, waiting, reading, fetched, ready, World, at, for_user, after_begin, after_resume,
  Step, begins, resumes, fetches, fails, lands, publishes, commits, invalidates, Reaches, stay,
  step_on, IsStart,
}
use dbbuddy.Revocation.Entries.{get-touch, AreUsers, remove-AreUsers, touch-AreUsers, evict-small}

pub found_entry :
    (user : String) (now : ℕ) (m : Dict Entry) (e : Entry)
    → fresh_entry user now m ≡ some e
    → get user m ≡ some e
unfolding fresh_entry
found_entry user now m e h = ground (arith, h)

module _ (users : List String) where
  -- What a reader holds: a generation of its user that was current, and if it still is and no
  -- invalidation is due, the state that the database has.
  abbrev Holding : World → String → ℕ → Option State → Type 0
  Holding w user generation state =
      (is_in user users ≡ true)
      × (generation ≤ generation_of user w.cache)
      × (generation ≡ generation_of user w.cache → w.pending user ≡ 0 → w.db user ≡ state)

  abbrev Sound : World → Reader → Type 0
  Sound w idle = Unit
  Sound w (waiting user) = is_in user users ≡ true
  Sound w (reading user generation leader) =
      (is_in user users ≡ true) × (generation ≤ generation_of user w.cache)
  Sound w (fetched user generation state leader) = Holding w user generation state
  Sound w (ready user generation state) = Holding w user generation state

  -- Entries of users, each with the database's state unless an invalidation is due.
  abbrev AreFresh : World → Dict Entry → Type 0
  AreFresh w m =
      AreUsers users m
      × ((user : String) (e : Entry)
          → get user m ≡ some e
          → w.pending user ≡ 0
          → w.db user ≡ some e.state)

  record Inv (w : World) : Type 0 where
    entries : AreFresh w w.cache.entries
    readers : (i : ℕ) → Sound w (w.reader i)

  -- What a step may do to a user: raise the generation, or else leave the account as it was unless
  -- an invalidation is due.
  record Advances (w v : World) : Type 0 where
    rises : (user : String) → generation_of user w.cache ≤ generation_of user v.cache
    keeps :
        (user : String)
        → generation_of user v.cache ≡ generation_of user w.cache
        → v.pending user ≡ 0
        → (w.pending user ≡ 0) × (v.db user ≡ w.db user)

  Holding-Advances :
      (w v : World) (user : String) (generation : ℕ) (state : Option State)
      → Advances w v
      → Holding w user generation state
      → Holding v user generation state
  Holding-Advances w v user generation state a h = (
    h.0,
    omega (arith, h.1, a.rises user),
    λ e p.
        let same_generation : generation_of user v.cache ≡ generation_of user w.cache =
          omega (arith, h.1, a.rises user, e) in
        let kept = a.keeps user same_generation p in kept.1 ∙ h.2 (e ∙ same_generation) kept.0,
  )

  Sound-Advances : (w v : World) (r : Reader) → Advances w v → Sound w r → Sound v r
  Sound-Advances w v idle a h = tt
  Sound-Advances w v (waiting user) a h = h
  Sound-Advances w v (reading user generation leader) a h = (h.0, omega (arith, h.1, a.rises user))
  Sound-Advances w v (fetched user generation state leader) a h =
      Holding-Advances w v user generation state a h
  Sound-Advances w v (ready user generation state) a h =
      Holding-Advances w v user generation state a h

  at-Sound :
      (v : World) (i : ℕ) (r : Reader) (f : ℕ → Reader)
      → Sound v r
      → ((j : ℕ) → Sound v (f j))
      → (j : ℕ) → Sound v (at i r f j)
  at-Sound v i r f h k j = elim (Bool-cases (i == j)) [ inl b ↦ rw b h | inr b ↦ rw b (k j) ]

  -- A step of one reader that leaves the accounts and the generations as they are.
  quiet-Inv :
      (w : World) (i : ℕ) (r : Reader) (c : Cache)
      → Inv w
      → c.gens ≡ w.cache.gens
      → AreFresh w c.entries
      → Sound (record w { cache = c }) r
      → Inv (record w { cache = c; reader = at i r w.reader })
  quiet-Inv w i r c h g e s =
      let v : World = record w { cache = c; reader = at i r w.reader } in
      let a : Advances w v = record {
        rises = λ user. rw g (omega arith);
        keeps = λ user x p. (p, refl);
      } in
      record {
        entries = e;
        readers = at-Sound v i r w.reader s (λ j. Sound-Advances w v (w.reader j) a (h.readers j));
      }

  touch-AreFresh :
      (w : World) (user : String) (e : Entry)
      → is_in user users ≡ true
      → (w.pending user ≡ 0 → w.db user ≡ some e.state)
      → AreFresh w w.cache.entries
      → AreFresh w (touch user e w.cache.entries)
  touch-AreFresh w user e k s h = (
    touch-AreUsers users user e w.cache.entries k h.0,
    λ other d g p. elim (Bool-cases (user =ₛ other)) [
      | inl b ↦
          let same_user : user ≡ other = (eq_iff user other).0 b in
          let same_entry : e ≡ d = ground (arith, get-touch user other e w.cache.entries, b, g) in
          rw (← same_user, ← same_entry) (s (rw same_user p))
      | inr b ↦ h.1 other d (ground (arith, get-touch user other e w.cache.entries, b, g)) p
    ],
  )

  module _ (w : World) (i : ℕ) (user : String) (now : ℕ) (h : Inv w)
      (known : is_in user users ≡ true) where
    hit-Inv :
        (e : Entry)
        → fresh_entry user now w.cache.entries ≡ some e
        → Inv (record w {
          cache = record w.cache { entries = touch user e w.cache.entries };
          reader = at i idle w.reader;
        })
    hit-Inv e f =
        quiet-Inv w i idle (record w.cache { entries = touch user e w.cache.entries }) h refl
          (touch-AreFresh w user e known
            (h.entries.1 user e (found_entry user now w.cache.entries e f)) h.entries)
          tt

    begins-Inv : Inv (record w {
      cache = (begin user now w.cache).0;
      reader = at i (after_begin user (begin user now w.cache).1) w.reader;
    })
    unfolding begin
    begins-Inv = elim (Option-cases (fresh_entry user now w.cache.entries)) [
      | inr (e, f) ↦ rw (f, begin) (hit-Inv e f)
      | inl f ↦ elim (Bool-cases (is_in user w.cache.flights)) [
        | inl b ↦ rw (f, b, begin) (quiet-Inv w i (waiting user) w.cache h refl h.entries known)
        | inr b ↦
            rw (f, b, begin)
              (quiet-Inv w i (reading user (generation_of user w.cache) true)
                (record w.cache { flights = user ∷ w.cache.flights }) h refl h.entries
                (known, omega arith))
      ]
    ]

    resumes-Inv : Inv (record w {
      cache = (resume user now w.cache).0;
      reader = at i (after_resume user (resume user now w.cache).1) w.reader;
    })
    unfolding resume
    resumes-Inv = elim (Option-cases (fresh_entry user now w.cache.entries)) [
      | inr (e, f) ↦ rw (f, resume) (hit-Inv e f)
      | inl f ↦
          rw (f, resume)
            (quiet-Inv w i (reading user (generation_of user w.cache) false) w.cache h refl
              h.entries (known, omega arith))
    ]

  land-Inv :
      (w : World) (i : ℕ) (user : String) (leader : Bool) (r : Reader)
      → Inv w
      → Sound w r
      → Inv (record w { cache = land leader user w.cache; reader = at i r w.reader })
  unfolding land
  land-Inv w i user true r h s = quiet-Inv w i r (land true user w.cache) h refl h.entries (
      Sound-Advances w (record w { cache = land true user w.cache }) r
        (record { rises = λ u. omega arith; keeps = λ u x p. (p, refl) }) s)
  land-Inv w i user false r h s = quiet-Inv w i r w.cache h refl h.entries s

  module _ (ttl max : ℕ) (few : length users ≤ max) where
    publish-AreFresh :
        (w : World) (user : String) (generation : ℕ) (state : Option State) (now later : ℕ)
        → Inv w
        → Holding w user generation state
        → ((publish ttl max user generation state now later w.cache).gens ≡ w.cache.gens)
          × AreFresh w (publish ttl max user generation state now later w.cache).entries
    unfolding publish
    publish-AreFresh w user generation none now later h k = (refl, h.entries)
    publish-AreFresh w user generation (some state) now later h k =
        elim (Bool-cases (generation_of user w.cache == generation)) [
          | inr b ↦ rw (b, publish) (refl, h.entries)
          | inl b ↦
              let e : Entry = record { expires_at = now + ttl; state = state } in
              let current : generation ≡ generation_of user w.cache = ground (arith, b) in
              let after = touch-AreFresh w user e k.0 (k.2 current) h.entries in
              let c : Cache = record w.cache { entries = touch user e w.cache.entries } in
              rw (b, publish, evict-small users max later c after.0 few) (refl, after)
        ]

    publishes-Inv :
        (w : World) (i : ℕ) (user : String) (generation : ℕ) (state : Option State) (now later : ℕ)
        → Inv w
        → Holding w user generation state
        → Inv (record w {
          cache = publish ttl max user generation state now later w.cache;
          reader = at i idle w.reader;
        })
    publishes-Inv w i user generation state now later h k =
        let p = publish-AreFresh w user generation state now later h k in
        quiet-Inv w i idle (publish ttl max user generation state now later w.cache) h p.0 p.1 tt

  commits-Inv :
      (w : World) (user : String) (state : Option State)
      → Inv w
      → Inv (record w {
        db = for_user user state w.db;
        pending = for_user user (w.pending user + 1) w.pending;
      })
  commits-Inv w user state h =
      let v : World = record w {
        db = for_user user state w.db;
        pending = for_user user (w.pending user + 1) w.pending;
      } in
      let a : Advances w v = record {
        rises = λ u. omega arith;
        keeps = λ u x p. elim (Bool-cases (user =ₛ u)) [
          | inl b ↦ absurd (ground (arith, b, p))
          | inr b ↦ (ground (arith, b, p), ground (arith, b))
        ];
      } in
      record {
        entries = (
          h.entries.0,
          λ u e g p. let kept = a.keeps u refl p in kept.1 ∙ h.entries.1 u e g kept.0,
        );
        readers = λ j. Sound-Advances w v (w.reader j) a (h.readers j);
      }

  invalidates-Inv :
      (w : World) (user : String)
      → (user =ₛ "") ≡ false
      → Inv w
      → Inv (record w {
        cache = invalidate user w.cache;
        pending = for_user user (w.pending user - 1) w.pending;
      })
  unfolding invalidate
  invalidates-Inv w user named h =
      let c : Cache = record w.cache {
        entries = remove user w.cache.entries;
        gens = put user (generation_of user w.cache + 1) w.cache.gens;
      } in
      let v : World = record w {
        cache = c;
        pending = for_user user (w.pending user - 1) w.pending;
      } in
      let raised : (u : String)
          → generation_of u c
            ≡ (if user =ₛ u then generation_of user w.cache + 1 else generation_of u w.cache) =
        λ u. ground (arith, get-put user u (generation_of user w.cache + 1) w.cache.gens) in
      let a : Advances w v = record {
        rises = λ u. ground (arith, raised u, eq_iff user u);
        keeps = λ u x p. elim (Bool-cases (user =ₛ u)) [
          | inl b ↦ absurd (ground (arith, b, x, raised u, eq_iff user u))
          | inr b ↦ (ground (arith, b, p), refl)
        ];
      } in
      rw (named, invalidate)
        (record {
          entries = (
            remove-AreUsers users user w.cache.entries h.entries.0,
            λ u e g p. elim (Bool-cases (user =ₛ u)) [
              | inl b ↦ absurd (ground (arith, b, g, get-remove user u w.cache.entries))
              | inr b ↦
                  h.entries.1 u e (ground (arith, b, g, get-remove user u w.cache.entries))
                    (ground (arith, b, p))
            ],
          );
          readers = λ j. Sound-Advances w v (w.reader j) a (h.readers j);
        })

  Step-Inv :
      (ttl max : ℕ) (w v : World) → length users ≤ max → Step ttl max users w v → Inv w → Inv v
  Step-Inv ttl max w v few (begins i user now e known named) h = begins-Inv w i user now h known
  Step-Inv ttl max w v few (resumes i user now e) h =
      resumes-Inv w i user now h (subst (Sound w) e (h.readers i))
  Step-Inv ttl max w v few (fetches i user generation leader e) h =
      let s = subst (Sound w) e (h.readers i) in
      quiet-Inv w i (fetched user generation (w.db user) leader) w.cache h refl h.entries
        (s.0, s.1, λ x p. refl)
  Step-Inv ttl max w v few (fails i user generation leader e) h = land-Inv w i user leader idle h tt
  Step-Inv ttl max w v few (lands i user generation state leader e) h =
      land-Inv w i user leader (ready user generation state) h (subst (Sound w) e (h.readers i))
  Step-Inv ttl max w v few (publishes i user generation state now later e) h =
      publishes-Inv ttl max few w i user generation state now later h
        (subst (Sound w) e (h.readers i))
  Step-Inv ttl max w v few (commits user state) h = commits-Inv w user state h
  Step-Inv ttl max w v few (invalidates user named) h = invalidates-Inv w user named h

  Reaches-Inv :
      (ttl max : ℕ) (w v : World) → length users ≤ max → Inv w → Reaches ttl max users w v → Inv v
  Reaches-Inv ttl max w v few h stay = h
  Reaches-Inv ttl max w v few h (step_on u end r s) =
      Step-Inv ttl max u end few s (Reaches-Inv ttl max w u few h r)

  start-Inv : (w : World) → IsStart w → Inv w
  unfolding get
  start-Inv w s = record {
    entries = rw s.no_entries ((tt, tt), λ u e g p. cc);
    readers = λ i. rw (s.no_readers i) tt;
  }

-- The fast path of `_account_state` or the look after the wait answers with this state.
abbrev pub Answers : String → ℕ → Cache → State → Type 0
Answers user now c state = ((begin user now c).1 ≡ hit state) ⊎ ((resume user now c).1 ≡ hit state)

answered_entry :
    (user : String) (now : ℕ) (c : Cache) (state : State)
    → Answers user now c state
    → (e : Entry) × (get user c.entries ≡ some e) × (e.state ≡ state)
unfolding begin resume
answered_entry user now c state h = elim (Option-cases (fresh_entry user now c.entries)) [
  | inl f ↦ absurd (ground (arith, f, h))
  | inr (e, f) ↦ (e, found_entry user now c.entries e f, ground (arith, f, h))
]

-- From a process that has just started, and where all users together are no more than the cache may
-- hold: after any interleaving of readers, commits and invalidations, if each committed change of
-- an account was followed by an invalidation here, and a look into the cache answers with a state
-- that lets a token's version pass, then the account is active in the database with that version.
pub passes-IsActive :
    (ttl max : ℕ) (users : List String) (w v : World) (user : String) (now tv : ℕ) (state : State)
    → length users ≤ max
    → IsStart w
    → Reaches ttl max users w v
    → v.pending user ≡ 0
    → Answers user now v.cache state
    → check_state tv (some state) ≡ none
    → v.db user ≡ some (tv, true)
unfolding check_state
passes-IsActive ttl max users w v user now tv state few s r p a c =
    let inv = Reaches-Inv users ttl max w v few (start-Inv users w s) r in
    let (e, found, same_state) = answered_entry user now v.cache state a in
    let current : v.db user ≡ some e.state = inv.entries.1 user e found p in
    ground (arith, current, same_state, c)

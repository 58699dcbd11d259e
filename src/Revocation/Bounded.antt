-- ===== src/Revocation/Bounded.antt =====
-- The cache never holds more entries than its maximum.
use dbbuddy.Base.{
  ℕ, ◌+◌, ◌≤◌, ◌<◌, ◌≡◌, Bool, true, false, Option, none, some, Option-cases, String, ◌=ₛ◌, List,
  [], ◌∷◌, length, length-append, arith, Bool-cases, inl, inr,
}
use dbbuddy.Base.Equality.{string_eq}
use dbbuddy.Base.Distinct.{is_in}
use dbbuddy.Base.Dict.{Dict, get, remove, length-remove-le}
use dbbuddy.Revocation.{
  State, Entry, Cache, touch, fresh_entry, begin, resume, land, publish, invalidate,
}
use dbbuddy.Revocation.World.{
  World, Step, begins, resumes, fetches, fails, lands, publishes, commits, invalidates, Reaches,
  stay, step_on, IsStart,
}
use dbbuddy.Revocation.Entries.{length-evict-le}
use dbbuddy.Revocation.Fresh.{found_entry}

length-remove-lt :
    (user : String) (e : Entry) (m : Dict Entry)
    → get user m ≡ some e
    → length (remove user m) < length m
unfolding get remove
length-remove-lt user e [] h = cc
length-remove-lt user e ((u, d) ∷ m) h = elim (Bool-cases (u =ₛ user)) [
  | inl b ↦ rw (b, remove) (omega (arith, length-remove-le user m))
  | inr b ↦
      let rest = length-remove-lt user e m (ground (arith, h, b)) in rw (b, remove) (omega arith)
]

length-touch-le :
    (user : String) (e d : Entry) (m : Dict Entry)
    → get user m ≡ some d
    → length (touch user e m) ≤ length m
unfolding touch
length-touch-le user e d m h =
    omega (arith, length-append (remove user m) ((user, e) ∷ []), length-remove-lt user d m h)

module _ (max : ℕ) (user : String) (now : ℕ) (c : Cache) (h : length c.entries ≤ max) where
  begin_le : length (begin user now c).0.entries ≤ max
  unfolding begin
  begin_le = elim (Option-cases (fresh_entry user now c.entries)) [
    | inr (e, f) ↦
        let touched = length-touch-le user e e c.entries (found_entry user now c.entries e f) in
        rw (f, begin) (omega arith)
    | inl f ↦ elim (Bool-cases (is_in user c.flights)) [
      | inl b ↦ rw (f, b, begin) h
      | inr b ↦ rw (f, b, begin) h
    ]
  ]

  resume_le : length (resume user now c).0.entries ≤ max
  unfolding resume
  resume_le = elim (Option-cases (fresh_entry user now c.entries)) [
    | inr (e, f) ↦
        let touched = length-touch-le user e e c.entries (found_entry user now c.entries e f) in
        rw (f, resume) (omega arith)
    | inl f ↦ rw (f, resume) h
  ]

  land_le : (leader : Bool) → length (land leader user c).entries ≤ max
  unfolding land
  land_le true = h
  land_le false = h

  invalidate_le : length (invalidate user c).entries ≤ max
  unfolding invalidate
  invalidate_le = ground (arith, length-remove-le user c.entries)

  publish_le :
      (ttl generation : ℕ) (state : Option State) (later : ℕ)
      → length (publish ttl max user generation state now later c).entries ≤ max
  unfolding publish
  publish_le ttl generation none later = h
  publish_le ttl generation (some state) later =
      let e : Entry = record { expires_at = now + ttl; state = state } in
      ground (arith, length-evict-le max later (record c { entries = touch user e c.entries }))

Step-le :
    (ttl max : ℕ) (users : List String) (w v : World)
    → Step ttl max users w v
    → length w.cache.entries ≤ max
    → length v.cache.entries ≤ max
Step-le ttl max users w v (begins i user now e known named) h = begin_le max user now w.cache h
Step-le ttl max users w v (resumes i user now e) h = resume_le max user now w.cache h
Step-le ttl max users w v (fetches i user generation leader e) h = h
Step-le ttl max users w v (fails i user generation leader e) h = land_le max user 0 w.cache h leader
Step-le ttl max users w v (lands i user generation state leader e) h =
    land_le max user 0 w.cache h leader
Step-le ttl max users w v (publishes i user generation state now later e) h =
    publish_le max user now w.cache h ttl generation state later
Step-le ttl max users w v (commits user state) h = h
Step-le ttl max users w v (invalidates user named) h = invalidate_le max user 0 w.cache h

-- From a process that has just started, and whatever the readers, the commits and the invalidations
-- do, and however many users there are, the cache never has more entries than its maximum.
pub entries-le-max :
    (ttl max : ℕ) (users : List String) (w v : World)
    → IsStart w
    → Reaches ttl max users w v
    → length v.cache.entries ≤ max
entries-le-max ttl max users w v s stay = rw s.no_entries (omega arith)
entries-le-max ttl max users w v s (step_on u end r t) =
    Step-le ttl max users u end t (entries-le-max ttl max users w u s r)

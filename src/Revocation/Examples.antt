-- ===== src/Revocation/Examples.antt =====
-- Tests of the revocation cache.
use dbbuddy.Base.{◌≤◌, ◌≡◌, refl, true, Option, some, String, List, [], ◌∷◌, length, arith, inl}
use dbbuddy.Revocation.{State, Cache, hit, begin, land, publish, invalidate, check_state, revoked}
use dbbuddy.Revocation.World.{
  idle, fetched, ready, World, at, after_begin, begins, fetches, lands, publishes, Reaches, stay,
  step_on, IsStart,
}
use dbbuddy.Revocation.Fresh.{passes-IsActive}
use dbbuddy.Revocation.Bounded.{entries-le-max}

abbrev empty_cache : Cache
empty_cache = record { entries = []; gens = []; flights = [] }

abbrev active : Option State
active = some (0, true)

abbrev old : State
old = (0, true)

-- A reader that was there before the invalidation does not write its state back.
stale_not_written : (publish 10 5 "a" 0 active 1 1 (invalidate "a" empty_cache)).entries ≡ []
unfolding publish invalidate
stale_not_written = refl

token_revoked : check_state 0 (some (1, true)) ≡ some revoked
unfolding check_state
token_revoked = refl

-- An invalidation before the commit of a deactivation: a read between the two puts the account back
-- as active.
abbrev invalidated_early : Cache
unfolding begin land publish invalidate
invalidated_early =
    publish 10 5 "a" 1 active 0 0 (land true "a" (begin "a" 0 (invalidate "a" empty_cache)).0)

deactivated_passes : (begin "a" 1 invalidated_early).1 ≡ hit old
unfolding begin land publish invalidate
deactivated_passes = refl

-- An eviction forgets the generation of a user who is being read beside the registered readers.
abbrev forgotten : Cache
unfolding publish invalidate
forgotten =
    publish 10 1 "c" 0 active 0 0 (publish 10 1 "b" 0 active 0 0 (invalidate "a" empty_cache))

stale_written : (begin "a" 1 (publish 10 1 "a" 0 active 0 0 forgotten)).1 ≡ hit old
unfolding begin publish invalidate
stale_written = refl

abbrev users : List String
users = "a" ∷ []

abbrev w0 : World
w0 = record { cache = empty_cache; db = λ u. active; pending = λ u. 0; reader = λ i. idle }

abbrev w1 : World
unfolding begin
w1 = record w0 {
  cache = (begin "a" 0 w0.cache).0;
  reader = at 0 (after_begin "a" (begin "a" 0 w0.cache).1) w0.reader;
}

abbrev w2 : World
unfolding begin
w2 = record w1 { reader = at 0 (fetched "a" 0 (w1.db "a") true) w1.reader }

abbrev w3 : World
unfolding begin
w3 = record w2 { cache = land true "a" w2.cache; reader = at 0 (ready "a" 0 active) w2.reader }

abbrev w4 : World
unfolding begin land publish
w4 = record w3 { cache = publish 10 1 "a" 0 active 0 0 w3.cache; reader = at 0 idle w3.reader }

w4-Reaches : Reaches 10 1 users w0 w4
unfolding begin land publish
w4-Reaches =
    step_on w3 w4
      (step_on w2 w3
        (step_on w1 w2 (step_on w0 w1 stay (begins 0 "a" 0 refl refl refl))
          (fetches 0 "a" 0 true refl))
        (lands 0 "a" 0 active true refl))
      (publishes 0 "a" 0 active 0 0 refl)

w0-IsStart : IsStart w0
w0-IsStart = record { no_entries = refl; no_readers = λ i. refl }

passes-IsActive_example : w4.db "a" ≡ some (0, true)
unfolding begin land publish check_state
passes-IsActive_example =
    passes-IsActive 10 1 users w0 w4 "a" 5 0 old (omega arith) w0-IsStart w4-Reaches refl (inl refl)
      refl

entries-le-max_example : length w4.cache.entries ≤ 1
entries-le-max_example = entries-le-max 10 1 users w0 w4 w0-IsStart w4-Reaches

-- ===== src/Revocation/World.antt =====
-- The readers of one process, the accounts in the database, and their revocations.
use dbbuddy.Base.{
  ℕ, ◌+◌, ◌-◌, ◌≡◌, Bool, true, false, ◌==◌, if◌then◌else◌, Option, String, ◌=ₛ◌, List, [],
}
use dbbuddy.Base.Equality.{string_eq}
use dbbuddy.Base.Distinct.{is_in}
use dbbuddy.Revocation.{
  State, Cache, Found, hit, lead, follow, begin, resume, land, publish, invalidate,
}

-- Where one call of `_account_state` is.
pub data Reader : Type 0 where
  idle : Reader
  waiting : (user : String) → Reader
  reading : (user : String) (generation : ℕ) (leader : Bool) → Reader
  fetched : (user : String) (generation : ℕ) (state : Option State) (leader : Bool) → Reader
  ready : (user : String) (generation : ℕ) (state : Option State) → Reader

-- `pending` counts the changes of an account that are committed and whose invalidation has not
-- been done here.
pub record World : Type 0 where
  pub cache : Cache
  pub db : String → Option State
  pub pending : String → ℕ
  pub reader : ℕ → Reader

abbrev pub at {ℓ} : {A : Type ℓ} → ℕ → A → (ℕ → A) → ℕ → A
at i x f j = if i == j then x else f j

abbrev pub for_user {ℓ} : {A : Type ℓ} → String → A → (String → A) → String → A
for_user user x f other = if user =ₛ other then x else f other

abbrev pub after_begin : String → Found → Reader
after_begin user (hit state) = idle
after_begin user (lead generation) = reading user generation true
after_begin user (follow generation) = waiting user

abbrev pub after_resume : String → Found → Reader
after_resume user (hit state) = idle
after_resume user (lead generation) = reading user generation true
after_resume user (follow generation) = reading user generation false

-- What happens next, in any order: each step is one section under the lock, one read or one commit
-- of the database, or one invalidation. Readings of the clock may be any. A call
-- for the empty user answers at once.
pub data Step (ttl max : ℕ) (users : List String) (w : World) : World → Type 0 where
  begins :
      (i : ℕ) (user : String) (now : ℕ)
      → w.reader i ≡ idle
      → is_in user users ≡ true
      → (user =ₛ "") ≡ false
      → Step ttl max users w (record w {
        cache = (begin user now w.cache).0;
        reader = at i (after_begin user (begin user now w.cache).1) w.reader;
      })
  resumes :
      (i : ℕ) (user : String) (now : ℕ)
      → w.reader i ≡ waiting user
      → Step ttl max users w (record w {
        cache = (resume user now w.cache).0;
        reader = at i (after_resume user (resume user now w.cache).1) w.reader;
      })
  fetches :
      (i : ℕ) (user : String) (generation : ℕ) (leader : Bool)
      → w.reader i ≡ reading user generation leader
      → Step ttl max users w
          (record w { reader = at i (fetched user generation (w.db user) leader) w.reader })
  fails :
      (i : ℕ) (user : String) (generation : ℕ) (leader : Bool)
      → w.reader i ≡ reading user generation leader
      → Step ttl max users w
          (record w { cache = land leader user w.cache; reader = at i idle w.reader })
  lands :
      (i : ℕ) (user : String) (generation : ℕ) (state : Option State) (leader : Bool)
      → w.reader i ≡ fetched user generation state leader
      → Step ttl max users w (record w {
        cache = land leader user w.cache;
        reader = at i (ready user generation state) w.reader;
      })
  publishes :
      (i : ℕ) (user : String) (generation : ℕ) (state : Option State) (now later : ℕ)
      → w.reader i ≡ ready user generation state
      → Step ttl max users w (record w {
        cache = publish ttl max user generation state now later w.cache;
        reader = at i idle w.reader;
      })
  commits :
      (user : String) (state : Option State)
      → Step ttl max users w (record w {
        db = for_user user state w.db;
        pending = for_user user (w.pending user + 1) w.pending;
      })
  invalidates :
      (user : String)
      → (user =ₛ "") ≡ false
      → Step ttl max users w (record w {
        cache = invalidate user w.cache;
        pending = for_user user (w.pending user - 1) w.pending;
      })

pub data Reaches (ttl max : ℕ) (users : List String) (w : World) : World → Type 0 where
  stay : Reaches ttl max users w w
  step_on :
      (v u : World) → Reaches ttl max users w v → Step ttl max users v u → Reaches ttl max users w u

-- A process that has just started.
pub record IsStart (w : World) : Type 0 where
  pub no_entries : w.cache.entries ≡ []
  pub no_readers : (i : ℕ) → w.reader i ≡ idle

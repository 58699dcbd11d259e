-- ===== src/Revocation.antt =====
-- backend/app_db/deps.py: the cache of account states that access tokens are checked against, with
-- its generations and single reads. Times are whole numbers of any unit of the monotonic clock.
pub mod World
pub mod Entries
pub mod Fresh
pub mod Bounded
mod Examples
use dbbuddy.Base.{
  ℕ, ◌+◌, Bool, true, false, not, leb, ltb, ◌==◌, ◌||◌, if◌then◌else◌, Option, none, some, String,
  ◌=ₛ◌, List, [], ◌∷◌, ◌++◌, keep, length,
}
use dbbuddy.Base.Equality.{string_eq}
use dbbuddy.Base.Distinct.{is_in}
use dbbuddy.Base.Dict.{Dict, get, get_or, put, remove, keys}

-- `(token_version, is_active)`.
abbrev pub State : Type 0
State = ℕ × Bool

-- `(expires_at, token_version, is_active)`.
pub record Entry : Type 0 where
  pub expires_at : ℕ
  pub state : State

-- `_rev_cache`, least recently used first, `_rev_gen` and the keys of `_rev_flights`.
pub record Cache : Type 0 where
  pub entries : Dict Entry
  pub gens : Dict ℕ
  pub flights : List String

abbrev pub generation_of : String → Cache → ℕ
generation_of user c = get_or user 0 c.gens

-- A write with `move_to_end`.
unfoldable pub touch : String → Entry → Dict Entry → Dict Entry
unfolding remove
touch user e entries = remove user entries ++ (user, e) ∷ []

unfoldable pub drop_oldest : (max : ℕ) → Dict Entry → Dict Entry
drop_oldest max [] = []
drop_oldest max (e ∷ entries) =
    let rest = drop_oldest max entries in
    if ltb max (length (e ∷ entries)) then rest else e ∷ entries

-- `_evict_locked`.
unfoldable pub evict : (max now : ℕ) → Cache → Cache
unfolding drop_oldest
evict max now c =
    let kept = drop_oldest max (keep (λ e. ltb now e.1.expires_at) c.entries) in
    if leb (length c.entries) max then c else record c {
      entries = kept;
      gens = keep (λ g. is_in g.0 (keys kept) || is_in g.0 c.flights) c.gens;
    }

-- What a section under the lock finds: a state to answer with, or a generation to read under, as
-- the one that reads or beside it.
pub data Found : Type 0 where
  hit : State → Found
  lead : ℕ → Found
  follow : ℕ → Found

unfoldable pub fresh_entry : String → (now : ℕ) → Dict Entry → Option Entry
unfolding get
fresh_entry user now entries = elim (get user entries) [
  | none ↦ none
  | some e ↦ if ltb now e.expires_at then some e else none
]

-- The first section of `_account_state`.
unfoldable pub begin : String → (now : ℕ) → Cache → Cache × Found
unfolding fresh_entry touch
begin user now c = elim (fresh_entry user now c.entries) [
  | some e ↦ (record c { entries = touch user e c.entries }, hit e.state)
  | none ↦
      if is_in user c.flights
      then (c, follow (generation_of user c))
      else (record c { flights = user ∷ c.flights }, lead (generation_of user c))
]

-- The section after the wait for another reader.
unfoldable pub resume : String → (now : ℕ) → Cache → Cache × Found
unfolding fresh_entry touch
resume user now c = elim (fresh_entry user now c.entries) [
  | some e ↦ (record c { entries = touch user e c.entries }, hit e.state)
  | none ↦ (c, follow (generation_of user c))
]

-- The leader's read is over, with a state or with an error.
unfoldable pub land : (leader : Bool) → String → Cache → Cache
land leader user c =
    if leader then record c { flights = keep (λ u. not (u =ₛ user)) c.flights } else c

-- The last section. The clock is read once for the entry and once more for the eviction.
unfoldable pub publish :
    (ttl max : ℕ) → String → (generation : ℕ) → Option State → (now later : ℕ) → Cache → Cache
unfolding touch evict get
publish ttl max user generation none now later c = c
publish ttl max user generation (some state) now later c =
    if generation_of user c == generation
    then evict max later (record c {
      entries = touch user (record { expires_at = now + ttl; state = state }) c.entries;
    })
    else c

-- `invalidate_revocation` in this process, and `_apply_remote_invalidation`.
unfoldable pub invalidate : String → Cache → Cache
unfolding remove put
invalidate user c = if user =ₛ "" then c else record c {
  entries = remove user c.entries;
  gens = put user (generation_of user c + 1) c.gens;
}

pub data Refusal : Type 0 where
  not_found_or_inactive : Refusal
  revoked : Refusal

-- The check of `get_token_payload` against the account's state: none where the request passes.
unfoldable pub check_state : (tv : ℕ) → Option State → Option Refusal
check_state tv none = some not_found_or_inactive
check_state tv (some (token_version, is_active)) =
    if not is_active
    then some not_found_or_inactive
    else (if tv == token_version then none else some revoked)

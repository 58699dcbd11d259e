-- ===== src/Rates/Refines.antt =====
-- The limiter answers as promised: cutting and expiring its list forgets nothing inside the window.
use dbbuddy.Base.{
  ℕ, zero, suc, ◌+◌, ◌-◌, ◌≤◌, ◌<◌, ◌≡◌, refl, sym, ap, ◌∙◌, Bool, true, false, ltb, if◌then◌else◌,
  String, ◌=ₛ◌, eq_iff, List, [], ◌∷◌, keep, length, arith, Bool-cases, inl, inr,
}
use dbbuddy.Rates.{
  take, inside, StampLists, check_rate_limit, answers, Log, stamps_of, recent, promised,
}
use dbbuddy.Rates.Window.{
  Descending, AreUpTo, AreUpTo-later, AreUpTo-take, take-Descending, none_inside, keep-take,
  keep-keep,
}

-- Requests in the order of their times, from a first time.
abbrev pub AreFrom : ℕ → List (String × ℕ) → Type 0
AreFrom t [] = Unit
AreFrom t ((key, now) ∷ requests) = (t ≤ now) × AreFrom now requests

take-cons : (m x : ℕ) (xs : List ℕ) → 0 < m → take m (x ∷ xs) ≡ x ∷ take (m - 1) xs
take-cons zero x xs h = elim h [ ]
take-cons (suc n) x xs h = ap (λ k. x ∷ take k xs) (omega arith)

if_holds : (P : List ℕ → Type 0) (b : Bool) (xs : List ℕ) → P xs → P [] → P (if b then xs else [])
if_holds P true xs h k = h
if_holds P false xs h k = k

module _ (redis : StampLists) (max_requests window : ℕ) where
  open redis use {Store, lrange, record_stamp, lrange-record_stamp}

  -- From a time on, the lists and the log agree inside every window.
  record Tracks (t : ℕ) (s : Store) (log : Log) : Type 0 where
    descending : (key : String) (later : ℕ) → t ≤ later → Descending (lrange key later s)
    listed : (key : String) (later : ℕ) → t ≤ later → AreUpTo t (lrange key later s)
    logged : (key : String) → AreUpTo t (stamps_of key log)
    agree :
        (key : String) (later : ℕ)
        → t ≤ later
        → keep (inside window later) (lrange key later s)
          ≡ keep (inside window later) (stamps_of key log)

  keep_same :
      (later x : ℕ) (xs ys : List ℕ)
      → keep (inside window later) xs ≡ keep (inside window later) ys
      → keep (inside window later) (x ∷ xs) ≡ keep (inside window later) (x ∷ ys)
  keep_same later x xs ys e = ground (arith, e)

  Tracks-later : (t now : ℕ) (s : Store) (log : Log) → t ≤ now → Tracks t s log → Tracks now s log
  Tracks-later t now s log l h = record {
    descending = λ key later m. h.descending key later (omega arith);
    listed = λ key later m. AreUpTo-later t now _ l (h.listed key later (omega arith));
    logged = λ key. AreUpTo-later t now _ l (h.logged key);
    agree = λ key later m. h.agree key later (omega arith);
  }

  module _ (key : String) (now : ℕ) (s : Store) (log : Log) (h : Tracks now s log)
      (allowed : recent window key now log < max_requests) where
    cut : List ℕ
    cut = take max_requests (now ∷ lrange key now s)

    cut-Descending : Descending cut
    unfolding cut
    cut-Descending =
        take-Descending max_requests (now ∷ lrange key now s)
          (h.listed key now (omega arith), h.descending key now (omega arith))

    cut-AreUpTo : AreUpTo now cut
    unfolding cut
    cut-AreUpTo =
        AreUpTo-take now max_requests (now ∷ lrange key now s)
          (omega arith, h.listed key now (omega arith))

    few_recent :
        (n : ℕ) → max_requests ≡ suc n → length (keep (inside window now) (lrange key now s)) ≤ n
    few_recent n e = omega (arith, ap length (h.agree key now (omega arith)))

    -- The older stamps that the cut leaves are those of the log, inside any later window.
    older_agree :
        (n later : ℕ)
        → max_requests ≡ suc n
        → now ≤ later
        → keep (inside window later) (take n (lrange key now s))
          ≡ keep (inside window later) (stamps_of key log)
    older_agree n later e l =
        let xs = lrange key now s in
        let kept =
          keep-take window now n xs (h.descending key now (omega arith)) (few_recent n e) in
        sym (keep-keep window now later (take n xs) l)
        ∙ (ap (keep (inside window later)) (kept ∙ h.agree key now (omega arith))
            ∙ keep-keep window now later (stamps_of key log) l)

    cut_agree :
        (later : ℕ)
        → now ≤ later
        → keep (inside window later) cut ≡ keep (inside window later) (now ∷ stamps_of key log)
    unfolding cut
    cut_agree later l =
        let e : max_requests ≡ suc (max_requests - 1) = omega arith in
        ap (keep (inside window later))
          (take-cons max_requests now (lrange key now s) (omega arith))
        ∙ keep_same later now (take (max_requests - 1) (lrange key now s)) (stamps_of key log)
            (older_agree (max_requests - 1) later e l)

    -- The store after the request was recorded, for any key and later time.
    recorded :
        (other : String) (later : ℕ)
        → now ≤ later
        → lrange other later (record_stamp key now max_requests window now s) ≡ (
            if key =ₛ other
            then (if ltb later (now + window) then cut else [])
            else lrange other later s)
    unfolding cut
    recorded other later l =
        lrange-record_stamp key other now max_requests window now later s (omega arith) l

    recorded_agree :
        (later : ℕ)
        → now ≤ later
        → keep (inside window later) (if ltb later (now + window) then cut else [])
          ≡ keep (inside window later) (now ∷ stamps_of key log)
    recorded_agree later l = elim (Bool-cases (ltb later (now + window))) [
      | inl b ↦ rw b (cut_agree later l)
      | inr b ↦ rw b (
          sym (
            none_inside window now later (now ∷ stamps_of key log) (omega arith, h.logged key)
              (ground (arith, b))))
    ]

    recorded-Tracks : Tracks now (record_stamp key now max_requests window now s) ((key, now) ∷ log)
    unfolding stamps_of
    recorded-Tracks = record {
      descending = λ other later l. rw (recorded other later l) (elim (Bool-cases (key =ₛ other)) [
        | inl b ↦ rw b (if_holds Descending (ltb later (now + window)) cut cut-Descending tt)
        | inr b ↦ rw b (h.descending other later l)
      ]);
      listed = λ other later l. rw (recorded other later l) (elim (Bool-cases (key =ₛ other)) [
        | inl b ↦ rw b (if_holds (AreUpTo now) (ltb later (now + window)) cut cut-AreUpTo tt)
        | inr b ↦ rw b (h.listed other later l)
      ]);
      logged = λ other. elim (Bool-cases (key =ₛ other)) [
        | inl b ↦ rw b (omega arith, h.logged other)
        | inr b ↦ rw b (h.logged other)
      ];
      agree = λ other later l. rw (recorded other later l) (elim (Bool-cases (key =ₛ other)) [
        | inl b ↦
            let same_key : key ≡ other = (eq_iff key other).0 b in
            rw b (
              recorded_agree later l
              ∙ ap (λ k. keep (inside window later) (now ∷ stamps_of k log)) same_key)
        | inr b ↦ rw b (h.agree other later l)
      ]);
    }

  same_count :
      (key : String) (now : ℕ) (s : Store) (log : Log)
      → Tracks now s log
      → length (keep (inside window now) (lrange key now s)) ≡ recent window key now log
  same_count key now s log h = ap length (h.agree key now (omega arith))

  answers-promised :
      (requests : List (String × ℕ)) (t : ℕ) (s : Store) (log : Log)
      → AreFrom t requests
      → Tracks t s log
      → answers redis max_requests window requests s ≡ promised max_requests window requests log
  unfolding answers promised check_rate_limit
  answers-promised [] t s log f h = refl
  answers-promised ((key, now) ∷ requests) t s log f h =
      let at_now = Tracks-later t now s log f.0 h in
      let same = same_count key now s log at_now in
      elim (Bool-cases (ltb (recent window key now log) max_requests)) [
        | inl b ↦
            let after = recorded-Tracks key now s log at_now (ground (arith, b)) in
            ground (
              arith,
              b,
              same,
              answers-promised requests now (record_stamp key now max_requests window now s)
                  ((key, now) ∷ log) f.1 after,
            )
        | inr b ↦ ground (arith, b, same, answers-promised requests now s log f.1 at_now)
      ]

  -- From lists of Redis that are all empty, with the clock never going back and one request done
  -- before the next: whatever the requests of however many keys are, the limiter's answers are those
  -- promised. A request is allowed exactly while fewer than the maximum of its key's allowed requests
  -- are inside the window, although only that many are stored and the key expires.
  pub check_rate_limit-refines :
      (requests : List (String × ℕ)) (start : ℕ) (s : Store)
      → AreFrom start requests
      → ((key : String) (now : ℕ) → lrange key now s ≡ [])
      → answers redis max_requests window requests s ≡ promised max_requests window requests []
  unfolding stamps_of
  check_rate_limit-refines requests start s f fresh =
      answers-promised requests start s [] f (record {
        descending = λ key later l. rw (fresh key later) tt;
        listed = λ key later l. rw (fresh key later) tt;
        logged = λ key. tt;
        agree = λ key later l. ap (keep (inside window later)) (fresh key later);
      })

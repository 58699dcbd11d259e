-- ===== src/Base/Dict.antt =====
-- Python's `dict`: an association list in insertion order. A write to a present key keeps the key's
-- place; a new key goes to the end.
use Prim.Native.Nat.{suc, ◌≤◌}
use Prim.Native.String.{String}
use mathlib.Core.Path.{◌≡◌, refl, sym, ap, ◌∙◌, subst}
use mathlib.Core.Logic.{◌≢◌, inl, inr}
use dbbuddy.Base.Distinct.{Distinct, is_in}
use mathlib.Core.Bool.{true, false}
use mathlib.Core.Option.{Option, none, some}
use mathlib.Core.List.{List, [], ◌∷◌, ◌++◌, map}
use native.Mathlib.Omega.{arith}
use dbbuddy.Base.Tests.{if◌then◌else◌, Bool-cases}
use dbbuddy.Base.Lists.{length, Holds}
use dbbuddy.Base.Equality.{Eq}

-- The keys that are compared and not walked are strings.
abbrev pub Dict {ℓ} : Type ℓ → Type ℓ
Dict V = List (String × V)

module _ {ℓ} {V : Type ℓ} where
  abbrev pub or_default : V → Option V → V
  or_default d o = elim o [ none ↦ d | some v ↦ v ]

module _ {ℓ κ} {K : Type κ} {V : Type ℓ} ⦃e : Eq K⦄ where
  unfoldable pub get : K → List (K × V) → Option V
  get k [] = none
  get k ((j, v) ∷ m) = if e.beq j k then some v else get k m

  unfoldable pub put : K → V → List (K × V) → List (K × V)
  put k v [] = (k, v) ∷ []
  put k v ((j, w) ∷ m) = if e.beq j k then (k, v) ∷ m else (j, w) ∷ put k v m

  unfoldable pub remove : K → List (K × V) → List (K × V)
  remove k [] = []
  remove k ((j, v) ∷ m) = let rest = remove k m in if e.beq j k then rest else (j, v) ∷ rest

  abbrev pub get_or : K → V → List (K × V) → V
  get_or k d m = or_default d (get k m)

  pub get-first :
      (j k : K) (v : V) (m : List (K × V)) → e.beq j k ≡ true → get k ((j, v) ∷ m) ≡ some v
  unfolding get
  get-first j k v m h = rw (h, get) refl

  pub get-later :
      (j k : K) (v : V) (m : List (K × V)) → e.beq j k ≡ false → get k ((j, v) ∷ m) ≡ get k m
  unfolding get
  get-later j k v m h = rw (h, get) refl

  pub get_or-first :
      (j k : K) (d v : V) (m : List (K × V)) → e.beq j k ≡ true → get_or k d ((j, v) ∷ m) ≡ v
  get_or-first j k d v m h = ap (or_default d) (get-first j k v m h)

  pub get_or-later :
      (j k : K) (d v : V) (m : List (K × V))
      → e.beq j k ≡ false
      → get_or k d ((j, v) ∷ m) ≡ get_or k d m
  get_or-later j k d v m h = ap (or_default d) (get-later j k v m h)

  abbrev pub keys : List (K × V) → List K
  keys = map (λ e. e.0)

  pub get-put :
      (k j : K) (v : V) (m : List (K × V))
      → get j (put k v m) ≡ (if e.beq k j then some v else get j m)
  unfolding get put
  get-put k j v [] = refl
  get-put k j v ((i, w) ∷ m) =
      ground (arith, e.beq_iff k j, e.beq_iff i k, e.beq_iff i j, get-put k j v m)

  pub get-remove :
      (k j : K) (m : List (K × V)) → get j (remove k m) ≡ (if e.beq k j then none else get j m)
  unfolding get remove
  get-remove k j [] = ground arith
  get-remove k j ((i, w) ∷ m) =
      ground (arith, e.beq_iff k j, e.beq_iff i k, e.beq_iff i j, get-remove k j m)

  pub length-remove-le : (k : K) (m : List (K × V)) → length (remove k m) ≤ length m
  unfolding remove
  length-remove-le k [] = omega arith
  length-remove-le k ((j, v) ∷ m) = ground (arith, length-remove-le k m)

  pub length-put-le : (k : K) (v : V) (m : List (K × V)) → length (put k v m) ≤ suc (length m)
  unfolding put
  length-put-le k v [] = omega arith
  length-put-le k v ((j, w) ∷ m) = ground (arith, length-put-le k v m)

  pub Holds-put {μ} :
      (Q : K × V → Type μ) (k : K) (v : V) (m : List (K × V))
      → Q (k, v)
      → Holds Q m
      → Holds Q (put k v m)
  unfolding put
  Holds-put Q k v [] q h = (q, tt)
  Holds-put Q k v ((j, w) ∷ m) q h = elim (Bool-cases (e.beq j k)) [
    | inl b ↦ rw (b, put) (q, h.1)
    | inr b ↦ rw (b, put) (h.0, Holds-put Q k v m q h.1)
  ]

  pub Holds-get {μ} :
      (Q : V → Type μ) (k : K) (v : V) (m : List (K × V))
      → get k m ≡ some v
      → Holds (λ e. Q e.1) m
      → Q v
  unfolding get
  Holds-get Q k v [] g h = cc
  Holds-get Q k v ((j, w) ∷ m) g h = elim (Bool-cases (e.beq j k)) [
    | inl b ↦ let found : w ≡ v = ground (arith, b) in subst Q found h.0
    | inr b ↦ Holds-get Q k v m (sym (get-later j k w m b) ∙ g) h.1
  ]

  pub Holds-get_or {μ} :
      (Q : V → Type μ) (k : K) (d : V) (m : List (K × V))
      → Q d
      → Holds (λ e. Q e.1) m
      → Q (get_or k d m)
  unfolding get
  Holds-get_or Q k d [] q h = q
  Holds-get_or Q k d ((j, v) ∷ m) q h = elim (Bool-cases (e.beq j k)) [
    | inl b ↦ rw (get_or-first j k d v m b) h.0
    | inr b ↦ rw (get_or-later j k d v m b) (Holds-get_or Q k d m q h.1)
  ]

  Holds-keys-put {μ} :
      (P : K → Type μ) (k : K) (v : V) (m : List (K × V))
      → P k
      → Holds P (keys m)
      → Holds P (keys (put k v m))
  unfolding put
  Holds-keys-put P k v [] q h = (q, tt)
  Holds-keys-put P k v ((j, w) ∷ m) q h = elim (Bool-cases (e.beq j k)) [
    | inl b ↦ rw (b, put) (q, h.1)
    | inr b ↦ rw (b, put) (h.0, Holds-keys-put P k v m q h.1)
  ]

  pub Distinct-keys-put :
      (k : K) (v : V) (m : List (K × V)) → Distinct (keys m) → Distinct (keys (put k v m))
  unfolding put
  Distinct-keys-put k v [] h = (tt, tt)
  Distinct-keys-put k v ((j, w) ∷ m) h = elim (Bool-cases (e.beq j k)) [
    | inl b ↦ rw (b, put) (rw (← (e.beq_iff j k).0 b) h.0, h.1)
    | inr b ↦
        let other : j ≢ k = ground (arith, b, e.beq_iff j k) in
        rw (b, put) (Holds-keys-put (λ i. j ≢ i) k v m other h.0, Distinct-keys-put k v m h.1)
  ]

  pub keys-put :
      (k : K) (v : V) (m : List (K × V)) → is_in k (keys m) ≡ true → keys (put k v m) ≡ keys m
  unfolding put
  keys-put k v [] h = cc
  keys-put k v ((j, w) ∷ m) h = ground (arith, e.beq_iff j k, e.beq_iff k j, keys-put k v m)

  pub Holds-keys-remove {μ} :
      (P : K → Type μ) (k : K) (m : List (K × V)) → Holds P (keys m) → Holds P (keys (remove k m))
  unfolding remove
  Holds-keys-remove P k [] h = h
  Holds-keys-remove P k ((j, v) ∷ m) h = elim (Bool-cases (e.beq j k)) [
    | inl b ↦ rw (b, remove) (Holds-keys-remove P k m h.1)
    | inr b ↦ rw (b, remove) (h.0, Holds-keys-remove P k m h.1)
  ]

  pub keys_remove-others : (k : K) (m : List (K × V)) → Holds (λ j. j ≢ k) (keys (remove k m))
  unfolding remove
  keys_remove-others k [] = tt
  keys_remove-others k ((j, v) ∷ m) = elim (Bool-cases (e.beq j k)) [
    | inl b ↦ rw (b, remove) (keys_remove-others k m)
    | inr b ↦
        let other : j ≢ k = ground (arith, b, e.beq_iff j k) in
        rw (b, remove) (other, keys_remove-others k m)
  ]

  pub Distinct-keys-remove :
      (k : K) (m : List (K × V)) → Distinct (keys m) → Distinct (keys (remove k m))
  unfolding remove
  Distinct-keys-remove k [] h = h
  Distinct-keys-remove k ((j, v) ∷ m) h = elim (Bool-cases (e.beq j k)) [
    | inl b ↦ rw (b, remove) (Distinct-keys-remove k m h.1)
    | inr b ↦ rw (b, remove) (Holds-keys-remove (λ i. j ≢ i) k m h.0, Distinct-keys-remove k m h.1)
  ]

  pub get-append :
      (k : K) (m n : List (K × V))
      → get k (m ++ n) ≡ (elim (get k m) [ none ↦ get k n | some v ↦ some v ])
  unfolding get
  get-append k [] n = refl
  get-append k ((j, v) ∷ m) n = ground (arith, get-append k m n)

  pub keys-append : (m n : List (K × V)) → keys (m ++ n) ≡ keys m ++ keys n
  keys-append [] n = refl
  keys-append (x ∷ m) n = ap (λ ks. x.0 ∷ ks) (keys-append m n)

-- ===== src/Prelude/Results.antt =====
-- `Result`, its `?`, and what a chain of them says of its parts.
use mathlib.Core.Path.{◌≡◌, refl, subst}
use mathlib.Core.Logic.{◌≢◌}
use mathlib.Core.Option.{Option, none, some}
use native.Mathlib.Omega.{arith}

pub data Result (E : Type 0) (A : Type 0) : Type 0 where
  ok : A → Result E A
  err : E → Result E A

module _ {E : Type 0} where
  infixl 5 ◌>>=◌ ◌>>◌
  abbrev pub ◌>>=◌ : {A B : Type 0} → Result E A → (A → Result E B) → Result E B
  err why >>= next = err why
  ok value >>= next = next value

  abbrev pub ◌>>◌ : {B : Type 0} → Result E (Unit {0}) → Result E B → Result E B
  first >> second = first >>= λ _. second

  -- `ok_or`.
  abbrev pub ok_or : {A : Type 0} → Option A → E → Result E A
  ok_or none e = err e
  ok_or (some a) e = ok a

  pub >>=-eq-ok :
      {A B : Type 0} (first : Result E A) (next : A → Result E B) {last : B}
      → (first >>= next) ≡ ok last
      → (value : A) × (first ≡ ok value) × (next value ≡ ok last)
  >>=-eq-ok (err why) next failed = cc
  >>=-eq-ok (ok value) next reached = (value, refl, reached)

  pub >>=-eq-err :
      {A B : Type 0} (first : Result E A) (next : A → Result E B) {why : E}
      → (first >>= next) ≡ err why
      → first ≢ err why
      → (value : A) × (first ≡ ok value) × (next value ≡ err why)
  >>=-eq-err (err other) next failed never = absurd (never (ground arith))
  >>=-eq-err (ok value) next failed never = (value, refl, failed)

  pub >>-eq-ok :
      {B : Type 0} (m : Result E (Unit {0})) (k : Result E B) {b : B}
      → (m >> k) ≡ ok b
      → (m ≡ ok tt) × (k ≡ ok b)
  >>-eq-ok (ok tt) k h = (refl, h)
  >>-eq-ok (err e) k h = cc

  pub ok_or-eq-ok : {A : Type 0} (o : Option A) (e : E) {a : A} → ok_or o e ≡ ok a → o ≡ some a
  ok_or-eq-ok none e h = cc
  ok_or-eq-ok (some x) e h = ground arith

  pub ok-injective : {A : Type 0} {x y : A} → Path (Result E A) (ok x) (ok y) → x ≡ y
  ok-injective h = cc

-- What a result holds, where it is one.
pub data Ensures {E A : Type 0} (P : A → Type 0) : Result E A → Type 0 where
  holds : {a : A} → P a → Ensures P (ok a)
  fails : {why : E} → Ensures P (err why)

pub Ensures-bind :
    {E A B : Type 0} {P : B → Type 0} (m : Result E A) {f : A → Result E B}
    → ((a : A) → m ≡ ok a → Ensures P (f a))
    → Ensures P (m >>= f)
Ensures-bind (ok a) h = h a refl
Ensures-bind (err why) h = fails

holds-eq-ok :
    {E A : Type 0} {P : A → Type 0} {m : Result E A} {a : A} → Ensures P m → m ≡ ok a → P a
holds-eq-ok {P = P} (holds p) h = subst P (ok-injective h) p
holds-eq-ok fails h = cc

pub Ensures-eq-ok :
    {E A : Type 0} {P : A → Type 0} (m : Result E A) {a : A} → Ensures P m → m ≡ ok a → P a
Ensures-eq-ok m e h = holds-eq-ok e h

pub Ensures-of :
    {E A : Type 0} {P : A → Type 0} (m : Result E A) → ((a : A) → m ≡ ok a → P a) → Ensures P m
Ensures-of (ok a) h = holds (h a refl)
Ensures-of (err why) h = fails

-- ===== src/Prelude/Results.antt =====
-- Calls that may raise an exception; of the exception the program uses its text.
use mathlib.Core.Path.{◌≡◌, refl, ap}
use mathlib.Core.Logic.{◌⊎◌, inl, inr}
use Prim.Native.String.{String}
use mathlib.Core.List.{List, [], ◌∷◌, ◌++◌, map}
use Prim.Native.Nat.{suc}
use analysis_app.Prelude.Lists.{length, All}

pub data Result {ℓ} (A : Type ℓ) : Type ℓ where
  ok : A → Result A
  raised : String → Result A

infixl 5 ◌>>=◌
abbrev pub ◌>>=◌ {ℓ κ} : {A : Type ℓ} {B : Type κ} → Result A → (A → Result B) → Result B
ok a >>= f = f a
raised e >>= f = raised e

pub Result-cases {ℓ} :
    {A : Type ℓ} (m : Result A) → ((a : A) × (m ≡ ok a)) ⊎ ((e : String) × (m ≡ raised e))
Result-cases (ok a) = inl (a, refl)
Result-cases (raised e) = inr (e, refl)

-- A call that returns, and a call that raises.
abbrev pub Returns : {A : Type 0} → Result A → Type 0
Returns {A} m = (a : A) × (m ≡ ok a)

abbrev pub Raises : {A : Type 0} → Result A → Type 0
Raises m = (e : String) × (m ≡ raised e)

pub Returns-bind :
    {A B : Type 0} (m : Result A) (k : A → Result B)
    → Returns m
    → ((a : A) → m ≡ ok a → Returns (k a))
    → Returns (m >>= k)
Returns-bind m k (a, e) h = rw e (h a e)

pub Raises-bind :
    {A B : Type 0} (m : Result A) (k : A → Result B)
    → ((a : A) → m ≡ ok a → Raises (k a))
    → Raises (m >>= k)
Raises-bind (ok a) k h = h a refl
Raises-bind (raised e) k h = (e, refl)

pub Raises-bind_first :
    {A B : Type 0} (m : Result A) (k : A → Result B) → Raises m → Raises (m >>= k)
Raises-bind_first m k (e, p) = (e, rw p)

-- [f(x) for x in xs], which ends at the first call that raises.
abbrev pub each : {A B : Type 0} → (A → Result B) → List A → Result (List B)
each f [] = ok []
each f (x ∷ xs) = f x >>= λ y. each f xs >>= λ ys. ok (y ∷ ys)

pub absurd_raised : {A C : Type 0} {e : String} {a : A} → raised e ≡ ok a → C
absurd_raised h = cc

pub ok-injective : {A : Type 0} {a b : A} → ok a ≡ ok b → a ≡ b
ok-injective h = cc

-- What a chain of calls that returns went through.
pub bind_ok :
    {A B : Type 0} (m : Result A) (k : A → Result B) (b : B)
    → (m >>= k) ≡ ok b
    → (a : A) × (m ≡ ok a) × (k a ≡ ok b)
bind_ok (ok a) k b h = (a, refl, h)
bind_ok (raised e) k b h = absurd_raised h

module _ {A B : Type 0} where
  pub each-ok :
      (g : A → B) (f : A → Result B) (xs : List A)
      → ((x : A) → f x ≡ ok (g x))
      → each f xs ≡ ok (map g xs)
  each-ok g f [] h = refl
  each-ok g f (x ∷ xs) h = rw (h x, each-ok g f xs h)

  pub each_same : (f g : A → Result B) (xs : List A) → ((x : A) → f x ≡ g x) → each f xs ≡ each g xs
  each_same f g [] h = refl
  each_same f g (x ∷ xs) h = rw (h x, each_same f g xs h)

  pub each-map :
      {C : Type 0} (f : A → Result B) (c : C → A) (ks : List C)
      → each f (map c ks) ≡ each (λ k. f (c k)) ks
  each-map f c [] = refl
  each-map f c (k ∷ ks) = rw (each-map f c ks)

  pub each-append :
      (f : A → Result B) (xs ys : List A)
      → each f (xs ++ ys) ≡ (each f xs >>= λ us. each f ys >>= λ vs. ok (us ++ vs))
  each-append f [] ys = elim (Result-cases (each f ys)) [ inl (v, e) ↦ rw e | inr (t, e) ↦ rw e ]
  each-append f (x ∷ xs) ys = elim (Result-cases (f x)) [
    | inr (t, e) ↦ rw e
    | inl (u, e) ↦
        rw (e, each-append f xs ys)
          (elim (Result-cases (each f xs)) [
            | inr (t, d) ↦ rw d
            | inl (us, d) ↦
                rw d (elim (Result-cases (each f ys)) [ inl (v, c) ↦ rw c | inr (t, c) ↦ rw c ])
          ])
  ]

  pub length-each :
      (f : A → Result B) (xs : List A) (ys : List B) → each f xs ≡ ok ys → length ys ≡ length xs
  length-each f [] ys h = let e : [] ≡ ys = cc in rw (← e) refl
  length-each f (x ∷ xs) ys h = elim (Result-cases (f x)) [
    | inr (t, e) ↦ absurd_raised (rw e at h)
    | inl (u, e) ↦ elim (Result-cases (each f xs)) [
      | inr (t, d) ↦ absurd_raised (rw (e, d) at h)
      | inl (us, d) ↦
          let k : ok (u ∷ us) ≡ ok ys = rw (e, d) at h in
          let same : (u ∷ us) ≡ ys = cc in rw (← same) (ap suc (length-each f xs us d))
    ]
  ]

  pub Returns-each :
      (f : A → Result B) (xs : List A) → All (λ x. Returns (f x)) xs → Returns (each f xs)
  Returns-each f [] h = ([], refl)
  Returns-each f (x ∷ xs) ((y, e), hs) =
      let (ys, d) = Returns-each f xs hs in (y ∷ ys, rw (e, d) refl)

-- ===== src/Common/Post.antt =====
-- What holds after a call: `Q` of the value and the state when it returns, `E` of the state when it
-- throws. The rules follow the steps of a `do` block, so that a proof about one keeps its callees shut.
use mathlib.Core.Path.{◌≡◌, refl, subst}
use mathlib.Core.Bool.{Bool, true, false}
use mathlib.Core.Option.{Option, none, some}
use mathlib.Core.Logic.{inl, inr}
use native.Mathlib.Omega.{arith}
use facilpay_api.Common.Tests.{⊤, Bool-cases}
use facilpay_api.Common.Lists.{List-cases}
use facilpay_api.Common.Action.{Error, Result, ok, err, ◌>>=◌, throw_if, or_throw}
use facilpay_api.Common.Store.{Store, write}

pub data Post {A S : Type 0} (Q : A → S → Type 0) (E : S → Type 0) : Result A × S → Type 0 where
  returned : {a : A} {s : S} → Q a s → Post Q E (ok a, s)
  threw : {x : Error} {s : S} → E s → Post Q E (err x, s)

ok_injective : {A : Type 0} {a b : A} → ok a ≡ ok b → a ≡ b
ok_injective e = cc

module _ {S : Type 0} where
  post_bind_at :
      {A B : Type 0} {Q : A → S → Type 0} {R : B → S → Type 0} {E : S → Type 0} (r : Result A × S)
      (f : A → S → Result B × S) (s : S)
      → Post Q E r
      → ((a : A) (s' : S) → Q a s' → Post R E (f a s'))
      → Post R E (((λ _. r) >>= f) s)
  post_bind_at r f s (returned h) k = k _ _ h
  post_bind_at r f s (threw h) k = threw h

  pub post_bind :
      {A B : Type 0} {Q : A → S → Type 0} {R : B → S → Type 0} {E : S → Type 0}
      (m : S → Result A × S) (f : A → S → Result B × S) (s : S)
      → Post Q E (m s)
      → ((a : A) (s' : S) → Q a s' → Post R E (f a s'))
      → Post R E ((m >>= f) s)
  post_bind m f s = post_bind_at (m s) f s

  -- A weaker conclusion.
  pub post_weaken :
      {A : Type 0} {Q R : A → S → Type 0} {E F : S → Type 0} (r : Result A × S)
      → Post Q E r
      → ((a : A) (s : S) → Q a s → R a s)
      → ((s : S) → E s → F s)
      → Post R F r
  post_weaken r (returned h) q e = returned (q _ _ h)
  post_weaken r (threw h) q e = threw (e _ h)

  pub post_throw_if :
      {Q : ⊤ → S → Type 0} {E : S → Type 0} (c : Bool) (x : Error) (s : S)
      → (c ≡ true → E s)
      → (c ≡ false → Q tt s)
      → Post Q E (throw_if c x s)
  post_throw_if true x s e q = threw (e refl)
  post_throw_if false x s e q = returned (q refl)

  pub post_or_throw :
      {A : Type 0} {Q : A → S → Type 0} {E : S → Type 0} (o : Option A) (x : Error) (s : S)
      → (o ≡ none → E s)
      → ((a : A) → o ≡ some a → Q a s)
      → Post Q E (or_throw o x s)
  post_or_throw none x s e q = threw (e refl)
  post_or_throw (some a) x s e q = returned (q a refl)

  -- What a call that returned, or threw, gives.
  pub post_ok :
      {A : Type 0} {Q : A → S → Type 0} {E : S → Type 0} (r : Result A × S) (a : A)
      → Post Q E r
      → r.0 ≡ ok a
      → Q a r.1
  post_ok {Q = Q} r a (returned {s = s} h) e = subst (λ b. Q b s) (ok_injective e) h
  post_ok r a (threw h) e = ground (arith, e)

  pub post_err :
      {A : Type 0} {Q : A → S → Type 0} {E : S → Type 0} (r : Result A × S) (x : Error)
      → Post Q E r
      → r.0 ≡ err x
      → E r.1
  post_err r x (returned h) e = ground (arith, e)
  post_err r x (threw h) e = h

  -- Whether it returned or threw.
  pub post_state :
      {A : Type 0} {P : S → Type 0} (r : Result A × S) → Post (λ (a : A) s. P s) P r → P r.1
  post_state r (returned h) = h
  post_state r (threw h) = h

module _ {T X : Type 0} where
  pub post_write :
      (P P' : T → Type 0) (f : T → T) (s : Store T X)
      → P s.tables
      → P' (f s.tables)
      → Post (λ (u : ⊤) (s' : Store T X). P' s'.tables) (λ s'. P s'.tables) (write f s)
  post_write P P' f s before after = elim (List-cases s.faults) [
    | inl e ↦ rw (e) (returned after)
    | inr (x, rest, e) ↦ elim (Bool-cases x) [
      | inl fails ↦ rw (e, fails) (threw before)
      | inr works ↦ rw (e, works) (returned after)
    ]
  ]

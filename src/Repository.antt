-- ===== src/Repository.antt =====
-- What the services rely on of a TypeORM repository: a table of entities with a primary key. The
-- library is not part of the repository, so its operations are parameters, with the laws that its
-- documentation promises. `Rows` is a table for which they hold.
pub mod Rows
use facilpay_api.Common.{
  ℕ, ◌≡◌, ◌≢◌, Bool, true, not, Option, none, some, List, ◌==◌, if◌then◌else◌, All, In, ◌∙◌, refl,
  ==_iff,
}

-- The row, if the condition holds of it.
abbrev pub restrict : {A : Type 0} → (A → Bool) → Option A → Option A
restrict p none = none
restrict p (some a) = if p a then some a else none

-- The row, changed if the condition holds of it.
abbrev pub revise : {A : Type 0} → (A → Bool) → (A → A) → Option A → Option A
revise p f none = none
revise p f (some a) = some (if p a then f a else a)

-- `key` is the primary key, or a unique column by which the code looks a row up.
pub record Repository (A : Type 0) (key : A → ℕ) : Type 1 where
  pub Table : Type 0
  -- `findOneBy({ id })`
  pub find_one : ℕ → Table → Option A
  -- `find({ where })`
  pub find : (A → Bool) → Table → List A
  -- `save(entity)`: an update of the row with that key, or a new row
  pub save : A → Table → Table
  -- `delete({ where })`
  pub delete : (A → Bool) → Table → Table
  -- `createQueryBuilder().update().set().where()`
  pub update : (A → Bool) → (A → A) → Table → Table
  pub find_one-save :
      (a : A) (k : ℕ) (t : Table)
      → find_one k (save a t) ≡ (if key a == k then some a else find_one k t)
  pub find_one-delete :
      (p : A → Bool) (k : ℕ) (t : Table)
      → find_one k (delete p t) ≡ restrict (λ a. not (p a)) (find_one k t)
  -- an update that leaves the key alone
  pub find_one-update :
      (p : A → Bool) (f : A → A) (k : ℕ) (t : Table)
      → ((a : A) → key (f a) ≡ key a)
      → find_one k (update p f t) ≡ revise p f (find_one k t)
  -- a row is found under its own key
  pub key-find_one : (k : ℕ) (t : Table) (a : A) → find_one k t ≡ some a → key a ≡ k
  -- what is found satisfies the condition and is the current row of its key
  pub find_sound :
      (p : A → Bool) (t : Table)
      → All (λ a. (p a ≡ true) × (find_one (key a) t ≡ some a)) (find p t)
  -- and every such row is found
  pub find_complete :
      (p : A → Bool) (t : Table) (a : A)
      → p a ≡ true
      → find_one (key a) t ≡ some a
      → In a (find p t)

-- What was saved is found.
pub find_one-saved :
    {A : Type 0} {key : A → ℕ} (repo : Repository A key) (a : A) (t : repo.Table)
    → repo.find_one (key a) (repo.save a t) ≡ some a
find_one-saved {key = key} repo a t =
    repo.find_one-save a (key a) t ∙ rw ((==_iff (key a) (key a)).1 refl) refl

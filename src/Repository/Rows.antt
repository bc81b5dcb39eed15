-- ===== src/Repository/Rows.antt =====
-- A list of rows as a repository: the first row of a key counts. It shows that the laws of
-- `Repository` can hold, and it is the table of the worked examples.
use facilpay_api.Common.{
  ℕ, ◌≡◌, refl, ◌≢◌, inl, inr, Bool, true, not, Option, none, some, List, [], ◌∷◌, ◌==◌,
  if◌then◌else◌, All, In, filter, arith,
}
use facilpay_api.Repository.{Repository, restrict, revise}

module _ {A : Type 0} (id : A → ℕ) where
  abbrev pub find_row : ℕ → List A → Option A
  find_row k [] = none
  find_row k (r ∷ rs) = if id r == k then some r else find_row k rs

  abbrev pub drop_key : ℕ → List A → List A
  drop_key k = filter (λ r. not (id r == k))

  abbrev pub select : (A → Bool) → List A → List A
  select p [] = []
  select p (r ∷ rs) = let rest = drop_key (id r) (select p rs) in if p r then r ∷ rest else rest

  abbrev pub change : (A → Bool) → (A → A) → List A → List A
  change p f [] = []
  change p f (r ∷ rs) = (if p r then f r else r) ∷ change p f rs

  find_row-drop_key :
      (k j : ℕ) (t : List A) → find_row k (drop_key j t) ≡ (if j == k then none else find_row k t)
  find_row-drop_key k j [] = ground arith
  find_row-drop_key k j (r ∷ rs) = ground (arith, find_row-drop_key k j rs)

  pub find_row-select :
      (p : A → Bool) (k : ℕ) (t : List A) → find_row k (select p t) ≡ restrict p (find_row k t)
  find_row-select p k [] = refl
  find_row-select p k (r ∷ rs) =
      ground (arith, find_row-select p k rs, find_row-drop_key k (id r) (select p rs))

  pub find_row-change :
      (p : A → Bool) (f : A → A) (k : ℕ) (t : List A)
      → ((a : A) → id (f a) ≡ id a)
      → find_row k (change p f t) ≡ revise p f (find_row k t)
  find_row-change p f k [] h = refl
  find_row-change p f k (r ∷ rs) h = ground (arith, find_row-change p f k rs h, h r)

  pub id-find_row : (k : ℕ) (t : List A) (a : A) → find_row k t ≡ some a → id a ≡ k
  id-find_row k [] a e = ground arith
  id-find_row k (r ∷ rs) a e = ground (arith, id-find_row k rs a)

  abbrev pub IsCurrent : (A → Bool) → List A → A → Type 0
  IsCurrent p t a = (p a ≡ true) × (find_row (id a) t ≡ some a)

  -- Rows of other keys stay current when a row is put in front.
  drop_key-IsCurrent :
      (p : A → Bool) (r : A) (t l : List A)
      → All (IsCurrent p t) l
      → All (IsCurrent p (r ∷ t)) (drop_key (id r) l)
  drop_key-IsCurrent p r t [] h = tt
  drop_key-IsCurrent p r t (a ∷ l) h = ground (arith, drop_key-IsCurrent p r t l h.1)

  pub select_sound : (p : A → Bool) (t : List A) → All (IsCurrent p t) (select p t)
  select_sound p [] = tt
  select_sound p (r ∷ rs) =
      ground (arith, drop_key-IsCurrent p r rs (select p rs) (select_sound p rs))

  drop_key-In : (a : A) (k : ℕ) (l : List A) → id a ≢ k → In a l → In a (drop_key k l)
  drop_key-In a k [] n h = h
  drop_key-In a k (x ∷ l) n (inl e) = rw (← e) (ground arith)
  drop_key-In a k (x ∷ l) n (inr h) = ground (arith, drop_key-In a k l n h)

  pub select_complete :
      (p : A → Bool) (t : List A) (a : A)
      → p a ≡ true
      → find_row (id a) t ≡ some a
      → In a (select p t)
  select_complete p [] a h e = ground arith
  select_complete p (r ∷ rs) a h e =
      ground (arith, select_complete p rs a h, drop_key-In a (id r) (select p rs))

  abbrev pub rows : Repository A id
  rows = record {
    Table = List A;
    find_one = find_row;
    find = select;
    save = λ a t. a ∷ t;
    delete = λ p. select (λ a. not (p a));
    update = change;
    find_one-save = λ a k t. refl;
    find_one-delete = λ p. find_row-select (λ a. not (p a));
    find_one-update = find_row-change;
    key-find_one = id-find_row;
    find_sound = select_sound;
    find_complete = select_complete;
  }

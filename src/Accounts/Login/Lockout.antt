-- ===== src/Accounts/Login/Lockout.antt =====
-- How many passwords can be tried before the account is locked.
use facilpay_api.Common.{
  ℕ, ◌+◌, ◌*◌, ◌≤◌, ◌<◌, ◌≡◌, refl, sym, ◌∙◌, ◌⊎◌, inl, inr, true, false, none, some, List, [], ◌∷◌,
  leb, All, arith, Bool-cases,
}
use mathlib.Core.Path.{subst}
use facilpay_api.Common.Action.{Result, ok, err, Error, unauthorized, locked}
use facilpay_api.Repository.{find_one-saved}
use facilpay_api.Accounts.Entities.{User}
use facilpay_api.Accounts.State.{Accounts, State, Library}
use facilpay_api.Accounts.Users.{
  is_locked, failed_once, unlocked_if_expired, is_account_locked, increment_failed_login_attempts,
  find_by_email,
}
use facilpay_api.Accounts.Users.Laws.{
  save-IsUnique, IsUnique, find_by_email_unique, not_deleted-listed,
}
use facilpay_api.Accounts.Sessions.{SessionMetadata}
use facilpay_api.Accounts.Tokens.{Fresh}
use facilpay_api.Accounts.Login.{
  LoginDto, Limits, LoginResult, check_lock, count_failure, check_password, login_user, login,
}

module _ {db : Accounts} (library : Library) (limits : Limits) where
  -- A locked account answers with the exception 423, and nothing changes, whatever password is given.
  login_user_locked :
      (fresh : Fresh) (now : ℕ) (dto : LoginDto) (meta : SessionMetadata) (user : User)
      (s : State db)
      → is_locked now user ≡ true
      → login_user library limits fresh now dto meta user s ≡ (err locked, s)
  unfolding login_user check_lock is_account_locked
  login_user_locked fresh now dto meta user s h = ground (arith, h)

  -- A wrong password for an account without a lock is answered with 401, and one failure is saved.
  login_user_wrong :
      (fresh : Fresh) (now : ℕ) (dto : LoginDto) (meta : SessionMetadata) (user : User)
      (s : State db)
      → user.locked_until ≡ none
      → user.deleted_at ≡ none
      → library.compare dto.password user.password ≡ false
      → db.users.find_one user.id s.tables.users ≡ some user
      → s.faults ≡ []
      → let (r, s') = login_user library limits fresh now dto meta user s in
        (r ≡ err unauthorized)
        × (s'.faults ≡ [])
        × (s'.tables.users
            ≡ db.users.save
                (failed_once now limits.max_failed_attempts limits.lock_duration_minutes user)
                s.tables.users)
  unfolding login_user check_lock is_account_locked check_password count_failure
      increment_failed_login_attempts unlocked_if_expired
  login_user_wrong fresh now dto meta user s h d wrong here f = ground (arith, h, d, wrong, here, f)

-- A request to log in, with its time and what would be new in it.
pub record Try : Type 0 where
  pub at : ℕ
  pub fresh : Fresh
  pub dto : LoginDto
  pub meta : SessionMetadata

-- 0 for the exception 423, which is thrown before the password is compared, and 1 for any other
-- answer.
abbrev pub answered : Result LoginResult → ℕ
answered (ok r) = 1
answered (err Error.locked) = 0
answered (err _) = 1

-- A try for the address with a wrong password, in an interval of time.
abbrev pub IsWrong : Library → ℕ → ℕ → ℕ → ℕ → Try → Type 0
IsWrong library email hash start end x =
    (x.dto.email ≡ email)
    × (library.compare x.dto.password hash ≡ false)
    × (start ≤ x.at)
    × (x.at < end)

-- What one more failure does to a user without a lock.
failed_once_facts :
    (now most minutes : ℕ) (user : User)
    → user.locked_until ≡ none
    → let after = failed_once now most minutes user in
      (after.id ≡ user.id)
      × (after.email ≡ user.email)
      × (after.deleted_at ≡ user.deleted_at)
      × (after.password ≡ user.password)
      × (after.failed_login_attempts ≡ user.failed_login_attempts + 1)
      × (((user.failed_login_attempts + 2 ≤ most) × (after.locked_until ≡ none))
          ⊎ ((most ≤ user.failed_login_attempts + 1)
              × (after.locked_until ≡ some (now + minutes * 60 * 1000))))
unfolding failed_once
failed_once_facts now most minutes user h = (
  refl,
  refl,
  refl,
  refl,
  refl,
  elim (Bool-cases (leb most (user.failed_login_attempts + 1))) [
    | inl last ↦ inr (ground (arith, last), rw (last, h) refl)
    | inr early ↦ inl (ground (arith, early), rw (early) h)
  ],
)

module _ {db : Accounts} (library : Library) (limits : Limits) where
  -- How many of a sequence of requests are not answered with 423.
  pub count_answered : List Try → State db → ℕ
  count_answered [] s = 0
  count_answered (x ∷ tries) s =
      let (r, s') = login library limits x.fresh x.at x.dto x.meta s in
      answered r + count_answered tries s'

  -- The user with the address, who is not deleted and has a given hash; no write fails.
  abbrev pub IsTarget : ℕ → ℕ → User → State db → Type 0
  IsTarget email hash user s =
      (db.users.find_one user.id s.tables.users ≡ some user)
      × (user.email ≡ library.normalize_email email)
      × (user.deleted_at ≡ none)
      × (user.password ≡ hash)
      × IsUnique library email s.tables
      × (s.faults ≡ [])

  login_found :
      (email hash start end : ℕ) (x : Try) (user : User) (s : State db)
      → IsTarget email hash user s
      → IsWrong library email hash start end x
      → login library limits x.fresh x.at x.dto x.meta s
        ≡ login_user library limits x.fresh x.at x.dto x.meta user s
  unfolding login
  login_found email hash start end x user s target wrong =
      let found : find_by_email library x.dto.email s.tables ≡ some user = rw (wrong.0) (
        find_by_email_unique library email user s.tables target.4 target.0 target.1
          (not_deleted-listed library user target.2)) in
      rw (login, found) refl

  -- While the account is locked, no try is answered.
  locked_count :
      (email hash start end until : ℕ) (tries : List Try) (user : User) (s : State db)
      → IsTarget email hash user s
      → user.locked_until ≡ some until
      → end ≤ until
      → All (IsWrong library email hash start end) tries
      → count_answered tries s ≡ 0
  unfolding count_answered
  locked_count email hash start end until [] user s target lock long wrong = refl
  locked_count email hash start end until (x ∷ tries) user s target lock long (w, wrong) =
      let is_shut : is_locked x.at user ≡ true = ground (arith, lock, long, w.3) in
      let same =
        login_found email hash start end x user s target w
        ∙ login_user_locked library limits x.fresh x.at x.dto x.meta user s is_shut in
      rw (same)
        (omega (arith, locked_count email hash start end until tries user s target lock long wrong))

  wrong_try-IsTarget :
      (email hash start end : ℕ) (x : Try) (user : User) (s : State db)
      → IsTarget email hash user s
      → user.locked_until ≡ none
      → IsWrong library email hash start end x
      → let (r, s') = login library limits x.fresh x.at x.dto x.meta s in
        (r ≡ err unauthorized)
        × IsTarget email hash
            (failed_once x.at limits.max_failed_attempts limits.lock_duration_minutes user)
            s'
  wrong_try-IsTarget email hash start end x user s target open_account w =
      let most = limits.max_failed_attempts in
      let minutes = limits.lock_duration_minutes in
      let after = failed_once x.at most minutes user in
      let facts = failed_once_facts x.at most minutes user open_account in
      let wrong = subst (λ h. library.compare x.dto.password h ≡ false) (sym target.3) w.1 in
      let step =
        login_user_wrong library limits x.fresh x.at x.dto x.meta user s open_account target.2 wrong
          target.0 target.5 in
      let s' = (login_user library limits x.fresh x.at x.dto x.meta user s).1 in
      rw (login_found email hash start end x user s target w) (
        step.0,
        (
          rw (step.2) (find_one-saved db.users after s.tables.users),
          facts.1 ∙ target.1,
          facts.2 ∙ target.2,
          facts.3 ∙ target.3,
          save-IsUnique library email user after s.tables s'.tables step.2 target.0 target.1 facts.0
              target.4,
          step.1,
        ),
      )

  -- Take the user with an address, who is not deleted and not locked, and whose failed attempts are
  -- below a maximum; no write fails, and no other row has the address. Then, of the requests to log
  -- in with that address and wrong passwords that come in an interval no longer than the lock, at
  -- most the maximum less the failed attempts are answered otherwise than with 423.
  pub count_answered-bound :
      (email hash start end : ℕ) (tries : List Try) (user : User) (s : State db)
      → IsTarget email hash user s
      → user.locked_until ≡ none
      → user.failed_login_attempts + 1 ≤ limits.max_failed_attempts
      → end ≤ start + limits.lock_duration_minutes * 60 * 1000
      → All (IsWrong library email hash start end) tries
      → count_answered tries s + user.failed_login_attempts ≤ limits.max_failed_attempts
  unfolding count_answered
  count_answered-bound email hash start end [] user s target open_account below short wrong =
      omega (arith, below)
  count_answered-bound email hash start end (x ∷ tries) user s target open_account below short
        (w, wrong) =
      let most = limits.max_failed_attempts in
      let minutes = limits.lock_duration_minutes in
      let after = failed_once x.at most minutes user in
      let s' = (login library limits x.fresh x.at x.dto x.meta s).1 in
      let facts = failed_once_facts x.at most minutes user open_account in
      let (answer, next) = wrong_try-IsTarget email hash start end x user s target open_account w in
      rw (answer) (elim facts.5 [
        | inl (still, unlocked) ↦
            let rest =
              count_answered-bound email hash start end tries after s' next unlocked
                (omega (arith, still, facts.4)) short wrong in
            omega (arith, rest, facts.4)
        | inr (last, lock) ↦
            let rest =
              locked_count email hash start end _ tries after s' next lock
                (omega (arith, short, w.2)) wrong in
            omega (arith, rest, below)
      ])

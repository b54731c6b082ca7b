-- ===== src/Security/RateLimit.antt =====
-- internal/security/ratelimit.go. The address is its text, `none` for a nil `net.IP`; the mutex makes
-- each method one step. A time is in seconds. The limiter of golang.org/x/time/rate is a parameter.
pub mod Lockout
pub mod Isolation
use bdsmail.Base.{
  Assoc, Bool, Option, String, [], false, if◌then◌else◌, insert, leb, length, lookup, ltb, none,
  remove, some, true, ℕ, ◌&&◌, ◌*◌, ◌+◌, ◌∷◌,
}

-- rate.NewLimiter(connRate, connBurst), and Allow at a time
pub record Limiters (L : Type 0) : Type 0 where
  pub fresh : L
  pub allow : L → ℕ → Bool × L

pub record AuthTracker : Type 0 where
  pub failures : ℕ
  pub locked_at : ℕ

pub record RateLimiter (L : Type 0) : Type 0 where
  pub conn_limiter : Assoc L
  pub auth_fails : Assoc AuthTracker
  pub max_auth_fail : ℕ
  pub lockout_dur : ℕ

unfoldable pub new_rate_limiter : {L : Type 0} → ℕ → ℕ → RateLimiter L
new_rate_limiter max_auth_fail lockout_dur = record {
  conn_limiter = [];
  auth_fails = [];
  max_auth_fail = max_auth_fail;
  lockout_dur = lockout_dur;
}

module _ {L : Type 0} (limiters : Limiters L) where
  limiter_at : Option L → L
  limiter_at none = limiters.fresh
  limiter_at (some limiter) = limiter

  unfoldable pub allow_connection : RateLimiter L → Option String → ℕ → Bool × RateLimiter L
  unfolding limiter_at
  allow_connection rl none now = (true, rl)
  allow_connection rl (some key) now =
      let (ok, limiter) = limiters.allow (limiter_at (lookup key rl.conn_limiter)) now in
      (ok, record rl { conn_limiter = insert key limiter rl.conn_limiter })

tracker_or_new : Option AuthTracker → AuthTracker
tracker_or_new none = record { failures = 0; locked_at = 0 }
tracker_or_new (some tracker) = tracker

-- one more failure on a tracker
count_failure : ℕ → AuthTracker → ℕ → AuthTracker
count_failure max tracker now = record {
  failures = tracker.failures + 1;
  locked_at = if leb max (tracker.failures + 1) then now else tracker.locked_at;
}

-- the sweep over the trackers
sweep : ℕ → ℕ → ℕ → Assoc AuthTracker → Assoc AuthTracker
sweep max dur now [] = []
sweep max dur now ((key, tracker) ∷ rest) =
    let kept = sweep max dur now rest in
    if leb max tracker.failures && ltb (tracker.locked_at + 2 * dur) now
    then kept
    else (key, tracker) ∷ kept

module _ {L : Type 0} where
  -- the tests under the lock of `IsLockedOut`
  locked_out : RateLimiter L → String → Option AuthTracker → ℕ → Bool × RateLimiter L
  locked_out rl key none now = (false, rl)
  locked_out rl key (some tracker) now =
      if leb rl.max_auth_fail tracker.failures
      then (if ltb now (tracker.locked_at + rl.lockout_dur)
          then (true, rl)
          else (false, record rl { auth_fails = remove key rl.auth_fails }))
      else (false, rl)

  unfoldable pub is_locked_out : RateLimiter L → Option String → ℕ → Bool × RateLimiter L
  unfolding locked_out
  is_locked_out rl none now = (false, rl)
  is_locked_out rl (some key) now = locked_out rl key (lookup key rl.auth_fails) now

  unfoldable pub record_auth_failure : RateLimiter L → Option String → ℕ → RateLimiter L
  unfolding tracker_or_new count_failure
  record_auth_failure rl none now = rl
  record_auth_failure rl (some key) now = record rl {
    auth_fails =
        insert key (count_failure rl.max_auth_fail (tracker_or_new (lookup key rl.auth_fails)) now)
          rl.auth_fails;
  }

  unfoldable pub record_auth_success : RateLimiter L → Option String → RateLimiter L
  record_auth_success rl none = rl
  record_auth_success rl (some key) = record rl { auth_fails = remove key rl.auth_fails }

  -- one tick of `cleanup`
  unfoldable pub cleanup : RateLimiter L → ℕ → RateLimiter L
  unfolding sweep
  cleanup rl now = record rl {
    auth_fails = sweep rl.max_auth_fail rl.lockout_dur now rl.auth_fails;
    conn_limiter = if ltb 10000 (length rl.conn_limiter) then [] else rl.conn_limiter;
  }

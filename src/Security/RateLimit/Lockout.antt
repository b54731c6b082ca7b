-- ===== src/Security/RateLimit/Lockout.antt =====
-- When ratelimit.go locks an address out, and for how long.
use native.Mathlib.Nat.{add-zero}
use bdsmail.Base.{
  List, Option, String, [], ap, arith, eq_refl, leb, length, lookup, lookup-insert, ltb, none, refl,
  some, suc, ℕ, ◌&&◌, ◌+◌, ◌∙◌, ◌∷◌, ◌≡◌, ◌≤◌,
}
use bdsmail.Security.RateLimit.{
  AuthTracker, RateLimiter, count_failure, is_locked_out, locked_out, record_auth_failure,
  tracker_or_new,
}

abbrev pub last_time : ℕ → List ℕ → ℕ
last_time t [] = t
last_time t (u ∷ us) = last_time u us

abbrev pub past_failures : Option AuthTracker → ℕ
past_failures none = 0
past_failures (some t) = t.failures

-- the tracker that failures at the given times leave behind
tally : ℕ → Option AuthTracker → List ℕ → Option AuthTracker
tally max o [] = o
tally max o (t ∷ ts) = tally max (some (count_failure max (tracker_or_new o) t)) ts

-- `n` failures, and the last of them at `t` if that is enough for a lockout
abbrev Tallied : ℕ → ℕ → ℕ → Option AuthTracker → Type 0
Tallied max n t none = ⊥
Tallied max n t (some tracker) = (tracker.failures ≡ n) × (max ≤ n → tracker.locked_at ≡ t)

tally-Tallied :
    (max n t : ℕ) (tracker : AuthTracker) (ts : List ℕ)
    → Tallied max n t (some tracker)
    → Tallied max (n + length ts) (last_time t ts) (tally max (some tracker) ts)
unfolding tally count_failure tracker_or_new
tally-Tallied max n t tracker [] h = rw add-zero h
tally-Tallied max n t tracker (u ∷ us) h =
    let next = count_failure max tracker u in
    let k : Tallied max (n + 1) u (some next) = (omega arith, λ m. ground arith) in
    let e : n + suc (length us) ≡ n + 1 + length us = omega arith in
    rw e (tally-Tallied max (n + 1) u next us k)

first_Tallied :
    (max t : ℕ) (o : Option AuthTracker) (ts : List ℕ)
    → Tallied max (past_failures o + suc (length ts)) (last_time t ts) (tally max o (t ∷ ts))
unfolding tally count_failure tracker_or_new
first_Tallied max t none ts =
    let e : 0 + suc (length ts) ≡ 1 + length ts = omega arith in
    rw e (tally-Tallied max 1 t _ ts (omega arith, λ m. ground arith))
first_Tallied max t (some tracker) ts =
    let e : tracker.failures + suc (length ts) ≡ tracker.failures + 1 + length ts = omega arith in
    rw e (tally-Tallied max (tracker.failures + 1) t _ ts (omega arith, λ m. ground arith))

module _ {L : Type 0} where
  -- failures of one address, at the given times
  abbrev pub fail_at : RateLimiter L → String → List ℕ → RateLimiter L
  fail_at rl key [] = rl
  fail_at rl key (t ∷ ts) = fail_at (record_auth_failure rl (some key) t) key ts

  fail_at-tally :
      (rl : RateLimiter L) (key : String) (ts : List ℕ)
      → lookup key (fail_at rl key ts).auth_fails
        ≡ tally rl.max_auth_fail (lookup key rl.auth_fails) ts
  unfolding record_auth_failure tally
  fail_at-tally rl key [] = refl
  fail_at-tally rl key (t ∷ ts) =
      fail_at-tally (record_auth_failure rl (some key) t) key ts
      ∙ ap (λ o. tally rl.max_auth_fail o ts) (simp (lookup-insert, eq_refl))

  fail_at_config :
      (rl : RateLimiter L) (key : String) (ts : List ℕ)
      → ((fail_at rl key ts).max_auth_fail ≡ rl.max_auth_fail)
        × ((fail_at rl key ts).lockout_dur ≡ rl.lockout_dur)
  unfolding record_auth_failure
  fail_at_config rl key [] = (refl, refl)
  fail_at_config rl key (t ∷ ts) = fail_at_config (record_auth_failure rl (some key) t) key ts

  locked_out-Tallied :
      (rl : RateLimiter L) (key : String) (o : Option AuthTracker) (max dur n t now : ℕ)
      → rl.max_auth_fail ≡ max
      → rl.lockout_dur ≡ dur
      → Tallied max n t o
      → (locked_out rl key o now).0 ≡ (leb max n && ltb now (t + dur))
  unfolding locked_out
  locked_out-Tallied rl key none max dur n t now p q h = elim h [ ]
  locked_out-Tallied rl key (some tracker) max dur n t now p q h = ground arith

  -- After failed logins at the times `t ∷ ts` and no success, on top of those that the tracker held:
  -- the address is locked out at `now` exactly if their number has reached the maximum and the
  -- lockout has not yet run for its duration since the last of them.
  pub lockout_exact :
      (rl : RateLimiter L) (key : String) (t : ℕ) (ts : List ℕ) (now : ℕ)
      → (is_locked_out (fail_at rl key (t ∷ ts)) (some key) now).0 ≡ (
          leb rl.max_auth_fail (past_failures (lookup key rl.auth_fails) + suc (length ts))
          && ltb now (last_time t ts + rl.lockout_dur))
  unfolding is_locked_out
  lockout_exact rl key t ts now =
      let (same_max, same_dur) = fail_at_config rl key (t ∷ ts) in
      rw (fail_at-tally rl key (t ∷ ts)) (
        locked_out-Tallied (fail_at rl key (t ∷ ts)) key _ rl.max_auth_fail rl.lockout_dur _ _ now
          same_max same_dur (first_Tallied rl.max_auth_fail t (lookup key rl.auth_fails) ts))

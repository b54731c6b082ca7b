-- ===== src/Security/RateLimit/Isolation.antt =====
-- The addresses do not disturb one another, and the sweep of `cleanup` unlocks nobody.
use bdsmail.Base.{
  All, Assoc, Bool, List, Option, String, [], arith, eq_iff, false, insert, leb, lookup,
  lookup-insert, lookup-remove, ltb, none, refl, remove, some, ℕ, ◌&&◌, ◌+◌, ◌==◌, ◌∙◌, ◌∷◌, ◌≡◌,
  ◌≢◌, ◌≤◌,
}
use bdsmail.Security.RateLimit.{
  AuthTracker, RateLimiter, cleanup, is_locked_out, record_auth_failure, record_auth_success, sweep,
}

-- the calls that touch the failure counters
pub data Event : Type 0 where
  failure success query : Option String → Event
  tick : Event

abbrev pub touches : String → Event → Bool
touches key (failure (some k)) = k == key
touches key (success (some k)) = k == key
touches key _ = false

module _ {L : Type 0} where
  pub step : RateLimiter L → Event → ℕ → RateLimiter L
  step rl (failure ip) now = record_auth_failure rl ip now
  step rl (success ip) now = record_auth_success rl ip
  step rl (query ip) now = (is_locked_out rl ip now).1
  step rl tick now = cleanup rl now

-- The entries of a Go map have different keys.
abbrev IsFresh : String → Assoc AuthTracker → Type 0
IsFresh k [] = Unit
IsFresh k ((j, _) ∷ m) = (j ≢ k) × IsFresh k m

abbrev pub HasKeysOnce : Assoc AuthTracker → Type 0
HasKeysOnce [] = Unit
HasKeysOnce ((k, _) ∷ m) = IsFresh k m × HasKeysOnce m

IsFresh-insert :
    (j k : String) (v : AuthTracker) (m : Assoc AuthTracker)
    → j ≢ k
    → IsFresh k m
    → IsFresh k (insert j v m)
unfolding insert
IsFresh-insert j k v [] d h = (d, tt)
IsFresh-insert j k v ((i, w) ∷ m) d h = ground (arith, eq_iff i j, IsFresh-insert j k v m d)

HasKeysOnce-insert :
    (k : String) (v : AuthTracker) (m : Assoc AuthTracker)
    → HasKeysOnce m
    → HasKeysOnce (insert k v m)
unfolding insert
HasKeysOnce-insert k v [] h = (tt, tt)
HasKeysOnce-insert k v ((i, w) ∷ m) h =
    ground (arith, eq_iff i k, HasKeysOnce-insert k v m, IsFresh-insert k i v m)

IsFresh-remove : (j k : String) (m : Assoc AuthTracker) → IsFresh k m → IsFresh k (remove j m)
unfolding remove
IsFresh-remove j k [] h = tt
IsFresh-remove j k ((i, w) ∷ m) h = ground (arith, IsFresh-remove j k m)

HasKeysOnce-remove : (k : String) (m : Assoc AuthTracker) → HasKeysOnce m → HasKeysOnce (remove k m)
unfolding remove
HasKeysOnce-remove k [] h = tt
HasKeysOnce-remove k ((i, w) ∷ m) h = ground (arith, HasKeysOnce-remove k m, IsFresh-remove k i m)

module _ (max dur now : ℕ) where
  IsFresh-sweep :
      (k : String) (m : Assoc AuthTracker) → IsFresh k m → IsFresh k (sweep max dur now m)
  unfolding sweep
  IsFresh-sweep k [] h = tt
  IsFresh-sweep k ((i, w) ∷ m) h = ground (arith, IsFresh-sweep k m)

  HasKeysOnce-sweep : (m : Assoc AuthTracker) → HasKeysOnce m → HasKeysOnce (sweep max dur now m)
  unfolding sweep
  HasKeysOnce-sweep [] h = tt
  HasKeysOnce-sweep ((i, w) ∷ m) h = ground (arith, HasKeysOnce-sweep m, IsFresh-sweep i m)

lookup_of_IsFresh : (k : String) (m : Assoc AuthTracker) → IsFresh k m → lookup k m ≡ none
unfolding lookup
lookup_of_IsFresh k [] h = refl
lookup_of_IsFresh k ((i, w) ∷ m) h = ground (arith, eq_iff i k, lookup_of_IsFresh k m)

-- what a tracker says at a time
abbrev says : ℕ → ℕ → ℕ → Option AuthTracker → Bool
says max dur now none = false
says max dur now (some tracker) = leb max tracker.failures && ltb now (tracker.locked_at + dur)

says-sweep :
    (max dur now later : ℕ) (k : String) (m : Assoc AuthTracker)
    → HasKeysOnce m
    → now ≤ later
    → says max dur later (lookup k (sweep max dur now m)) ≡ says max dur later (lookup k m)
unfolding lookup sweep
says-sweep max dur now later k [] h le = refl
says-sweep max dur now later k ((i, w) ∷ m) h le = ground (
  arith,
  eq_iff i k,
  says-sweep max dur now later k m,
  lookup_of_IsFresh k (sweep max dur now m),
  IsFresh-sweep max dur now k m,
)

module _ {L : Type 0} where
  locked-eq-says :
      (rl : RateLimiter L) (key : String) (now : ℕ)
      → (is_locked_out rl (some key) now).0
        ≡ says rl.max_auth_fail rl.lockout_dur now (lookup key rl.auth_fails)
  unfolding is_locked_out
  locked-eq-says rl key now = ground arith

  step-HasKeysOnce :
      (rl : RateLimiter L) (e : Event) (now : ℕ)
      → HasKeysOnce rl.auth_fails
      → HasKeysOnce (step rl e now).auth_fails
  unfolding step record_auth_failure record_auth_success is_locked_out cleanup
  step-HasKeysOnce rl (failure none) now h = h
  step-HasKeysOnce rl (failure (some key)) now h = HasKeysOnce-insert key _ rl.auth_fails h
  step-HasKeysOnce rl (success none) now h = h
  step-HasKeysOnce rl (success (some key)) now h = HasKeysOnce-remove key rl.auth_fails h
  step-HasKeysOnce rl (query none) now h = h
  step-HasKeysOnce rl (query (some key)) now h =
      ground (arith, HasKeysOnce-remove key rl.auth_fails)
  step-HasKeysOnce rl tick now h = HasKeysOnce-sweep _ _ now rl.auth_fails h

  step_config :
      (rl : RateLimiter L) (e : Event) (now : ℕ)
      → ((step rl e now).max_auth_fail ≡ rl.max_auth_fail)
        × ((step rl e now).lockout_dur ≡ rl.lockout_dur)
  unfolding step record_auth_failure record_auth_success is_locked_out cleanup
  step_config rl (failure none) now = (refl, refl)
  step_config rl (failure (some key)) now = (refl, refl)
  step_config rl (success none) now = (refl, refl)
  step_config rl (success (some key)) now = (refl, refl)
  step_config rl (query ip) now = ground arith
  step_config rl tick now = (refl, refl)

  step-says :
      (rl : RateLimiter L) (e : Event) (key : String) (now later : ℕ)
      → HasKeysOnce rl.auth_fails
      → touches key e ≡ false
      → now ≤ later
      → says rl.max_auth_fail rl.lockout_dur later (lookup key (step rl e now).auth_fails)
        ≡ says rl.max_auth_fail rl.lockout_dur later (lookup key rl.auth_fails)
  unfolding step record_auth_failure record_auth_success is_locked_out cleanup
  step-says rl (failure none) key now later h t le = refl
  step-says rl (failure (some k)) key now later h t le = simp lookup-insert (rw t)
  step-says rl (success none) key now later h t le = refl
  step-says rl (success (some k)) key now later h t le = simp lookup-remove (rw t)
  step-says rl (query none) key now later h t le = refl
  step-says rl (query (some k)) key now later h t le =
      ground (arith, lookup-remove k key rl.auth_fails, eq_iff k key)
  step-says rl tick key now later h t le = says-sweep _ _ now later key rl.auth_fails h le

  -- the calls of a history, each with its time
  pub run : RateLimiter L → List (ℕ × Event) → RateLimiter L
  run rl [] = rl
  run rl ((now, e) ∷ rest) = run (step rl e now) rest

  -- Through any history of calls up to the time `later` that neither record a failure nor a success
  -- of the address, and that may look up any address, count other addresses and sweep: whether the
  -- address is locked out at `later` stays as it was.
  pub locked-run_bystander :
      (rl : RateLimiter L) (key : String) (later : ℕ) (events : List (ℕ × Event))
      → HasKeysOnce rl.auth_fails
      → All (λ c. (touches key c.1 ≡ false) × (c.0 ≤ later)) events
      → (is_locked_out (run rl events) (some key) later).0 ≡ (is_locked_out rl (some key) later).0
  unfolding run
  locked-run_bystander rl key later [] h all = refl
  locked-run_bystander rl key later ((now, e) ∷ rest) h ((t, le), all) =
      locked-run_bystander (step rl e now) key later rest (step-HasKeysOnce rl e now h) all
      ∙ (let (same_max, same_dur) = step_config rl e now in
          simp (locked-eq-says, same_max, same_dur) (step-says rl e key now later h t le))

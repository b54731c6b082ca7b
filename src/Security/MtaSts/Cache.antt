-- ===== src/Security/MtaSts/Cache.antt =====
-- The cache of mtasts.go.
use bdsmail.Base.{
  String, ap, arith, lookup, lookup-insert_self, lt_ℤ, none, pos, some, true, ℕ, ◌*◌, ◌-◌, ◌<◌, ◌^◌,
  ◌∙◌, ◌≡◌,
}
use bdsmail.Security.MtaSts.{
  CacheEntry, MtastsCache, MtastsPolicy, Web, cached_or_fetch, fetch, get_policy, is_current,
  lifetime,
}

lt-lifetime :
    (n age : ℕ)
    → age < n
    → n * 10 ^ 9 < 2 ^ 63
    → lt_ℤ (pos (age * 10 ^ 9)) (lifetime (pos n)) ≡ true
unfolding lifetime
lt-lifetime n age h fits = ground arith

-- a fetch that returns a policy stores it with its time
fetch-stored :
    (web : Web) (cache : MtastsCache) (domain : String) (t : ℕ) (policy : MtastsPolicy)
    → (fetch web cache domain t).0 ≡ some (some policy)
    → lookup domain (fetch web cache domain t).1 ≡ some (record { policy = policy; fetched_at = t })
unfolding fetch
fetch-stored web cache domain t policy h =
    ground (arith, lookup-insert_self domain (record { policy = policy; fetched_at = t }) cache)

get_policy_absent :
    (web : Web) (cache : MtastsCache) (domain : String) (t : ℕ)
    → lookup domain cache ≡ none
    → get_policy web cache domain t ≡ fetch web cache domain t
unfolding get_policy
get_policy_absent web cache domain t absent = ap (cached_or_fetch web cache domain t) absent

get_policy_current :
    (web : Web) (cache : MtastsCache) (domain : String) (t : ℕ) (entry : CacheEntry)
    → lookup domain cache ≡ some entry
    → is_current entry t ≡ true
    → get_policy web cache domain t ≡ (some (some entry.policy), cache)
unfolding get_policy
get_policy_current web cache domain t entry found current =
    ap (cached_or_fetch web cache domain t) found ∙ rw current

-- A request for a domain that the cache does not hold fetches its policy. If that returned a policy
-- at the time `t`, a later request for the domain gets the same policy with no look at DNS or at the
-- web and with no change of the cache, as long as fewer seconds than the policy's max_age have
-- passed, if max_age in nanoseconds fits an int64.
get_policy_cached :
    (web web' : Web) (cache : MtastsCache) (domain : String) (t now n : ℕ) (policy : MtastsPolicy)
    → lookup domain cache ≡ none
    → (get_policy web cache domain t).0 ≡ some (some policy)
    → policy.max_age ≡ pos n
    → n * 10 ^ 9 < 2 ^ 63
    → now - t < n
    → get_policy web' (get_policy web cache domain t).1 domain now
      ≡ (some (some policy), (get_policy web cache domain t).1)
get_policy_cached web web' cache domain t now n policy absent fetched age fits fresh =
    let e = get_policy_absent web cache domain t absent in
    rw e (
      get_policy_current web' (fetch web cache domain t).1 domain now entry
        (fetch-stored web cache domain t policy (rw e at fetched)) current)
  where
    entry : CacheEntry
    entry = record { policy = policy; fetched_at = t }

    current : is_current entry now ≡ true
    current = unfold is_current in rw age (lt-lifetime n (now - t) fresh fits)

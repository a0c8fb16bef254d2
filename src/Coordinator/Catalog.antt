-- ===== src/Coordinator/Catalog.antt =====
-- The one-time load of the ContentStack catalogue and its retry_backoff: `_load_contentstack`
-- (custom_components/delonghi_coffee/coordinator.py).
use delonghi_ha.Prelude.{
  ℕ, suc, ◌+◌, ◌*◌, ◌^◌, ◌≤◌, min, Bool, true, false, ◌==◌, if◌then◌else◌, ◌≡◌, arith,
}
use native.Mathlib.Nat.{one-le-pow, pow-suc}
use delonghi_ha.Prelude.Raise.{Result, ok, raise}

-- FULL_REFRESH_INTERVAL and CONTENTSTACK_RETRY_MAX, in seconds.
abbrev pub full_refresh_interval : ℕ
full_refresh_interval = 600

abbrev pub contentstack_retry_max : ℕ
contentstack_retry_max = 21600

-- `_contentstack_loaded`, `_cs_failures` and `_cs_next_retry`.
pub record Catalog : Type 0 where
  pub loaded : Bool
  pub failures : ℕ
  pub next_retry : ℕ

unfoldable pub retry_backoff : ℕ → ℕ
retry_backoff failures = min (full_refresh_interval * 2 ^ failures) contentstack_retry_max

-- Whether a pattern for the model is found, what the three fetches give, and the clock after them.
unfoldable pub load_contentstack : Bool → Result (Unit {0}) → ℕ → Catalog → Catalog
load_contentstack false fetched clock c = record c { loaded = true }
load_contentstack true (ok done) clock c =
    if c.failures == 0
    then record c { loaded = true }
    else record { loaded = true; failures = 0; next_retry = 0 }
load_contentstack true (raise e) clock c = record c {
  failures = suc c.failures;
  next_retry = clock + retry_backoff (suc c.failures);
}

-- A failed load is tried again no sooner than 20 minutes and no later than 6 hours after it, and
-- each further failure waits at least as long.
pub retry_backoff-bounds :
    (n : ℕ)
    → (1200 ≤ retry_backoff (suc n))
      × (retry_backoff (suc n) ≤ 21600)
      × (retry_backoff (suc n) ≤ retry_backoff (suc (suc n)))
unfolding retry_backoff
retry_backoff-bounds n =
    let one : 1 ≤ 2 ^ n = one-le-pow n 2 (omega arith) in
    let two : 2 ^ suc n ≡ 2 ^ n * 2 = pow-suc 2 n in
    let four : 2 ^ suc (suc n) ≡ 2 ^ suc n * 2 = pow-suc 2 (suc n) in
    (ground (arith, one, two), ground arith, ground (arith, one, two, four))

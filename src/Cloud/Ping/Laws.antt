-- ===== src/Cloud/Ping/Laws.antt =====
-- When pings are given up.
use delonghi_ha.Prelude.{
  ℕ, List, ◌++◌, Bool, true, false, Option, none, some, ◌≡◌, refl, arith, ◌⊎◌, ◌≢◌, inl, inr, ap,
  ◌==◌, if_rule,
}
use mathlib.Core.Path.{subst}
use delonghi_ha.Prelude.Raise.{Exception, Result, ok, raise, api, transport}
use delonghi_ha.Cloud.Send.{Reply, status, request_exception, timestamp, app_signature}
use delonghi_ha.Cloud.Ping.{Ping, formats, pinged, ping_loop, ping_connected}

-- The exception with which an answer ends the call: DeLonghiApiError for a status other than 201 and
-- 404, and the exception of the client if there is no answer.
abbrev pub Fails : Reply → Exception → Type 0
Fails reply e =
    ((reply ≡ request_exception) × (e ≡ transport))
    ⊎ ((code : ℕ) × (reply ≡ status code) × (code ≢ 201) × (code ≢ 404) × (e ≡ api))

-- How a call may end, by the answers to the two packets.
abbrev pub Ends : Reply → Reply → Option Bool → Result Bool × Ping → Type 0
Ends first second cached end =
    ((first ≡ status 404)
      × (second ≡ status 404)
      × (end.0 ≡ ok false)
      × (end.1.supported ≡ some false))
    ⊎ (((first ≡ status 201) ⊎ ((first ≡ status 404) × (second ≡ status 201)))
        × (end.0 ≡ ok true)
        × (end.1.supported ≡ some true))
    ⊎ ((e : Exception) × (Fails first e ⊎ ((first ≡ status 404) × Fails second e))
        × (end.0 ≡ raise e)
        × (end.1.supported ≡ cached))

other_code : (code : ℕ) → (code == 201) ≡ false → (code == 404) ≡ false → Fails (status code) api
other_code code h k = inr (code, refl, ground arith, ground arith, refl)

second-Ends :
    (second : Reply) (p : Ping) (continue : Ping → Result Bool × Ping)
    → (continue p).0 ≡ ok false
    → (continue p).1.supported ≡ some false
    → Ends (status 404) second p.supported (pinged second p continue)
unfolding pinged
second-Ends request_exception p continue h k =
    inr (inr (transport, inr (refl, inl (refl, refl)), refl, refl))
second-Ends (status code) p continue h k =
    if_rule (Ends (status 404) (status code) p.supported) (code == 201)
      (λ e. inr (inl (inr (refl, ap status (ground arith)), refl, refl)))
      (λ e.
        if_rule (Ends (status 404) (status code) p.supported) (code == 404)
          (λ g. inl (refl, ap status (ground arith), h, k))
          (λ g. inr (inr (api, inr (refl, other_code code e g), refl, refl))))

first-Ends :
    (first second : Reply) (p : Ping) (continue : Ping → Result Bool × Ping)
    → Ends (status 404) second p.supported (continue p)
    → Ends first second p.supported (pinged first p continue)
unfolding pinged
first-Ends request_exception second p continue h =
    inr (inr (transport, inl (inl (refl, refl)), refl, refl))
first-Ends (status code) second p continue h =
    if_rule (Ends (status code) second p.supported) (code == 201)
      (λ e. inr (inl (inl (ap status (ground arith)), refl, refl)))
      (λ e.
        if_rule (Ends (status code) second p.supported) (code == 404)
          (λ g. subst (λ n. Ends (status n) second p.supported (continue p)) (ground arith) h)
          (λ g. inr (inr (api, inl (other_code code e g), refl, refl))))

-- Where pings were not given up before, they are given up, with the result false, only if the server
-- answers 404 to both packets. A 201 to the first packet, or a 404 to it and a 201 to the second, gives
-- true and caches that pings work. In all other cases the first answer that is no 404 ends the call, with
-- DeLonghiApiError for any other status and the client's own exception for no answer, and the cache is as
-- it was.
pub ping_connected_lem :
    (post : List ℕ → Reply) (now : ℕ) (cached : Option Bool)
    → cached ≢ some false
    → Ends
        (post (timestamp now ++ app_signature))
        (post (timestamp now))
        cached
        (ping_connected post now cached)
unfolding ping_connected ping_loop formats
ping_connected_lem post now none h = first-Ends _ _ _ _ (second-Ends _ _ _ refl refl)
ping_connected_lem post now (some true) h = first-Ends _ _ _ _ (second-Ends _ _ _ refl refl)
ping_connected_lem post now (some false) h = absurd (h refl)

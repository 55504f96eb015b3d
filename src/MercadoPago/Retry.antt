-- ===== src/MercadoPago/Retry.antt =====
-- internal/provider/mercadopago/client.go: how often and how long `doWithRetry` tries, and what it
-- returns.
use billax.Prelude.{
  ℕ, zero, suc, ◌+◌, ◌-◌, ◌*◌, ◌/◌, ◌^◌, ◌≤◌, ◌<◌, ◌≡◌, refl, ap, Option, none, some, List, [], ◌∷◌,
  ◌++◌, arith, ◌==◌, if◌then◌else◌, length, All,
}
use billax.Errors.{Error}
use billax.Result.{Result, ok, err}
use billax.MercadoPago.Client.{
  HttpRequest, HttpResponse, Network, Wire, Step, wait, send, base_delay, Traced, judged, pause,
  no_error, tried, attempts, do_with_retry,
}

-- The requests of a trace, and the nanoseconds waited.
abbrev pub sent : List Step → List HttpRequest
sent [] = []
sent (wait d ∷ steps) = sent steps
sent (send req ∷ steps) = req ∷ sent steps

abbrev pub waited : List Step → ℕ
waited [] = 0
waited (wait d ∷ steps) = d + waited steps
waited (send req ∷ steps) = waited steps

-- The same request, at most `n` times.
abbrev pub Repeats : HttpRequest → ℕ → List HttpRequest → Type 0
Repeats req n reqs = All (λ r. r ≡ req) reqs × (length reqs ≤ n)

-- The longest wait before an attempt, and the longest waits of the attempts that are left.
abbrev longest : ℕ → ℕ
longest attempt =
    if attempt == 0 then 0 else base_delay * 2 ^ (attempt - 1) + base_delay * 2 ^ (attempt - 1) / 2

budget : ℕ → ℕ → ℕ
budget zero attempt = 0
budget (suc left) attempt = longest attempt + budget left (attempt + 1)

-- `rand.Int63n(int64(delay) / 2)`
abbrev pub IsJitter : Network → Type 0
IsJitter net = (n : ℕ) → net.jitter n < base_delay * 2 ^ (n - 1) / 2

pub sent-append : (xs ys : List Step) → sent (xs ++ ys) ≡ sent xs ++ sent ys
sent-append [] ys = refl
sent-append (wait d ∷ xs) ys = sent-append xs ys
sent-append (send r ∷ xs) ys = ap (λ rs. r ∷ rs) (sent-append xs ys)

waited-append : (xs ys : List Step) → waited (xs ++ ys) ≡ waited xs + waited ys
waited-append [] ys = omega arith
waited-append (wait d ∷ xs) ys = omega (arith, waited-append xs ys)
waited-append (send r ∷ xs) ys = waited-append xs ys

-- The two measures along one round that began with some waits.
tried-Repeats :
    (stop : Option Error × List Step) (req : HttpRequest) (n : ℕ) (r : Result HttpResponse)
    (again : Error → Traced HttpResponse)
    → sent stop.1 ≡ []
    → ((e : Error) → Repeats req n (sent (again e).1))
    → Repeats req (suc n) (sent (tried stop req r again).1)
unfolding tried
tried-Repeats (some e, waits) req n r again none_yet h = rw none_yet (tt, omega arith)
tried-Repeats (none, waits) req n (ok resp) again none_yet h =
    rw (sent-append, none_yet) ((refl, tt), omega arith)
tried-Repeats (none, waits) req n (err e) again none_yet h =
    rw (sent-append, sent-append, none_yet) ((refl, (h e).0), omega (arith, (h e).1))

waited-tried :
    (stop : Option Error × List Step) (req : HttpRequest) (n : ℕ) (r : Result HttpResponse)
    (again : Error → Traced HttpResponse)
    → ((e : Error) → waited (again e).1 ≤ n)
    → waited (tried stop req r again).1 ≤ waited stop.1 + n
unfolding tried
waited-tried (some e, waits) req n r again h = omega arith
waited-tried (none, waits) req n (ok resp) again h =
    omega (arith, waited-append waits (send req ∷ []))
waited-tried (none, waits) req n (err e) again h = omega (
  arith,
  h e,
  waited-append waits (send req ∷ []),
  waited-append (waits ++ send req ∷ []) (again e).1,
)

pub sent-pause : (net : Network) (attempt : ℕ) → sent (pause net attempt).1 ≡ []
sent-pause net attempt = ground arith

waited-pause :
    (net : Network) (attempt : ℕ) → IsJitter net → waited (pause net attempt).1 ≤ longest attempt
waited-pause net attempt h = let b = h attempt in ground (arith, b)

module _ (wire : Wire) (net : Network) (req : HttpRequest) where
  attempts-Repeats :
      (left attempt : ℕ) (last : Error)
      → Repeats req left (sent (attempts wire net left attempt req last).1)
  unfolding attempts
  attempts-Repeats zero attempt last = (tt, omega arith)
  attempts-Repeats (suc left) attempt last =
      tried-Repeats (pause net attempt) req left _ _ (sent-pause net attempt)
        (attempts-Repeats left (attempt + 1))

  waited-attempts :
      (left attempt : ℕ) (last : Error)
      → IsJitter net
      → waited (attempts wire net left attempt req last).1 ≤ budget left attempt
  unfolding attempts budget
  waited-attempts zero attempt last h = omega arith
  waited-attempts (suc left) attempt last h = omega (
    arith,
    waited-pause net attempt h,
    waited-tried (pause net attempt) req (budget left (attempt + 1))
        (judged wire (net.answer attempt req)) (attempts wire net left (attempt + 1) req)
        (λ e. waited-attempts left (attempt + 1) e h),
  )

  -- The client sends one request, at most four times, and waits for at most ten and a half seconds in
  -- all, if the random part of a wait is less than half of the wait. This holds for every answer of
  -- the network.
  pub do_with_retry-bounded :
      IsJitter net
      → Repeats req 4 (sent (do_with_retry wire net req).1)
        × (waited (do_with_retry wire net req).1 ≤ 10500000000)
  unfolding do_with_retry
  do_with_retry-bounded h = (
    attempts-Repeats 4 0 no_error,
    let all_waits : budget 4 0 ≡ 10500000000 = unfold budget in refl in
        omega (arith, all_waits, waited-attempts 4 0 no_error h),
  )

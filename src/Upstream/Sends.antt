-- ===== src/Upstream/Sends.antt =====
-- What a request to Hermes may send (src/xpd_report_agent/api/sessions.py).
use mathlib.Core.Path.{subst}
use xpd_report_agent.Prelude.{
  ℕ, zero, suc, ◌+◌, ◌-◌, ◌≤◌, ◌≡◌, refl, sym, ◌∙◌, ◌≢◌, inl, inr, Bool, true, false, ◌&&◌, List,
  [], ◌∷◌, arith, if◌then◌else◌, Bool-cases, length, filter,
}
use xpd_report_agent.Prelude.Env.{Setting, unset, malformed, number}
use xpd_report_agent.Prelude.Json.{pos, negsuc}
use xpd_report_agent.Prelude.Result.{Outcome, ok, err}
use xpd_report_agent.Errors.Contract.{is_transient}
use xpd_report_agent.Upstream.Request.{
  Response, Exchange, connect_error, timeout, connection_error, response, UpstreamError, http,
  no_response, invalid_json, onward, invalid_json, onward, invalid_json, onward, Call,
  hermes_connect_attempts, Next, again, give_up, answered, after, Sent, made, last, attempts_from,
  exchanges_of,
}

-- An exchange in which Hermes may have received the request.
abbrev pub is_connected : Exchange → Bool
is_connected connect_error = false
is_connected _ = true

abbrev pub connections : List Exchange → ℕ
connections es = length (filter is_connected es)

abbrev connection : Exchange → ℕ
connection e = if is_connected e then 1 else 0

-- How an outcome tells the number of connections: a response came over one, and an error whose
-- outcome is known had none.
abbrev pub Tells : ℕ → Outcome UpstreamError Response → Type 0
Tells n (ok r) = n ≡ 1
Tells n (err (http status d)) = n ≡ (if d.outcome_unknown then 1 else 0)
Tells n (err no_response) = ⊥
Tells n (err invalid_json) = ⊥

abbrev TellsNext : ℕ → Next → Type 0
TellsNext n again = n ≡ 0
TellsNext n (give_up e) = Tells n (err e)
TellsNext n (answered r) = n ≡ 1

-- What follows an attempt of an unsafe request: it goes on only where no connection was made.
after-TellsNext :
    (c : Call) (more : Bool) (attempt : ℕ) (e : Exchange)
    → c.safe_retry ≡ false
    → TellsNext (connection e) (after c more attempt e)
unfolding after
after-TellsNext c true attempt connect_error u = refl
after-TellsNext c false attempt connect_error u = refl
after-TellsNext c more attempt timeout u = rw u refl
after-TellsNext c more attempt connection_error u = rw u refl
after-TellsNext c more attempt (response r) u = elim (Bool-cases (is_transient r.status_code)) [
  | inl b ↦ rw (b, u) refl
  | inr b ↦ rw b refl
]

connections-single : (e : Exchange) → connections (e ∷ []) ≡ connection e
connections-single e = ground arith

-- A last attempt does not go on.
after-last : (c : Call) (attempt : ℕ) (e : Exchange) → after c false attempt e ≢ again
unfolding after
after-last c attempt connect_error = λ h. absurd (ground arith)
after-last c attempt timeout = λ h. absurd (ground arith)
after-last c attempt connection_error = λ h. absurd (ground arith)
after-last c attempt (response r) = λ h. absurd (ground arith)

last-Tells :
    (e : Exchange) (n : Next)
    → TellsNext (connection e) n
    → n ≢ again
    → Tells (connections (last e n).exchanges) (last e n).result
last-Tells e again t h = absurd (h refl)
last-Tells e (give_up x) t h = subst (λ k. Tells k (err x)) (sym (connections-single e)) t
last-Tells e (answered r) t h = connections-single e ∙ t

connections-made :
    (e : Exchange) (s : Sent)
    → connection e ≡ 0
    → connections (made e s).exchanges ≡ connections s.exchanges
connections-made e s h = ground arith

onward-Tells :
    (e : Exchange) (n : Next) (rest : Sent)
    → TellsNext (connection e) n
    → Tells (connections rest.exchanges) rest.result
    → Tells (connections (onward e n rest).exchanges) (onward e n rest).result
onward-Tells e again rest t h = subst (λ k. Tells k rest.result) (sym (connections-made e rest t)) h
onward-Tells e (give_up x) rest t h = subst (λ k. Tells k (err x)) (sym (connections-single e)) t
onward-Tells e (answered r) rest t h = connections-single e ∙ t

module _ (c : Call) (send : ℕ → Exchange) (unsafe : c.safe_retry ≡ false) where
  attempts_from-Tells :
      (attempt left : ℕ)
      → Tells
          (connections (attempts_from c send attempt left).exchanges)
          (attempts_from c send attempt left).result
  unfolding attempts_from
  attempts_from-Tells attempt zero =
      last-Tells (send attempt) (after c false attempt (send attempt))
        (after-TellsNext c false attempt (send attempt) unsafe)
        (after-last c attempt (send attempt))
  attempts_from-Tells attempt (suc left) =
      onward-Tells (send attempt) (after c true attempt (send attempt))
        (attempts_from c send (attempt + 1) left)
        (after-TellsNext c true attempt (send attempt) unsafe)
        (attempts_from-Tells (attempt + 1) left)

  -- A request whose method may not be repeated reaches Hermes at most once, and its outcome tells
  -- whether it did: a response and an error of unknown outcome come with one connection, any other
  -- error with none.
  pub exchanges_of-Tells :
      (attempts : ℕ)
      → Tells
          (connections (exchanges_of c send attempts).exchanges)
          (exchanges_of c send attempts).result
  unfolding exchanges_of
  exchanges_of-Tells attempts = attempts_from-Tells 1 (attempts - 1)

-- At least one exchange, and at most so many
abbrev Ends : ℕ → Sent → Type 0
Ends bound s =
    (1 ≤ length s.exchanges) × (length s.exchanges ≤ bound) × (s.result ≢ err no_response)

-- An attempt that gives up has an HTTP error.
abbrev GivesHttp : Next → Type 0
GivesHttp again = Unit
GivesHttp (give_up (http status d)) = Unit
GivesHttp (give_up no_response) = ⊥
GivesHttp (give_up invalid_json) = ⊥
GivesHttp (answered r) = Unit

after-GivesHttp :
    (c : Call) (more : Bool) (attempt : ℕ) (e : Exchange) → GivesHttp (after c more attempt e)
unfolding after
after-GivesHttp c true attempt connect_error = tt
after-GivesHttp c false attempt connect_error = tt
after-GivesHttp c more attempt timeout = elim (Bool-cases (c.safe_retry && more)) [
  | inl b ↦ rw b tt
  | inr b ↦ rw b tt
]
after-GivesHttp c more attempt connection_error = elim (Bool-cases (c.safe_retry && more)) [
  | inl b ↦ rw b tt
  | inr b ↦ rw b tt
]
after-GivesHttp c more attempt (response r) =
    elim (Bool-cases (is_transient r.status_code && c.safe_retry && more)) [
      | inl b ↦ rw b tt
      | inr b ↦ rw b tt
    ]

last-Ends : (e : Exchange) (n : Next) → GivesHttp n → n ≢ again → Ends 1 (last e n)
last-Ends e again g h = absurd (h refl)
last-Ends e (give_up (http status d)) g h = (omega arith, omega arith, λ k. absurd (ground arith))
last-Ends e (give_up no_response) g h = absurd g
last-Ends e (give_up invalid_json) g h = absurd g
last-Ends e (answered r) g h = (omega arith, omega arith, λ k. absurd (ground arith))

onward-Ends :
    (e : Exchange) (n : Next) (rest : Sent) (bound : ℕ)
    → GivesHttp n
    → Ends bound rest
    → Ends (suc bound) (onward e n rest)
onward-Ends e again rest bound g (a, b, d) = (omega arith, omega arith, d)
onward-Ends e (give_up (http status d')) rest bound g (a, b, d) =
    (omega arith, omega arith, λ k. absurd (ground arith))
onward-Ends e (give_up no_response) rest bound g _ = absurd g
onward-Ends e (give_up invalid_json) rest bound g _ = absurd g
onward-Ends e (answered r) rest bound g (a, b, d) =
    (omega arith, omega arith, λ k. absurd (ground arith))

attempts_from-Ends :
    (c : Call) (send : ℕ → Exchange) (attempt left : ℕ)
    → Ends (suc left) (attempts_from c send attempt left)
unfolding attempts_from
attempts_from-Ends c send attempt zero =
    last-Ends (send attempt) (after c false attempt (send attempt))
      (after-GivesHttp c false attempt (send attempt)) (after-last c attempt (send attempt))
attempts_from-Ends c send attempt (suc left) =
    onward-Ends (send attempt) (after c true attempt (send attempt))
      (attempts_from c send (attempt + 1) left) (suc left)
      (after-GivesHttp c true attempt (send attempt)) (attempts_from-Ends c send (attempt + 1) left)

attempts-bounds :
    (setting : Setting)
    → (1 ≤ hermes_connect_attempts setting) × (hermes_connect_attempts setting ≤ 5)
unfolding hermes_connect_attempts
attempts-bounds unset = (omega arith, omega arith)
attempts-bounds malformed = (omega arith, omega arith)
attempts-bounds (number (pos n)) = (omega arith, omega arith)
attempts-bounds (number (negsuc n)) = (omega arith, omega arith)

-- Whatever the setting and the exchanges, a request makes at least one exchange, and at most the
-- configured number and five; and it ends with a response or an error of its own, so that the case
-- of a loop without a response does not arise.
pub exchanges_of-ends :
    (c : Call) (send : ℕ → Exchange) (setting : Setting)
    → (let s = exchanges_of c send (hermes_connect_attempts setting) in
        (1 ≤ length s.exchanges)
        × (length s.exchanges ≤ hermes_connect_attempts setting)
        × (length s.exchanges ≤ 5)
        × (s.result ≢ err no_response))
unfolding exchanges_of
exchanges_of-ends c send setting =
    let n = hermes_connect_attempts setting in
    let (low, high) = attempts-bounds setting in
    let (a, b, d) = attempts_from-Ends c send 1 (n - 1) in
    (a, omega (arith, low, b), omega (arith, low, high, b), d)

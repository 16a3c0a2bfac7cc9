-- ===== src/Bff/Downstream/Retries.antt =====
-- How often `send_with_retries` of clients/downstream.py sends a request, and what it returns.
use substy.Base.{
  Action, pure, raise, ℕ, zero, suc, ◌+◌, ◌≡◌, refl, ◌∙◌, arith, Option, none, some, List, [], ◌∷◌,
  ◌++◌, length, length-append, Bool, true, false, not, find_row, str_eq, Outcome, ok, err, Error,
  if◌then◌else◌,
}
use mathlib.Core.List.{append_assoc, append-nil}
use substy.Bff.Model.{Sent, Upstream, Answer, reply, transient, failed, World, Library, Env}
use substy.Bff.Downstream.{attempt_loop, attempts, send_with_retries, unavailable}

-- The next `n` answers to the request, after `k` requests of the run.
abbrev pub answers : Env → Sent → ℕ → ℕ → List Answer
answers env r k zero = []
answers env r k (suc n) = env.answer k r ∷ answers env r (suc k) n

abbrev pub is_transient : Answer → Bool
is_transient transient = true
is_transient (reply u) = false
is_transient (failed e) = false

abbrev pub settled : Error → Option Answer → Outcome Upstream
settled gone none = err gone
settled gone (some (reply u)) = ok u
settled gone (some transient) = err gone
settled gone (some (failed e)) = err e

-- One request for each transient answer in front, and one for the first that is not.
abbrev pub requests : Sent → List Answer → List Sent
requests r [] = []
requests r (a ∷ later) = let again = requests r later in r ∷ (if is_transient a then again else [])

-- What one answer makes of the attempts that are left.
after-answer :
    (env : Env) (r : Sent) (n : ℕ) (w : World) (a : Answer)
    → let next : World = record w { sent = w.sent ++ r ∷ [] } in
      let rest = answers env r (suc (length w.sent)) n in
      attempt_loop env r n next ≡ (
        settled (unavailable r.service) (find_row (λ a. not (is_transient a)) rest),
        record w { sent = (w.sent ++ r ∷ []) ++ requests r rest },
      )
      → (elim a as (λ _. Action World Upstream) [
        | reply upstream ↦ pure upstream
        | transient ↦ attempt_loop env r n
        | failed e ↦ raise e
      ])
          next
        ≡ (
          settled (unavailable r.service) (find_row (λ a. not (is_transient a)) (a ∷ rest)),
          record w { sent = w.sent ++ requests r (a ∷ rest) },
        )
after-answer env r n w (reply u) h = refl
after-answer env r n w (failed e) h = refl
after-answer env r n w transient h = h ∙ rw append_assoc refl

attempt_loop_lem :
    (env : Env) (r : Sent) (n : ℕ) (w : World)
    → let script = answers env r (length w.sent) n in
      attempt_loop env r n w ≡ (
        settled (unavailable r.service) (find_row (λ a. not (is_transient a)) script),
        record w { sent = w.sent ++ requests r script },
      )
unfolding attempt_loop
attempt_loop_lem env r zero w = rw append-nil refl
attempt_loop_lem env r (suc n) w =
    let one_more : length (w.sent ++ r ∷ []) ≡ suc (length w.sent) =
      omega (arith, length-append w.sent (r ∷ [])) in
    after-answer env r n w (env.answer (length w.sent) r)
      (rw one_more at (attempt_loop_lem env r n (record w { sent = w.sent ++ r ∷ [] })))

module _ (lib : Library) (env : Env) where
  -- A request goes out once for each time that the service could not be reached or did not answer
  -- in time, and once more, up to `http_retries_get` more times for a GET and never again for another
  -- method. What is returned or raised is the first other answer, or UpstreamError if there is none;
  -- nothing else changes.
  pub send_with_retries_lem :
      (retries_get : ℕ) (r : Sent) (w : World)
      → let carried : Sent = record r { headers = lib.inject r.headers } in
        let script =
          answers env carried
            (length w.sent)
            (if str_eq (lib.upper r.method) "GET" then retries_get + 1 else 1) in
        send_with_retries lib env retries_get r w ≡ (
          settled (unavailable r.service) (find_row (λ a. not (is_transient a)) script),
          record w { sent = w.sent ++ requests carried script },
        )
  unfolding send_with_retries
  send_with_retries_lem retries_get r w =
      attempt_loop_lem env (record r { headers = lib.inject r.headers })
        (attempts lib retries_get r.method) w

-- ===== src/Entry.antt =====
-- What the HTTP endpoints of the notifications and of the subscriptions service share: the bounds of a
-- query parameter, and api/errors.py with core/exceptions.py.
use substy.Base.{
  ℕ, ◌||◌, String, ltb, if◌then◌else◌, Outcome, ok, err, Error, unauthorized, forbidden, not_found,
  conflict, validation_error,
}

-- A response's body: what the endpoint answers, or a code and a message. The request's id, which is in
-- every error too, is left out.
pub data Body (A : Type 0) : Type 0 where
  answer : A → Body A
  problem : String → String → Body A
  empty : Body A

pub record Reply (A : Type 0) : Type 0 where
  pub status : ℕ
  pub body : Body A

-- `Query(ge=low, le=high)`: outside the bounds, the request is invalid.
abbrev pub within : ℕ → ℕ → ℕ → Outcome ℕ
within low high n =
    if ltb n low || ltb high n then err (validation_error "Invalid request") else ok n

module _ {A : Type 0} where
  abbrev pub replies : ℕ → A → Reply A
  replies status a = record { status = status; body = Body.answer a }

  -- The exception handlers, with the code and the status of each class of error.
  abbrev pub failure : Error → Reply A
  failure (unauthorized message) = record {
    status = 401;
    body = Body.problem "unauthorized" message;
  }
  failure (forbidden message) = record { status = 403; body = Body.problem "forbidden" message }
  failure (not_found message) = record { status = 404; body = Body.problem "not_found" message }
  failure (conflict message) = record { status = 409; body = Body.problem "conflict" message }
  failure (validation_error message) = record {
    status = 422;
    body = Body.problem "validation_error" message;
  }
  failure _ = record { status = 500; body = Body.problem "internal_error" "Internal server error" }

module _ {A S : Type 0} where
  abbrev pub replied : Outcome (Reply A) × S → Reply A × S
  replied (ok reply, s) = (reply, s)
  replied (err e, s) = (failure e, s)

-- ===== src/CancelRegistry.antt =====
-- The cancel registry: daemon/internal/server/cancel_registry.go. Every method holds the mutex for
-- all that it reads and writes, so concurrent calls are a sequence of these functions. A
-- CancelFunc is the number of its registration, and a function returns those that it fires.
pub mod Tests
pub mod Firing
pub mod Shutdown
use meowth.Prelude.{
  ℕ, Bool, true, false, List, [], ◌∷◌, Option, none, some, String, str_eq, if◌then◌else◌, contains,
  delete, lookup, erase, length, map,
}

pub record Registry : Type 0 where
  pub cancels : List (String × ℕ)
  pub requested : List String
  pub shutdown_ids : List String

abbrev pub new_cancel_registry : Registry
new_cancel_registry = record { cancels = []; requested = []; shutdown_ids = [] }

unfoldable pub register : String → ℕ → Registry → Registry
register id cancel r = record {
  cancels = (id, cancel) ∷ erase id r.cancels;
  requested = delete id r.requested;
  shutdown_ids = delete id r.shutdown_ids;
}

-- The function that `Register` returns.
unfoldable pub unregister : String → Registry → Registry
unregister id r = record {
  cancels = erase id r.cancels;
  requested = delete id r.requested;
  shutdown_ids = delete id r.shutdown_ids;
}

unfoldable pub is_shutdown : String → Registry → Bool
is_shutdown id r = contains id r.shutdown_ids

pub data CancelOutcome : Type 0 where
  fired already_requested unknown : CancelOutcome

pub cancel_found : String → Registry → Option ℕ → Registry × CancelOutcome × List ℕ
cancel_found id r none = (r, unknown, [])
cancel_found id r (some c) =
    if contains id r.requested
    then (r, already_requested, [])
    else (record r { requested = id ∷ r.requested }, fired, c ∷ [])

-- `Cancel`: the user's request for one session.
unfoldable pub cancel : String → Registry → Registry × CancelOutcome × List ℕ
unfolding cancel_found
cancel id r = cancel_found id r (lookup id r.cancels)

mark : String → Registry → Registry
mark id r = record r { requested = id ∷ r.requested; shutdown_ids = id ∷ r.shutdown_ids }

-- The loop of `CancelAll` over the registered sessions.
sweep : List (String × ℕ) → Registry → Registry × List ℕ
unfolding mark
sweep [] r = (r, [])
sweep ((id, c) ∷ rest) r =
    let skipped = sweep rest r in
    let marked = sweep rest (mark id r) in
    if contains id r.requested then skipped else (marked.0, c ∷ marked.1)

-- `CancelAll`: daemon shutdown; the source returns the length of the list.
unfoldable pub cancel_all : Registry → Registry × List ℕ
unfolding sweep
cancel_all r = sweep r.cancels r

unfoldable pub ids : Registry → List String
ids r = map (λ (e : String × ℕ). e.0) r.cancels

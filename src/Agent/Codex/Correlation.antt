-- ===== src/Agent/Codex/Correlation.antt =====
-- Calls and answers of the codex client (Agent/Codex.antt).
use meowth.Prelude.{
  ℕ, ◌+◌, ◌≤◌, ◌≡◌, refl, Bool, List, [], ◌∷◌, ◌++◌, Option, none, some, leb, ◌==◌, if◌then◌else◌,
  Bytes, arith, Bool-cases, ==_iff, subst, inl, inr,
}
use meowth.Agent.Json.{Json, Fields}
use meowth.Agent.Codex.{
  CodexClient, new_client, find_pending, forget, reply_of, request, give_up, answered,
  handle_response, all_exited, mark_process_exited,
}

-- What can happen to the calls.
pub data Op : Type 0 where
  -- whether the write fails, the method and the parameters
  ask : Bool → Bytes → Json → Op
  -- a response line: its id where it decodes, and its fields
  hear : Option ℕ → Fields → Op
  leave : ℕ → Op
  exit : Op

unfoldable pub apply : Op → CodexClient → CodexClient
apply (ask fails method params) c = (request fails method params c).1
apply (hear id fs) c = handle_response id fs c
apply (leave id) c = give_up id c
apply exit c = mark_process_exited c

unfoldable pub run_ops : List Op → CodexClient → CodexClient
run_ops [] c = c
run_ops (op ∷ ops) c = run_ops ops (apply op c)

-- How often an id is a key.
unfoldable pub count {ℓ} : {A : Type ℓ} → ℕ → List (ℕ × A) → ℕ
count id [] = 0
count id ((j, a) ∷ xs) = (if j == id then 1 else 0) + count id xs

count-append {ℓ} :
    {A : Type ℓ} (id : ℕ) (xs ys : List (ℕ × A)) → count id (xs ++ ys) ≡ count id xs + count id ys
unfolding count
count-append id [] ys = omega arith
count-append id ((j, a) ∷ xs) ys = omega (arith, count-append id xs ys)

count-forget :
    (id j : ℕ) (ps : List (ℕ × Bytes))
    → count id (forget j ps) ≡ (if j == id then 0 else count id ps)
unfolding count forget
count-forget id j [] = ground arith
count-forget id j ((k, m) ∷ ps) = ground (arith, count-forget id j ps)

count-found :
    (id : ℕ) (ps : List (ℕ × Bytes)) (m : Bytes) → find_pending id ps ≡ some m → 1 ≤ count id ps
unfolding count find_pending
count-found id [] m h = cc
count-found id ((k, n) ∷ ps) m h = ground (arith, h, count-found id ps m)

count-all_exited : (id : ℕ) (ps : List (ℕ × Bytes)) → count id (all_exited ps) ≡ count id ps
unfolding count all_exited
count-all_exited id [] = refl
count-all_exited id ((k, m) ∷ ps) = omega (arith, count-all_exited id ps)

abbrev calls : ℕ → CodexClient → ℕ
calls id c = count id c.pending + count id c.deliveries

-- An id that has been given out is waiting or answered at most once, and no other id is.
abbrev IsOnce : ℕ → CodexClient → Type 0
IsOnce id c = calls id c ≤ (if leb id c.next_id then 1 else 0)

delivered-IsOnce :
    (id j : ℕ) (fs : Fields) (o : Option Bytes) (c : CodexClient)
    → find_pending j c.pending ≡ o
    → IsOnce id c
    → IsOnce id (answered j fs o c)
unfolding answered count
delivered-IsOnce id j fs none c e h = h
delivered-IsOnce id j fs (some m) c e h =
    let found : 1 ≤ count j c.pending = count-found j c.pending m e in
    elim (Bool-cases (j == id)) [
      | inl same ↦
          let eq : j ≡ id = (==_iff j id).0 same in
          let here : 1 ≤ count id c.pending = subst (λ k. 1 ≤ count k c.pending) eq found in
          ground (
            arith,
            h,
            here,
            same,
            count-forget id j c.pending,
            count-append id c.deliveries ((j, reply_of m fs) ∷ []),
          )
      | inr other ↦ ground (
        arith,
        h,
        other,
        count-forget id j c.pending,
        count-append id c.deliveries ((j, reply_of m fs) ∷ []),
      )
    ]

exit-calls : (id : ℕ) (c : CodexClient) → count id (mark_process_exited c).deliveries ≡ calls id c
unfolding mark_process_exited
exit-calls id c =
    omega
      (arith, count-append id c.deliveries (all_exited c.pending), count-all_exited id c.pending)

exit-IsOnce : (id : ℕ) (c : CodexClient) → IsOnce id c → IsOnce id (mark_process_exited c)
unfolding mark_process_exited count
exit-IsOnce id c h = ground (arith, h, exit-calls id c)

apply-IsOnce : (id : ℕ) (op : Op) (c : CodexClient) → IsOnce id c → IsOnce id (apply op c)
unfolding apply request give_up handle_response count
apply-IsOnce id (ask fails method params) c h = ground (arith, h)
apply-IsOnce id (hear none fs) c h = h
apply-IsOnce id (hear (some j) fs) c h =
    delivered-IsOnce id j fs (find_pending j c.pending) c refl h
apply-IsOnce id (leave j) c h = ground (arith, h, count-forget id j c.pending)
apply-IsOnce id exit c h = exit-IsOnce id c h

run-IsOnce : (id : ℕ) (ops : List Op) (c : CodexClient) → IsOnce id c → IsOnce id (run_ops ops c)
unfolding run_ops
run-IsOnce id [] c h = h
run-IsOnce id (op ∷ ops) c h = run-IsOnce id ops (apply op c) (apply-IsOnce id op c h)

-- Over any sequence of calls, answers, waits given up and exits, a call gets at most one answer; and
-- the exit of the process leaves no call waiting: each call that is waiting gets its answer then.
pub answered_once :
    (ops : List Op) (id : ℕ)
    → (count id (run_ops ops new_client).deliveries ≤ 1)
      × ((mark_process_exited (run_ops ops new_client)).pending ≡ [])
      × (count id (mark_process_exited (run_ops ops new_client)).deliveries
          ≡ count id (run_ops ops new_client).pending
            + count id (run_ops ops new_client).deliveries)
unfolding mark_process_exited
answered_once ops id =
    let c = run_ops ops new_client in
    let start : IsOnce id new_client = unfold count in ground arith in
    (ground (arith, run-IsOnce id ops new_client start), refl, exit-calls id c)

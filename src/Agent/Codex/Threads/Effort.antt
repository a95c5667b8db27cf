-- ===== src/Agent/Codex/Threads/Effort.antt =====
-- What the calls that start a codex run carry (Agent/Codex/Threads.antt): the reasoning effort and the
-- policy of approvals.
use meowth.Prelude.{
  ◌≡◌, refl, sym, ap, subst, ◌∙◌, Bool, true, false, ◌||◌, List, [], ◌∷◌, All, All-append,
  trim_space, some, String, str_eq, if◌then◌else◌, Bytes, codes, bytes_eq, is_blank, arith,
  Bool-cases, inl, inr, eq_iff,
}
use meowth.Agent.CommandLines.{ExecOptions}
use meowth.Agent.Json.{Json, string, object, Fields, end, field, get}
use meowth.Agent.Codex.Reading.{
  extract_nested_string, text_of, fields_of, object_of, is_there, nested,
}
use meowth.Agent.Codex.Threads.{
  Answer, replied, refused, put, apply_codex_yolo_policy, has_key, apply_codex_reasoning_effort,
  resume_params, start_params, turn_params, Call, Thread, in_thread, no_thread, naming, begun,
  fresh, resumed, start_or_resume_thread, begin_turn, initialized, start_run,
}

get-put : (key : String) (v : Json) (fs : Fields) → get key (put key v fs) ≡ some v
unfolding get put
get-put key v end = ground (arith, (eq_iff key key).1 refl)
get-put key v (field k w fs) = ground (arith, get-put key v fs)

get-put_other :
    (key other : String) (v : Json) (fs : Fields)
    → str_eq key other ≡ false
    → get other (put key v fs) ≡ get other fs
unfolding get put
get-put_other key other v end h = ground (arith, h)
get-put_other key other v (field k w fs) h = elim (Bool-cases (str_eq k key)) [
  | inl same ↦
      ground (arith, same, subst (λ j. str_eq j other ≡ false) (sym ((eq_iff k key).0 same)) h)
  | inr apart ↦ ground (arith, apart, get-put_other key other v fs h)
]

blank : (s : Bytes) → is_blank s ≡ true → s ≡ []
unfolding is_blank
blank [] h = refl
blank (c ∷ s) h = cc

-- The effort that the parameters of a call ask for, where the app-server reads it for that method: a turn
-- has it among its parameters, a thread in its configuration.
unfoldable pub effort_of : Call → Bytes
effort_of (method, params) =
    if bytes_eq method (codes "turn/start")
    then text_of (get "effort" params)
    else extract_nested_string params ("config" ∷ "model_reasoning_effort" ∷ [])

nested-put :
    (level : Bytes) (config params : Fields)
    → extract_nested_string
        (put "config" (object (put "model_reasoning_effort" (string level) config)) params)
        ("config" ∷ "model_reasoning_effort" ∷ [])
      ≡ level
unfolding extract_nested_string nested object_of
nested-put level config params =
    ap (nested ("model_reasoning_effort" ∷ []))
      (get-put "config" (object (put "model_reasoning_effort" (string level) config)) params)
    ∙ ap text_of (get-put "model_reasoning_effort" (string level) config)

turn-apply :
    (level : Bytes) (params : Fields)
    → has_key "input" params ≡ true
    → is_blank (text_of (get "effort" params)) ≡ true
    → text_of (get "effort" (apply_codex_reasoning_effort level params)) ≡ level
unfolding apply_codex_reasoning_effort is_blank
turn-apply [] params turn h = blank _ h
turn-apply (c ∷ level) params turn h =
    rw (turn, get-put "effort" (string (c ∷ level)) params) (unfold text_of in refl)

thread-apply :
    (level : Bytes) (params : Fields)
    → has_key "input" params ≡ false
    → is_blank (extract_nested_string params ("config" ∷ "model_reasoning_effort" ∷ [])) ≡ true
    → extract_nested_string
        (apply_codex_reasoning_effort level params)
        ("config" ∷ "model_reasoning_effort" ∷ [])
      ≡ level
unfolding apply_codex_reasoning_effort is_blank
thread-apply [] params thread h = blank _ h
thread-apply (c ∷ level) params thread h =
    rw thread (nested-put (c ∷ level) (fields_of (get "config" params)) params)

policy_of : Fields → Bytes
policy_of params = text_of (get "approvalPolicy" params)

effort-policy :
    (level : Bytes) (params : Fields)
    → policy_of (apply_codex_reasoning_effort level params) ≡ policy_of params
unfolding policy_of apply_codex_reasoning_effort
effort-policy level params = elim (Bool-cases (is_blank level)) [
  | inl e ↦ rw e refl
  | inr e ↦ rw e (elim (Bool-cases (has_key "input" params)) [
    | inl turn ↦
        rw turn (ap text_of (get-put_other "effort" "approvalPolicy" (string level) params refl))
    | inr thread ↦ rw thread (ap text_of (get-put_other "config" "approvalPolicy" _ params refl))
  ])
]

-- The calls that choose an effort, and those that choose a policy.
unfoldable pub opens_thread : Bytes → Bool
opens_thread method =
    bytes_eq method (codes "thread/start") || bytes_eq method (codes "thread/resume")

unfoldable pub takes_effort : Bytes → Bool
takes_effort method = opens_thread method || bytes_eq method (codes "turn/start")

unfoldable pub Carries : ExecOptions → Call → Type 0
unfolding policy_of
Carries opts call =
    (takes_effort call.0 ≡ true → effort_of call ≡ opts.thinking_level)
    × (opens_thread call.0 ≡ true → policy_of call.1 ≡ codes "never")

module _ (opts : ExecOptions) where
  start-Carries : Carries opts (codes "thread/start", start_params opts)
  unfolding Carries start_params is_blank is_there nested extract_nested_string effort_of policy_of
      get put text_of object_of apply_codex_yolo_policy has_key bytes_eq
  start-Carries =
      (λ h. thread-apply opts.thinking_level _ refl refl, λ h. effort-policy opts.thinking_level _)

  resume-Carries : Carries opts (codes "thread/resume", resume_params opts)
  unfolding Carries resume_params is_blank is_there nested extract_nested_string effort_of policy_of
      get put text_of object_of apply_codex_yolo_policy has_key bytes_eq
  resume-Carries =
      (λ h. thread-apply opts.thinking_level _ refl refl, λ h. effort-policy opts.thinking_level _)

  turn-Carries : (id prompt : Bytes) → Carries opts (codes "turn/start", turn_params id prompt opts)
  unfolding Carries turn_params is_blank is_there effort_of get text_of opens_thread bytes_eq
      has_key
  turn-Carries id prompt = (λ h. turn-apply opts.thinking_level _ refl refl, λ h. cc)

  -- A call that is none of these.
  plain-Carries :
      (method : Bytes) (params : Fields)
      → takes_effort method ≡ false
      → Carries opts (method, params)
  unfolding Carries takes_effort
  plain-Carries method params h = (λ k. ground (arith, h, k), λ k. ground (arith, h, k))

  Fine : List Call × Thread → Type 0
  Fine r = All (Carries opts) r.0

  fine : (calls : List Call) (t : Thread) → All (Carries opts) calls → Fine (calls, t)
  unfolding Fine
  fine calls t h = h

  Fine-after :
      (call : Call) (r : List Call × Thread) → Carries opts call → Fine r → Fine (call ∷ r.0, r.1)
  unfolding Fine
  Fine-after call r h k = (h, k)

  Fine-if : (b : Bool) (x y : List Call × Thread) → Fine x → Fine y → Fine (if b then x else y)
  Fine-if true x y h k = h
  Fine-if false x y h k = k

  module _ (ask : Bytes → Fields → Answer) where
    naming-Carries : (id name : Bytes) → All (Carries opts) (naming ask id name)
    unfolding naming is_blank bytes_eq takes_effort opens_thread
    naming-Carries id name =
        elim (trim_space name)
          as (λ t. All (Carries opts) (
            if is_blank t
            then []
            else (
              codes "thread/name/set",
              field "threadId" (string id) (field "name" (string t) end),
            )
              ∷ [])) [ [] ↦ tt | c ∷ t ↦ (plain-Carries _ _ refl, tt) ]

    begun-Fine : (a : Answer) → Fine (begun ask opts a)
    unfolding begun
    begun-Fine (refused e) = fine [] _ tt
    begun-Fine (replied r) = Fine-if _ _ _ (fine [] _ tt) (fine _ _ (naming-Carries _ _))

    fresh-Fine : Fine (fresh ask opts)
    unfolding fresh
    fresh-Fine = Fine-after _ _ start-Carries (begun-Fine _)

    resumed-Fine : (a : Answer) → Fine (resumed ask opts a)
    unfolding resumed
    resumed-Fine (replied r) = Fine-if _ _ _ fresh-Fine (fine [] _ tt)
    resumed-Fine (refused e) = Fine-if _ _ _ (fine [] _ tt) fresh-Fine

    thread-Fine : Fine (start_or_resume_thread ask opts)
    unfolding start_or_resume_thread
    thread-Fine = Fine-if _ _ _ fresh-Fine (Fine-after _ _ resume-Carries (resumed-Fine _))

    begin_turn-Fine : (prompt : Bytes) (t : Thread) → Fine (begin_turn ask prompt opts t)
    unfolding begin_turn Fine
    begin_turn-Fine prompt (no_thread why) = tt
    begin_turn-Fine prompt (in_thread id prior) = (turn-Carries id prompt, tt)

    initialized-Fine : (prompt : Bytes) (a : Answer) → Fine (initialized ask prompt opts a)
    unfolding initialized bytes_eq takes_effort opens_thread Fine
    initialized-Fine prompt (refused e) = tt
    initialized-Fine prompt (replied r) = (
      plain-Carries _ _ refl,
      All-append (Carries opts) _ _ thread-Fine (begin_turn-Fine prompt _),
    )

    -- Whatever the app-server answers: each call that begins or resumes a thread, and each that begins
    -- a turn, carries the thinking level of the options at the place where the app-server reads it for
    -- that call, with none where the level is empty; and each call for a thread sets the policy of approvals to "never".
    pub effort_carried : (prompt : Bytes) → All (Carries opts) (start_run ask prompt opts).0
    unfolding start_run bytes_eq takes_effort opens_thread Fine
    effort_carried prompt = (plain-Carries _ _ refl, initialized-Fine prompt _)

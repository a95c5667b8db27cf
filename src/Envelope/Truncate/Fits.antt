-- ===== src/Envelope/Truncate/Fits.antt =====
-- What `shrinkMessagePayload` of Envelope/Truncate.antt leaves of a message, and when it fits.
use meowth.Prelude.{
  ℕ, zero, suc, ◌+◌, ◌≡◌, refl, sym, ap, ◌∙◌, [], Option, none, some, ◌++◌, append-nil,
  append_assoc, drop, take-append-drop, Bytes, arith, if◌then◌else◌, subst, inl, inr, ◌⊎◌, Result,
  ok, err, ◌>>=◌,
}
use meowth.Envelope.{Envelope, MessagePayload, Codec, EnvelopeError}
use meowth.Envelope.Truncate.{safe_truncate_runes, keep, trim_step, line_of, fits, shrink}
use meowth.Envelope.Truncate.Runes.{safe_truncate_runes-IsCut}

-- `r` is a prefix of `s`.
pub record IsPrefixOf (r s : Bytes) : Type 0 where
  pub rest : Bytes
  pub whole : r ++ rest ≡ s

prefix_refl : (s : Bytes) → IsPrefixOf s s
prefix_refl s = record { rest = []; whole = append-nil s }

prefix_trans : {r s u : Bytes} → IsPrefixOf r s → IsPrefixOf s u → IsPrefixOf r u
prefix_trans {r} a b = record {
  rest = a.rest ++ b.rest;
  whole = sym (append_assoc r a.rest b.rest) ∙ ap (λ (x : Bytes). x ++ b.rest) a.whole ∙ b.whole;
}

cut_prefix : (s : Bytes) (n : ℕ) → IsPrefixOf (safe_truncate_runes s n) s
cut_prefix s n =
    let c = safe_truncate_runes-IsCut s n in
    record {
      rest = drop c.at s;
      whole = ap (λ (x : Bytes). x ++ drop c.at s) c.prefix ∙ take-append-drop c.at s;
    }

-- `q` is `p` with its bulk cut: only the content, the output and the input may differ.
pub record IsTrimmed (p q : MessagePayload) : Type 0 where
  pub kind : q.kind ≡ p.kind
  pub tool : q.tool ≡ p.tool
  pub call_id : q.call_id ≡ p.call_id
  pub status : q.status ≡ p.status
  pub level : q.level ≡ p.level
  pub backend : q.backend_session_id ≡ p.backend_session_id
  pub content : IsPrefixOf q.content p.content
  pub output : IsPrefixOf q.output p.output
  pub input : (q.input ≡ p.input) ⊎ (q.input ≡ none)

trimmed :
    (p : MessagePayload) (content output : Bytes) (input : Option Bytes)
    → IsPrefixOf content p.content
    → IsPrefixOf output p.output
    → ((input ≡ p.input) ⊎ (input ≡ none))
    → IsTrimmed p (record p { content = content; output = output; input = input })
trimmed p content output input c o i = record {
  kind = refl;
  tool = refl;
  call_id = refl;
  status = refl;
  level = refl;
  backend = refl;
  content = c;
  output = o;
  input = i;
}

pub IsTrimmed-refl : (p : MessagePayload) → IsTrimmed p p
IsTrimmed-refl p =
    trimmed p p.content p.output p.input (prefix_refl p.content) (prefix_refl p.output) (inl refl)

pub IsTrimmed-trans : {p q r : MessagePayload} → IsTrimmed p q → IsTrimmed q r → IsTrimmed p r
IsTrimmed-trans a b = record {
  kind = b.kind ∙ a.kind;
  tool = b.tool ∙ a.tool;
  call_id = b.call_id ∙ a.call_id;
  status = b.status ∙ a.status;
  level = b.level ∙ a.level;
  backend = b.backend ∙ a.backend;
  content = prefix_trans b.content a.content;
  output = prefix_trans b.output a.output;
  input = elim b.input [
    | inr e ↦ inr e
    | inl e ↦ elim a.input [ inl f ↦ inl (e ∙ f) | inr f ↦ inr (e ∙ f) ]
  ];
}

-- One round changes at most one of the three bulk fields.
step-cases :
    (n : ℕ) (p q : MessagePayload)
    → trim_step n p ≡ some q
    → ((q ≡ record p { content = safe_truncate_runes p.content (keep p.content) })
        ⊎ (q ≡ record p { output = safe_truncate_runes p.output (keep p.output) }))
      ⊎ ((q ≡ record p { input = none }) ⊎ (q ≡ p))
unfolding trim_step
step-cases n p q h = ground arith

pub step-IsTrimmed : (n : ℕ) (p q : MessagePayload) → trim_step n p ≡ some q → IsTrimmed p q
step-IsTrimmed n p q h = elim (step-cases n p q h) [
  | inl (inl e) ↦
      subst (IsTrimmed p) (sym e)
        (trimmed p _ _ _ (cut_prefix p.content (keep p.content)) (prefix_refl p.output) (inl refl))
  | inl (inr e) ↦
      subst (IsTrimmed p) (sym e)
        (trimmed p _ _ _ (prefix_refl p.content) (cut_prefix p.output (keep p.output)) (inl refl))
  | inr (inl e) ↦
      subst (IsTrimmed p) (sym e)
        (trimmed p _ _ _ (prefix_refl p.content) (prefix_refl p.output) (inr refl))
  | inr (inr e) ↦ subst (IsTrimmed p) (sym e) (IsTrimmed-refl p)
]

module _ (codec : Codec) (env : Envelope) where
  -- A round that runs either returns what it was given, or goes on with a trimmed message.
  shrink-step :
      (left attempt : ℕ) (p q : MessagePayload)
      → shrink codec (suc left) attempt env p ≡ ok q
      → (q ≡ p)
        ⊎ ((u : MessagePayload) × (trim_step attempt p ≡ some u)
            × (shrink codec left (attempt + 1) env u ≡ ok q))
  unfolding shrink
  shrink-step left attempt p q h = on_trim (trim_step attempt p) (line_of codec env p) refl h
    where
      on_trim :
          (o : Option MessagePayload) (l : Result EnvelopeError Bytes)
          → trim_step attempt p ≡ o
          → (l >>= λ line.
              if fits line
              then ok p
              else elim o [ none ↦ ok p | some u ↦ shrink codec left (attempt + 1) env u ])
            ≡ ok q
          → (q ≡ p)
            ⊎ ((u : MessagePayload) × (trim_step attempt p ≡ some u)
                × (shrink codec left (attempt + 1) env u ≡ ok q))
      on_trim o (err e) t g = cc
      on_trim none (ok line) t g = inl (ground arith)
      on_trim (some u) (ok line) t g = ground (arith, t)

  -- Whatever the rounds that are left, the loop returns the message with its content and its output
  -- cut to prefixes of theirs, its input kept or dropped, and everything else as it was.
  pub shrink-IsTrimmed :
      (left attempt : ℕ) (p q : MessagePayload)
      → shrink codec left attempt env p ≡ ok q
      → IsTrimmed p q
  shrink-IsTrimmed zero attempt p q h =
      subst (IsTrimmed p) {x = p} (unfold shrink in ground (arith, h)) (IsTrimmed-refl p)
  shrink-IsTrimmed (suc left) attempt p q h = elim (shrink-step left attempt p q h) [
    | inl e ↦ subst (IsTrimmed p) (sym e) (IsTrimmed-refl p)
    | inr (u, t, g) ↦
        IsTrimmed-trans (step-IsTrimmed attempt p u t) (shrink-IsTrimmed left (attempt + 1) u q g)
  ]

-- ===== src/Envelope/Numbers.antt =====
-- The sequence numbers of daemon/internal/envelope/envelope.go: what the constructors of the
-- builder number, and that a truncation keeps the number.
use meowth.Prelude.{
  ℕ, ◌+◌, ◌≡◌, refl, Bool, true, false, Option, none, some, String, if◌then◌else◌, Bytes, Result,
  ok, err, ◌>>=◌,
}
use meowth.Envelope.{
  Envelope, Builder, Codec, EnvelopeError, MessagePayload, ErrorPayload, SessionEndedPayload,
  SessionStartedPayload, message, error, build_session_started, build_message, build_error,
  build_heartbeat, build_session_ended, encode_line, heartbeat, session_ended, session_started,
  built, build,
}
use meowth.Envelope.Truncate.{
  truncate_message_content, overlong, reread, or_marshal_failed, truncation_notice, shrink, rounds,
}

-- What a constructor of the builder answers: the envelope has the next number, which it takes; or
-- there is none, and no number is taken.
unfoldable pub IsBuilt : Builder → Builder × Result EnvelopeError Envelope → Type 0
IsBuilt b (b', err e) = b' ≡ b
IsBuilt b (b', ok env) = (env.seq ≡ b.next_seq) × (b'.next_seq ≡ b.next_seq + 1)

built-IsBuilt :
    (b : Builder) (now : ℕ) (kind : String) (o : Option Bytes) → IsBuilt b (built b now kind o)
unfolding IsBuilt built
built-IsBuilt b now kind none = refl
built-IsBuilt b now kind (some raw) = (refl, refl)

refused-IsBuilt :
    (b : Builder) (c : Bool) (e : EnvelopeError) (x : Builder × Result EnvelopeError Envelope)
    → IsBuilt b x
    → IsBuilt b (if c then (b, err e) else x)
unfolding IsBuilt
refused-IsBuilt b true e x h = refl
refused-IsBuilt b false e x h = h

module _ (codec : Codec) (b : Builder) (now : ℕ) where
  pub message-IsBuilt : (p : MessagePayload) → IsBuilt b (build_message codec p b now)
  unfolding build_message build
  message-IsBuilt p =
      refused-IsBuilt b _ _ _ (built-IsBuilt b now "message" (codec.marshal (message p)))

  pub error-IsBuilt : (p : ErrorPayload) → IsBuilt b (build_error codec p b now)
  unfolding build_error build
  error-IsBuilt p = refused-IsBuilt b _ _ _ (built-IsBuilt b now "error" (codec.marshal (error p)))

  pub heartbeat-IsBuilt : (n : ℕ) → IsBuilt b (build_heartbeat codec n b now)
  unfolding build_heartbeat build
  heartbeat-IsBuilt n = built-IsBuilt b now "heartbeat" (codec.marshal (heartbeat n))

  pub ended-IsBuilt : (p : SessionEndedPayload) → IsBuilt b (build_session_ended codec p b now)
  unfolding build_session_ended build
  ended-IsBuilt p =
      refused-IsBuilt b _ _ _
        (built-IsBuilt b now "session_ended" (codec.marshal (session_ended p)))

  pub started-IsBuilt :
      (p : SessionStartedPayload) → IsBuilt b (build_session_started codec p b now)
  unfolding build_session_started build
  started-IsBuilt p = built-IsBuilt b now "session_started" (codec.marshal (session_started p))

-- A truncation that works, or has nothing to do, keeps the number of the envelope.
unfoldable pub KeepsSeq : Envelope → Result EnvelopeError (Envelope × Option ErrorPayload) → Type 0
KeepsSeq env (err e) = env.seq ≡ env.seq
KeepsSeq env (ok (env', notice)) = env'.seq ≡ env.seq

bind-KeepsSeq :
    {A : Type 0} (env : Envelope) (x : Result EnvelopeError A)
    (f : A → Result EnvelopeError (Envelope × Option ErrorPayload))
    → ((a : A) → KeepsSeq env (f a))
    → KeepsSeq env (x >>= f)
unfolding KeepsSeq
bind-KeepsSeq env (err e) f h = refl
bind-KeepsSeq env (ok a) f h = h a

if-KeepsSeq :
    (env : Envelope) (c : Bool) (x y : Result EnvelopeError (Envelope × Option ErrorPayload))
    → KeepsSeq env x
    → KeepsSeq env y
    → KeepsSeq env (if c then x else y)
if-KeepsSeq env true x y h g = h
if-KeepsSeq env false x y h g = g

same-KeepsSeq :
    (env : Envelope) (raw : Bytes) (notice : Option ErrorPayload)
    → KeepsSeq env (ok (record env { payload = raw }, notice))
unfolding KeepsSeq
same-KeepsSeq env raw notice = refl

overlong-KeepsSeq : (codec : Codec) (env : Envelope) → KeepsSeq env (overlong codec env)
unfolding overlong reread or_marshal_failed
overlong-KeepsSeq codec env =
    bind-KeepsSeq {A = MessagePayload} env (reread codec (codec.unmarshal_message env.payload)) _
      (λ p. bind-KeepsSeq {A = MessagePayload} env (shrink codec rounds 0 env p) _ (λ q.
        bind-KeepsSeq {A = Bytes} env (or_marshal_failed (codec.marshal (message q))) _
          (λ raw. same-KeepsSeq env raw (some truncation_notice))))

pub truncate-KeepsSeq :
    (codec : Codec) (env : Envelope) → KeepsSeq env (truncate_message_content codec env)
unfolding truncate_message_content
truncate-KeepsSeq codec env = if-KeepsSeq env _ _ _ (same-KeepsSeq env env.payload none) (
    bind-KeepsSeq {A = Bytes} env (encode_line codec env) _ (λ line.
      if-KeepsSeq env _ _ _ (same-KeepsSeq env env.payload none) (overlong-KeepsSeq codec env)))

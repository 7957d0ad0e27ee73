-- ===== src/MachineToken/Trips.antt =====
-- What a call that presents a source's token sends, and what it leaves known of the token.
use garam_agent_operator.Prelude.{
  ℕ, ◌<◌, ◌≡◌, ◌≢◌, ◌⊎◌, refl, String, true, not, Option, some, ltb, ◌!=◌, Bool-cases, inl, inr, [],
  ◌∷◌, ◌&&◌, ◌==◌, string_eq, ℕ_eq, option_eq, option_beq_iff, ap, sym, ◌∙◌, arith,
}
use text.Mathlib.TextEquality.{eq_iff}
use garam_agent_operator.MachineToken.{
  Failure, Source, Sent, answered, failure, exchange_failed, exchange_answered, held_at, Credential,
  held, no_token, credential, invalidate,
}
use garam_agent_operator.MachineToken.Bounds.{
  IsSound, IsLasting, credential-held, credential-IsSound,
}
use garam_agent_operator.MachineToken.Transport.{
  Call, Clock, no_credential, status, Trip, trip_again, trip,
}

-- A token came with its client id in the exchange, or the source held the two together before.
abbrev pub IsPaired : Sent → Source → String → String → Type 0
IsPaired sent s token client_id =
    ((lifetime : ℕ) × (sent ≡ answered token client_id lifetime))
    ⊎ ((s.token ≡ token) × (s.client_id ≡ client_id))

-- What the source answers at a time: a token that lives, with the client id that the source has for it.
abbrev pub IsLive : ℕ → Sent → Source → String → String → Type 0
IsLive now sent s token client_id =
    (token ≢ "")
    × ((credential now sent s).1.token ≡ token)
    × ((credential now sent s).1.client_id ≡ client_id)
    × (now < (credential now sent s).1.expiry)
    × IsPaired sent s token client_id

credential-IsPaired :
    (now : ℕ) (sent : Sent) (s : Source) (token client_id : String)
    → (credential now sent s).0 ≡ Credential.held token client_id
    → IsPaired sent s token client_id
unfolding credential exchange_failed exchange_answered held_at
credential-IsPaired now (answered t c lifetime) s token client_id e =
    elim (Bool-cases (s.token != "" && ltb now s.refresh)) [
      | inl kept ↦ inr (ground arith, ground arith)
      | inr old ↦ elim (Bool-cases (ltb now s.until)) [
        | inl waiting ↦ inr (ground arith, ground arith)
        | inr free ↦ inl (lifetime, ground arith)
      ]
    ]
credential-IsPaired now (failure reason wait) s token client_id e = inr (ground arith, ground arith)

-- What was presented: nothing; one token; or one that garam refused, and then another.
pub data IsPresented (call : Call) (clock : Clock) (s : Source) (t : Trip) : Type 0 where
  nothing :
      (e : Option Failure)
      → t.result ≡ no_credential e
      → t.presented ≡ []
      → IsPresented call clock s t
  once :
      (token client_id : String)
      → IsLive clock.first clock.first_sent s token client_id
      → t.result ≡ status (call.first token client_id)
      → t.presented ≡ token ∷ []
      → IsPresented call clock s t
  twice :
      (token client_id fresh fresh_id : String)
      → IsLive clock.first clock.first_sent s token client_id
      → call.first token client_id ≡ some 401
      → fresh ≢ token
      → (call.has_body ≡ true → call.has_get_body ≡ true)
      → IsLive clock.second clock.second_sent
          (invalidate token (credential clock.first clock.first_sent s).1)
          fresh
          fresh_id
      → t.result ≡ status (call.second fresh fresh_id)
      → t.presented ≡ token ∷ fresh ∷ []
      → IsPresented call clock s t

Credential-cases :
    (c : Credential)
    → ((e : Option Failure) × (c ≡ no_token e))
      ⊎ ((token client_id : String) × (c ≡ held token client_id))
Credential-cases (no_token e) = inl (e, refl)
Credential-cases (held token client_id) = inr (token, client_id, refl)

invalidate-IsSound : (token : String) (s : Source) → IsSound s → IsSound (invalidate token s)
unfolding invalidate
invalidate-IsSound token s h = ground (arith, h)

-- What follows a 401 under a token: it is answered, or the call is sent again.
record IsAgain (call : Call) (clock : Clock) (token : String) (s : Source) (t : Trip) : Type 0 where
  pub fresh : String
  pub client_id : String
  pub answered :
      (credential clock.second clock.second_sent (invalidate token s)).0 ≡ held fresh client_id
  pub other : fresh ≢ token
  pub resent : call.has_body ≡ true → call.has_get_body ≡ true
  pub result : t.result ≡ status (call.second fresh client_id)
  pub presented : t.presented ≡ token ∷ fresh ∷ []

trip_again-cases :
    (call : Call) (clock : Clock) (token : String) (s : Source)
    → let t = (trip_again call clock token s).0 in
      ((t.result ≡ status (some 401)) × (t.presented ≡ token ∷ [])) ⊎ IsAgain call clock token s t
unfolding trip_again
trip_again-cases call clock token s =
    let c = credential clock.second clock.second_sent (invalidate token s) in
    elim (Bool-cases (call.has_body && not call.has_get_body)) [
      | inl stuck ↦ inl (ground arith, ground arith)
      | inr free ↦ elim (Credential-cases c.0) [
        | inl (e, q) ↦ inl (ground arith, ground arith)
        | inr (fresh, client_id, q) ↦ elim (Bool-cases (fresh == token)) [
          | inl same ↦ inl (ground arith, ground arith)
          | inr other ↦ elim (Bool-cases (call.has_get_body && not call.is_read_again)) [
            | inl unread ↦ inl (ground arith, ground arith)
            | inr read ↦ inr (record {
              fresh = fresh;
              client_id = client_id;
              answered = q;
              other = ground (arith, eq_iff fresh token);
              resent = λ h. ground (arith, h);
              result = ground arith;
              presented = ground arith;
            })
          ]
        ]
      ]
    ]

-- A call presents a token that lives, under the client id that the exchange answered with it, or that
-- the source held it with, or presents none; it is sent again at most once, only after a 401, under
-- another token that lives, with its client id, and only where its body can be sent again; and it answers
-- what the last sending answered.
pub trip-IsPresented :
    (call : Call) (clock : Clock) (s : Source)
    → IsSound s
    → IsLasting clock.first_sent
    → IsLasting clock.second_sent
    → IsPresented call clock s (trip call clock s).0
unfolding trip
trip-IsPresented call clock s sound first second =
    let c1 = credential clock.first clock.first_sent s in
    elim (Credential-cases c1.0) [
      | inl (e, q) ↦ nothing e (ground arith) (ground arith)
      | inr (token, client_id, q) ↦
          let (named, at, id, live) =
            credential-held clock.first clock.first_sent s token client_id sound first q in
          let paired = credential-IsPaired clock.first clock.first_sent s token client_id q in
          elim (Bool-cases (call.first token client_id == some 401)) [
            | inr taken ↦
                once token client_id (named, at, id, live, paired) (ground arith) (ground arith)
            | inl refused ↦
                let s1 = c1.1 in
                let is_refused : call.first token client_id ≡ some 401 =
                  (option_beq_iff (call.first token client_id) (some 401)).0 refused in
                let same : (trip call clock s).0 ≡ (trip_again call clock token s1).0 =
                  ground arith in
                elim (trip_again-cases call clock token s1) [
                  | inl (result, presented) ↦
                      once token client_id (named, at, id, live, paired)
                        (ap (λ (t : Trip). t.result) same ∙ result ∙ ap status (sym is_refused))
                        (ap (λ (t : Trip). t.presented) same ∙ presented)
                  | inr again ↦
                      let sound1 =
                        invalidate-IsSound token s1
                          (credential-IsSound clock.first clock.first_sent s sound) in
                      let (named', at', id', live') =
                        credential-held clock.second clock.second_sent (invalidate token s1)
                          again.fresh again.client_id sound1 second again.answered in
                      let paired' =
                        credential-IsPaired clock.second clock.second_sent (invalidate token s1)
                          again.fresh again.client_id again.answered in
                      twice token client_id again.fresh again.client_id
                        (named, at, id, live, paired) is_refused again.other again.resent
                        (named', at', id', live', paired')
                        (ap (λ (t : Trip). t.result) same ∙ again.result)
                        (ap (λ (t : Trip). t.presented) same ∙ again.presented)
                ]
          ]
    ]

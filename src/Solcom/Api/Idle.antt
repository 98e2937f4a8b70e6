-- ===== src/Solcom/Api/Idle.antt =====
-- The keep-alive of SolcomApi, and when it writes.
use cpp_linux_learn.Common.{ℕ, ◌+◌, ◌≤◌, ◌≡◌, subst, some, List, [], arith, inl, inr, Option-cases}
use cpp_linux_learn.Solcom.Codec.{Serializable, heartbeat_command, type_req}
use cpp_linux_learn.Solcom.Api.{Api, Event, post_msg, send_heartbeat, idle_keep_alive, PostResult}

-- Posting changes the send cache and nothing else.
pub post_msg_frame :
    (junk : ℕ → ℕ) (msg : Serializable) (id rtn : ℕ) (a a' : Api) (r : PostResult)
    → post_msg junk msg id rtn a ≡ some (a', r)
    → a' ≡ record a { send_cache = a'.send_cache }
unfolding post_msg
post_msg_frame junk msg id rtn a a' r e = ground arith

send_heartbeat_frame :
    (junk : ℕ → ℕ) (a b : Api)
    → send_heartbeat junk a ≡ some b
    → b ≡ record a { send_cache = b.send_cache }
unfolding send_heartbeat
send_heartbeat_frame junk a b e =
    elim (Option-cases (post_msg junk heartbeat_command 0 type_req a)) [
      | inl f ↦ absurd (ground (arith, f))
      | inr ((c, r), f) ↦
          let same : c ≡ b = ground (arith, f) in
          subst (λ b. b ≡ record a { send_cache = b.send_cache }) same
            (post_msg_frame junk heartbeat_command 0 type_req a c r f)
    ]

-- The keep-alive never closes the connection and raises no event, however long nothing was read:
-- the interval that it tests for a reconnection is counted from the last write, which is at most
-- three seconds old by then.
pub idle_keep_alive-connected :
    (junk : ℕ → ℕ) (now : ℕ) (a a' : Api) (events : List Event)
    → idle_keep_alive junk now a ≡ some (a', events)
    → (a'.connected ≡ a.connected) × (events ≡ []) × (now ≤ a'.last_write + 3)
unfolding idle_keep_alive
idle_keep_alive-connected junk now a a' events e = elim (Option-cases (send_heartbeat junk a)) [
  | inl f ↦ ground (arith, f)
  | inr (b, f) ↦ ground (arith, f, send_heartbeat_frame junk a b f)
]

-- The keep-alive may post a heartbeat and note the time, and does nothing else.
pub idle_keep_alive_frame :
    (junk : ℕ → ℕ) (now : ℕ) (a a' : Api) (events : List Event)
    → idle_keep_alive junk now a ≡ some (a', events)
    → a' ≡ record a { send_cache = a'.send_cache; last_write = a'.last_write }
unfolding idle_keep_alive
idle_keep_alive_frame junk now a a' events e = elim (Option-cases (send_heartbeat junk a)) [
  | inl f ↦ ground (arith, f)
  | inr (b, f) ↦ ground (arith, f, send_heartbeat_frame junk a b f)
]

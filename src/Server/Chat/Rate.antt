-- ===== src/Server/Chat/Rate.antt =====
-- The rate limit on chat (src/session/sf4e__SessionServer.cxx, MT_CHAT_SEND): a ring of the times of the
-- last five sends.
use sf4_rollback_gui.Prelude.{
  ℕ, ◌+◌, ◌≤◌, ◌<◌, ◌≡◌, ◌⊎◌, inl, inr, false, List, [], ◌∷◌, arith, Bool-cases, sub64-eq_of_le,
  u64_mod, if◌then◌else◌,
}
use sf4_rollback_gui.Server.State.{Peer}
use sf4_rollback_gui.Server.Chat.{oldest_stamp, is_rate_limited, stamp_chat}

-- The times of those sends that the limit lets through, of a peer that sends at the given times.
pub accepted : Peer → List ℕ → List ℕ
accepted p [] = []
accepted p (t ∷ ts) =
    let dropped = accepted p ts in
    let sent = t ∷ accepted (stamp_chat t p) ts in if is_rate_limited t p then dropped else sent

-- The five stamps, oldest first, for each place at which the ring can stand.
pub data Ring (p : Peer) (a b c d e : ℕ) : Type 0 where
  at0 : p.chat_stamp_idx ≡ 0 → p.chat_stamps ≡ a ∷ b ∷ c ∷ d ∷ e ∷ [] → Ring p a b c d e
  at1 : p.chat_stamp_idx ≡ 1 → p.chat_stamps ≡ e ∷ a ∷ b ∷ c ∷ d ∷ [] → Ring p a b c d e
  at2 : p.chat_stamp_idx ≡ 2 → p.chat_stamps ≡ d ∷ e ∷ a ∷ b ∷ c ∷ [] → Ring p a b c d e
  at3 : p.chat_stamp_idx ≡ 3 → p.chat_stamps ≡ c ∷ d ∷ e ∷ a ∷ b ∷ [] → Ring p a b c d e
  at4 : p.chat_stamp_idx ≡ 4 → p.chat_stamps ≡ b ∷ c ∷ d ∷ e ∷ a ∷ [] → Ring p a b c d e

oldest_stamp-Ring : (p : Peer) (a b c d e : ℕ) → Ring p a b c d e → oldest_stamp p ≡ a
unfolding oldest_stamp
oldest_stamp-Ring p a b c d e (at0 i s) = rw (i, s)
oldest_stamp-Ring p a b c d e (at1 i s) = rw (i, s)
oldest_stamp-Ring p a b c d e (at2 i s) = rw (i, s)
oldest_stamp-Ring p a b c d e (at3 i s) = rw (i, s)
oldest_stamp-Ring p a b c d e (at4 i s) = rw (i, s)

-- A send takes the place of the oldest stamp.
stamp_chat-Ring : (p : Peer) (a b c d e t : ℕ) → Ring p a b c d e → Ring (stamp_chat t p) b c d e t
unfolding stamp_chat
stamp_chat-Ring p a b c d e t (at0 i s) = at1 (rw i) (rw (i, s))
stamp_chat-Ring p a b c d e t (at1 i s) = at2 (rw i) (rw (i, s))
stamp_chat-Ring p a b c d e t (at2 i s) = at3 (rw i) (rw (i, s))
stamp_chat-Ring p a b c d e t (at3 i s) = at4 (rw i) (rw (i, s))
stamp_chat-Ring p a b c d e t (at4 i s) = at0 (rw i) (rw (i, s))

-- The clock does not run backwards, and stays below 2 ^ 64 ms.
abbrev pub Clock : ℕ → List ℕ → Type 0
Clock low [] = Unit
Clock low (t ∷ ts) = (low ≤ t) × (t < u64_mod) × Clock t ts

-- Every send comes 2000 ms or more after the fifth send before it; the stamp 0 stands for no send.
abbrev pub Spaced : (a b c d e : ℕ) → List ℕ → Type 0
Spaced a b c d e [] = Unit
Spaced a b c d e (t ∷ ts) = ((a ≡ 0) ⊎ (a + 2000 ≤ t)) × Spaced b c d e t ts

not_limited :
    (p : Peer) (a t : ℕ)
    → oldest_stamp p ≡ a
    → a ≤ t
    → t < u64_mod
    → is_rate_limited t p ≡ false
    → (a ≡ 0) ⊎ (a + 2000 ≤ t)
unfolding is_rate_limited
not_limited p a t e h k f = ground (arith, sub64-eq_of_le t a)

accepted-Spaced :
    (p : Peer) (a b c d e low : ℕ) (ts : List ℕ)
    → Ring p a b c d e
    → (a ≤ low) × (b ≤ low) × (c ≤ low) × (d ≤ low) × (e ≤ low)
    → Clock low ts
    → Spaced a b c d e (accepted p ts)
unfolding accepted
accepted-Spaced p a b c d e low [] r below clock = tt
accepted-Spaced p a b c d e low (t ∷ ts) r below clock = elim (Bool-cases (is_rate_limited t p)) [
  | inl limited ↦ rw limited (accepted-Spaced p a b c d e t ts r (omega arith) clock.2)
  | inr sent ↦ rw sent (
    not_limited p a t (oldest_stamp-Ring p a b c d e r) (omega arith) (omega arith) sent,
    accepted-Spaced (stamp_chat t p) b c d e t t ts (stamp_chat-Ring p a b c d e t r) (omega arith)
        clock.2,
  )
]

-- Of a peer that has sent nothing yet, whatever it sends and as long as the clock does not run
-- backwards, of any six messages in a row that are let through the last comes at least 2000 ms after
-- the first, unless the first came at clock 0.
pub accepted_rate :
    (p : Peer) (ts : List ℕ) → Ring p 0 0 0 0 0 → Clock 0 ts → Spaced 0 0 0 0 0 (accepted p ts)
accepted_rate p ts r clock = accepted-Spaced p 0 0 0 0 0 0 ts r (omega arith) clock

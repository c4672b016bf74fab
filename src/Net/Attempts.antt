-- ===== src/Net/Attempts.antt =====
-- The two loops of attempts in Net_ProbeGgpoPort of src/session/sf4e__Resolve.cxx.
use sf4_rollback_gui.Prelude.{
  ℕ, zero, suc, ◌≤◌, ◌<◌, ◌≡◌, inl, inr, refl, sym, ap, ◌∙◌, subst, subst, true, false, not, List,
  [], ◌∷◌, ◌++◌, none, some, Str, All, length, take-all, leb, ◌==◌, arith, Bool-cases,
}
use mathlib.Core.List.{append-nil, append_assoc}
use sf4_rollback_gui.Server.State.{Endpoint}
use sf4_rollback_gui.Server.Relay.{endpoint_text}
use sf4_rollback_gui.Net.Learns.{
  answer_text, scan_reply-answer, answer-length, endpoint_text-length,
}
use sf4_rollback_gui.Net.{
  NatProbe, SocketCall, send_to, probe_magic, next_reply, later_replies, accept_reply, note_first,
  note_second, first_attempts, second_attempts,
}

abbrev pub IsPort : ℕ → Type 0
IsPort p = (0 < p) × (p < 65536)

accept_reply-answer :
    (e : Endpoint)
    → IsPort e.port
    → accept_reply (answer_text e) ≡ some (record { text = endpoint_text e; port = e.port })
unfolding accept_reply
accept_reply-answer e h =
    let (short, long) = answer-length e h.1 in
    let enough : leb (length (answer_text e)) 9 ≡ false = ground (arith, long) in
    rw (enough, take-all 63 (answer_text e) (omega (arith, short)), scan_reply-answer e)
      (ground (arith, h))

abbrev pub Seen : NatProbe → Endpoint → NatProbe
Seen out e = record out { public_port = e.port; public_addr = endpoint_text e; ok = true }

note_first-answer :
    (e : Endpoint) (out : NatProbe) → IsPort e.port → note_first (answer_text e) out ≡ Seen out e
unfolding note_first
note_first-answer e out h =
    rw
      (
        note_first,
        accept_reply-answer e h,
        take-all 47 (endpoint_text e) (omega (arith, endpoint_text-length e h.1)),
      )
      refl

note_first-noise :
    (bytes : Str) (out : NatProbe) → accept_reply bytes ≡ none → note_first bytes out ≡ out
unfolding note_first
note_first-noise bytes out h = rw (note_first, h) refl

-- Replies that do not count, and then the answer.
abbrev pub AreNoise : List Str → Type 0
AreNoise = All (λ bytes. accept_reply bytes ≡ none)

first_done :
    (n s : ℕ) (dest : Endpoint) (replies : List Str) (out : NatProbe) (calls : List SocketCall)
    → out.ok ≡ true
    → first_attempts n s dest replies (out, calls) ≡ (out, calls)
unfolding first_attempts
first_done zero s dest replies out calls h = refl
first_done (suc n) s dest replies out calls h = ground (arith, h)

first_step :
    (n s : ℕ) (dest : Endpoint) (replies : List Str) (out : NatProbe) (calls : List SocketCall)
    → out.ok ≡ false
    → first_attempts (suc n) s dest replies (out, calls)
      ≡ first_attempts n s dest
          (later_replies replies)
          (note_first (next_reply replies) out, calls ++ send_to s dest probe_magic ∷ [])
unfolding first_attempts
first_step n s dest replies out calls h = ground (arith, h)

pub first_learns :
    (n s : ℕ) (dest e : Endpoint) (noise more : List Str) (out : NatProbe) (calls : List SocketCall)
    → IsPort e.port
    → AreNoise noise
    → length noise < n
    → out.ok ≡ false
    → (first_attempts n s dest (noise ++ answer_text e ∷ more) (out, calls)).0 ≡ Seen out e
first_learns zero s dest e noise more out calls p q k h = absurd (omega arith)
first_learns (suc n) s dest e [] more out calls p q k h =
    let calls' = calls ++ send_to s dest probe_magic ∷ [] in
    ap (λ r. r.0)
      (first_step n s dest (answer_text e ∷ more) out calls h
        ∙ ap (λ o. first_attempts n s dest more (o, calls')) (note_first-answer e out p)
        ∙ first_done n s dest more (Seen out e) calls' refl)
first_learns (suc n) s dest e (b ∷ noise) more out calls p q k h =
    let calls' = calls ++ send_to s dest probe_magic ∷ [] in
    let replies = noise ++ answer_text e ∷ more in
    ap (λ r. r.0)
      (first_step n s dest (b ∷ replies) out calls h
        ∙ ap (λ o. first_attempts n s dest replies (o, calls')) (note_first-noise b out q.0))
    ∙ first_learns n s dest e noise more out calls' p q.1 (omega (arith, k)) h

-- The same of the second port.
abbrev pub SeenTwice : NatProbe → Endpoint → NatProbe
SeenTwice out e = record out {
  public_port2 = e.port;
  symmetric_known = true;
  symmetric = not (e.port == out.public_port);
}

note_second-answer :
    (e : Endpoint) (out : NatProbe)
    → IsPort e.port
    → note_second (answer_text e) out ≡ SeenTwice out e
unfolding note_second
note_second-answer e out h = rw (note_second, accept_reply-answer e h) refl

note_second-noise :
    (bytes : Str) (out : NatProbe) → accept_reply bytes ≡ none → note_second bytes out ≡ out
unfolding note_second
note_second-noise bytes out h = rw (note_second, h) refl

pub second_done :
    (n s : ℕ) (dest : Endpoint) (replies : List Str) (out : NatProbe) (calls : List SocketCall)
    → out.symmetric_known ≡ true
    → second_attempts n s dest replies (out, calls) ≡ (out, calls)
unfolding second_attempts
second_done zero s dest replies out calls h = refl
second_done (suc n) s dest replies out calls h = ground (arith, h)

second_step :
    (n s : ℕ) (dest : Endpoint) (replies : List Str) (out : NatProbe) (calls : List SocketCall)
    → out.symmetric_known ≡ false
    → second_attempts (suc n) s dest replies (out, calls)
      ≡ second_attempts n s dest
          (later_replies replies)
          (note_second (next_reply replies) out, calls ++ send_to s dest probe_magic ∷ [])
unfolding second_attempts
second_step n s dest replies out calls h = ground (arith, h)

pub second_learns :
    (n s : ℕ) (dest e : Endpoint) (noise more : List Str) (out : NatProbe) (calls : List SocketCall)
    → IsPort e.port
    → AreNoise noise
    → length noise < n
    → out.symmetric_known ≡ false
    → (second_attempts n s dest (noise ++ answer_text e ∷ more) (out, calls)).0 ≡ SeenTwice out e
second_learns zero s dest e noise more out calls p q k h = absurd (omega arith)
second_learns (suc n) s dest e [] more out calls p q k h =
    let calls' = calls ++ send_to s dest probe_magic ∷ [] in
    ap (λ r. r.0)
      (second_step n s dest (answer_text e ∷ more) out calls h
        ∙ ap (λ o. second_attempts n s dest more (o, calls')) (note_second-answer e out p)
        ∙ second_done n s dest more (SeenTwice out e) calls' refl)
second_learns (suc n) s dest e (b ∷ noise) more out calls p q k h =
    let calls' = calls ++ send_to s dest probe_magic ∷ [] in
    let replies = noise ++ answer_text e ∷ more in
    ap (λ r. r.0)
      (second_step n s dest (b ∷ replies) out calls h
        ∙ ap (λ o. second_attempts n s dest replies (o, calls')) (note_second-noise b out q.0))
    ∙ second_learns n s dest e noise more out calls' p q.1 (omega (arith, k)) h

-- The datagrams of `k` attempts.
unfoldable pub probes : ℕ → ℕ → Endpoint → List SocketCall
probes zero s dest = []
probes (suc k) s dest = send_to s dest probe_magic ∷ probes k s dest

-- At most `n` probes were sent behind `calls`, and the socket field is as it was.
abbrev pub SentAtMost :
    ℕ → ℕ → Endpoint → NatProbe × List SocketCall → NatProbe × List SocketCall → Type 0
SentAtMost n s dest before after =
    (k : ℕ) × (k ≤ n) × (after.1 ≡ before.1 ++ probes k s dest) × (after.0.sock ≡ before.0.sock)

none_sent : (n s : ℕ) (dest : Endpoint) (r : NatProbe × List SocketCall) → SentAtMost n s dest r r
unfolding probes
none_sent n s dest r = (0, omega arith, sym (append-nil r.1), refl)

one_sent :
    (n s : ℕ) (dest : Endpoint) (out out' : NatProbe) (calls : List SocketCall)
    (r : NatProbe × List SocketCall)
    → out'.sock ≡ out.sock
    → SentAtMost n s dest (out', calls ++ send_to s dest probe_magic ∷ []) r
    → SentAtMost (suc n) s dest (out, calls) r
unfolding probes
one_sent n s dest out out' calls r same (k, le, sent, kept) = (
  suc k,
  omega (arith, le),
  sent ∙ append_assoc calls (send_to s dest probe_magic ∷ []) (probes k s dest),
  kept ∙ same,
)

sock-note_first : (bytes : Str) (out : NatProbe) → (note_first bytes out).sock ≡ out.sock
unfolding note_first
sock-note_first bytes out = ground arith

sock-note_second : (bytes : Str) (out : NatProbe) → (note_second bytes out).sock ≡ out.sock
unfolding note_second
sock-note_second bytes out = ground arith

-- Whatever comes back, a loop of `n` attempts sends at most `n` probes.
pub first_sends :
    (n s : ℕ) (dest : Endpoint) (replies : List Str) (out : NatProbe) (calls : List SocketCall)
    → SentAtMost n s dest (out, calls) (first_attempts n s dest replies (out, calls))
first_sends zero s dest replies out calls =
    unfold first_attempts in none_sent zero s dest (out, calls)
first_sends (suc n) s dest replies out calls = elim (Bool-cases out.ok) [
  | inl y ↦
      subst (SentAtMost (suc n) s dest (out, calls))
        (sym (first_done (suc n) s dest replies out calls y))
        (none_sent (suc n) s dest (out, calls))
  | inr open' ↦
      let out' = note_first (next_reply replies) out in
      let calls' = calls ++ send_to s dest probe_magic ∷ [] in
      subst (SentAtMost (suc n) s dest (out, calls))
        (sym (first_step n s dest replies out calls open'))
        (one_sent n s dest out out' calls
          (first_attempts n s dest (later_replies replies) (out', calls'))
          (sock-note_first (next_reply replies) out)
          (first_sends n s dest (later_replies replies) out' calls'))
]

pub second_sends :
    (n s : ℕ) (dest : Endpoint) (replies : List Str) (out : NatProbe) (calls : List SocketCall)
    → SentAtMost n s dest (out, calls) (second_attempts n s dest replies (out, calls))
second_sends zero s dest replies out calls =
    unfold second_attempts in none_sent zero s dest (out, calls)
second_sends (suc n) s dest replies out calls = elim (Bool-cases out.symmetric_known) [
  | inl y ↦
      subst (SentAtMost (suc n) s dest (out, calls))
        (sym (second_done (suc n) s dest replies out calls y))
        (none_sent (suc n) s dest (out, calls))
  | inr open' ↦
      let out' = note_second (next_reply replies) out in
      let calls' = calls ++ send_to s dest probe_magic ∷ [] in
      subst (SentAtMost (suc n) s dest (out, calls))
        (sym (second_step n s dest replies out calls open'))
        (one_sent n s dest out out' calls
          (second_attempts n s dest (later_replies replies) (out', calls'))
          (sock-note_second (next_reply replies) out)
          (second_sends n s dest (later_replies replies) out' calls'))
]

-- ===== src/Net/Probe.antt =====
-- What Net_ProbeGgpoPort of src/session/sf4e__Resolve.cxx learns from the server's answers, and what
-- it does with its socket.
use sf4_rollback_gui.Prelude.{
  ℕ, ◌≤◌, ◌<◌, ◌≡◌, ◌⊎◌, inl, inr, refl, sym, ap, ◌∙◌, subst, true, false, not, List, [], ◌∷◌, ◌++◌,
  none, some, Str, length, ◌==◌, arith, Bool-cases, if◌then◌else◌,
}
use sf4_rollback_gui.Server.State.{Server, Endpoint, send_datagram, probe_socket, net_call}
use sf4_rollback_gui.Server.Relay.{answer_probe, endpoint_text, strip_prefix}
use sf4_rollback_gui.Client.State.{IpAddress}
use sf4_rollback_gui.Net.Learns.{answer_text}
use sf4_rollback_gui.Net.{
  NatProbe, SocketCall, bind_port, set_non_blocking, close_socket, Sockets, probe_magic, port_above,
  first_attempts, second_attempts, ProbeResult, finish_probe, probe_ggpo_port,
}
use sf4_rollback_gui.Net.Attempts.{
  IsPort, AreNoise, Seen, first_learns, second_learns, second_done, probes, first_sends,
  second_sends,
}

-- Everything that the probe can find out.
abbrev pub learned : ℕ → Endpoint → Endpoint → NatProbe
learned s e f = record {
  sock = some s;
  public_port = e.port;
  public_addr = endpoint_text e;
  ok = true;
  symmetric_known = true;
  symmetric = not (f.port == e.port);
  public_port2 = f.port;
}

-- A verdict of an earlier probe, which stays, and what the first port answers.
abbrev pub relearned : ℕ → Endpoint → NatProbe → NatProbe
relearned s e old = record old {
  sock = some s;
  public_port = e.port;
  public_addr = endpoint_text e;
  ok = true;
}

-- The probe that ends with the socket `s` and has learned so much.
abbrev pub Verdict : ℕ → Endpoint → Endpoint → NatProbe → ProbeResult → Type 0
Verdict s e f old r =
    (r.succeeded ≡ true)
    × (r.out ≡ (if old.symmetric_known then relearned s e old else learned s e f))

finish_learns :
    (server : IpAddress) (s : ℕ) (e f : Endpoint) (noise more : List Str) (out old : NatProbe)
    (calls : List SocketCall)
    → IsPort f.port
    → AreNoise noise
    → length noise < 2
    → out ≡ Seen (record old { ok = false; sock = none }) e
    → Verdict s e f old (finish_probe server s (noise ++ answer_text f ∷ more) (out, calls))
unfolding finish_probe
finish_learns server s e f noise more out old calls p q k same =
    subst
      (λ o. Verdict s e f old (finish_probe server s (noise ++ answer_text f ∷ more) (o, calls)))
      (sym same)
      (
        refl,
        elim (Bool-cases old.symmetric_known) [
          | inl known ↦
              ap {A = NatProbe × List SocketCall} (λ r. record (r.0) { sock = some s })
                (second_done 2 s (port_above server 2) (noise ++ answer_text f ∷ more)
                  (Seen start e) calls known)
              ∙ choose known (relearned s e old) (learned s e f)
          | inr unknown ↦
              ap {A = NatProbe} (λ x. record x { sock = some s })
                (second_learns 2 s (port_above server 2) f noise more (Seen start e) calls p q k
                  unknown)
              ∙ choose_not unknown (relearned s e old) (learned s e f)
        ],
      )
  where
    start : NatProbe
    start = record old { ok = false; sock = none }

    choose :
        old.symmetric_known ≡ true → (x y : NatProbe) → x ≡ (if old.symmetric_known then x else y)
    choose h x y = rw h refl

    choose_not :
        old.symmetric_known ≡ false → (x y : NatProbe) → y ≡ (if old.symmetric_known then x else y)
    choose_not h x y = rw h refl

-- The server answers a probe with the text of the endpoint that it came from.
answer_probe-text :
    (i : ℕ) (e : Endpoint) (t : Server)
    → (answer_probe i (record { sender = e; bytes = probe_magic }) t).net
      ≡ t.net ++ send_datagram (probe_socket i) e (answer_text e) ∷ []
unfolding answer_probe strip_prefix net_call
answer_probe-text i e t = refl

-- A socket of the system that can be bound, and what the two loops receive.
abbrev pub working : ℕ → List Str → List Str → Sockets
working s replies1 replies2 = record {
  socket = some s;
  is_bound = true;
  replies1 = replies1;
  replies2 = replies2;
}

-- The server `t` sees a probe of its first port come from the endpoint `e`, and one of its second port
-- from `f`. Its answers are the texts below. With at most two useless replies before the first answer
-- and at most one before the second, the probe of an IPv4 server succeeds, keeps its socket, and has
-- learned the public port and address of `e`. If the record that it fills has no verdict on the NAT yet,
-- it has also learned that the NAT is symmetric exactly if the ports of `e` and `f` differ; a verdict of
-- an earlier probe in the record stays, whatever the second port would answer.
pub probe_ggpo_port-learns :
    (server : IpAddress) (local_port s : ℕ) (e f : Endpoint) (noise1 more1 noise2 more2 : List Str)
    (old : NatProbe) (t : Server)
    → (server.ipv4 == 0) ≡ false
    → IsPort e.port
    → IsPort f.port
    → AreNoise noise1
    → length noise1 < 3
    → AreNoise noise2
    → length noise2 < 2
    → Verdict s e f old (
        probe_ggpo_port server local_port
          (working s (noise1 ++ answer_text e ∷ more1) (noise2 ++ answer_text f ∷ more2))
          old)
      × ((answer_probe 0 (record { sender = e; bytes = probe_magic }) t).net
          ≡ t.net ++ send_datagram (probe_socket 0) e (answer_text e) ∷ [])
      × ((answer_probe 1 (record { sender = f; bytes = probe_magic }) t).net
          ≡ t.net ++ send_datagram (probe_socket 1) f (answer_text f) ∷ [])
unfolding probe_ggpo_port
probe_ggpo_port-learns server local_port s e f noise1 more1 noise2 more2 old t ip p q n1 k1 n2 k2 =
    let start : NatProbe = record old { ok = false; sock = none } in
    let dest = port_above server 1 in
    let calls = bind_port s local_port ∷ [] in
    let r = first_attempts 3 s dest (noise1 ++ answer_text e ∷ more1) (start, calls) in
    let found =
      finish_learns server s e f noise2 more2 r.0 old r.1 q n2 k2
        (first_learns 3 s dest e noise1 more1 start calls p n1 k1 refl) in
    (rw ip found, answer_probe-text 0 e t, answer_probe-text 1 f t)

-- How a probe with a working socket `s` ends: with the socket kept open and set non-blocking, or with
-- the socket closed. Either way the loops have sent `k` and `m` probes.
abbrev pub EndsWith : IpAddress → ℕ → ℕ → ℕ → ℕ → ProbeResult → Type 0
EndsWith server local_port s k m r =
    ((r.succeeded ≡ true)
      × (r.out.sock ≡ some s)
      × (r.calls
          ≡ ((bind_port s local_port ∷ probes k s (port_above server 1))
              ++ probes m s (port_above server 2))
            ++ set_non_blocking s ∷ []))
    ⊎ ((r.succeeded ≡ false)
        × (r.out.sock ≡ none)
        × (r.calls
            ≡ (bind_port s local_port ∷ probes k s (port_above server 1)) ++ close_socket s ∷ []))

finish_good :
    (server : IpAddress) (s : ℕ) (replies : List Str) (r : NatProbe × List SocketCall)
    → r.0.ok ≡ true
    → let r' = second_attempts 2 s (port_above server 2) replies (r.0, r.1) in
      finish_probe server s replies r ≡ record {
        succeeded = true;
        out = record (r'.0) { sock = some s };
        calls = r'.1 ++ set_non_blocking s ∷ [];
      }
unfolding finish_probe
finish_good server s replies r h = ground (arith, h)

finish_bad :
    (server : IpAddress) (s : ℕ) (replies : List Str) (r : NatProbe × List SocketCall)
    → r.0.ok ≡ false
    → finish_probe server s replies r
      ≡ record { succeeded = false; out = r.0; calls = r.1 ++ close_socket s ∷ [] }
unfolding finish_probe
finish_bad server s replies r h = ground (arith, h)

started :
    (server : IpAddress) (local_port s : ℕ) (replies1 replies2 : List Str) (old : NatProbe)
    → (server.ipv4 == 0) ≡ false
    → probe_ggpo_port server local_port (working s replies1 replies2) old
      ≡ finish_probe server s replies2 (
          first_attempts 3 s
            (port_above server 1)
            replies1
            (record old { ok = false; sock = none }, bind_port s local_port ∷ []))
unfolding probe_ggpo_port
started server local_port s replies1 replies2 old ip = ground (arith, ip)

-- Whatever the peer answers, the probe of an IPv4 server with a socket that can be bound sends at most
-- three datagrams to the first echo port and at most two to the second. It closes its socket and gives
-- none back exactly if it fails.
pub probe_ggpo_port-bounded :
    (server : IpAddress) (local_port s : ℕ) (replies1 replies2 : List Str) (old : NatProbe)
    → (server.ipv4 == 0) ≡ false
    → (k : ℕ) × (m : ℕ) × (k ≤ 3)
      × (m ≤ 2)
      × EndsWith server local_port s k m
          (probe_ggpo_port server local_port (working s replies1 replies2) old)
probe_ggpo_port-bounded server local_port s replies1 replies2 old ip =
    let start : NatProbe = record old { ok = false; sock = none } in
    let calls = bind_port s local_port ∷ [] in
    let r = first_attempts 3 s (port_above server 1) replies1 (start, calls) in
    let (k, le, sent, kept) = first_sends 3 s (port_above server 1) replies1 start calls in
    let (m, le', sent', kept') = second_sends 2 s (port_above server 2) replies2 r.0 r.1 in
    let begun = started server local_port s replies1 replies2 old ip in
    elim (Bool-cases r.0.ok) [
      | inl y ↦ (
        k,
        m,
        le,
        le',
        subst (EndsWith server local_port s k m) (sym (begun ∙ finish_good server s replies2 r y)) (
            inl (
              refl,
              refl,
              ap (λ x. x ++ set_non_blocking s ∷ [])
                  (sent' ∙ ap (λ x. x ++ probes m s (port_above server 2)) sent),
            )),
      )
      | inr n ↦ (
        k,
        m,
        le,
        le',
        subst (EndsWith server local_port s k m) (sym (begun ∙ finish_bad server s replies2 r n))
            (inr (refl, kept, ap (λ x. x ++ close_socket s ∷ []) sent)),
      )
    ]

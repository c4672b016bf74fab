-- ===== src/Client/Snapshots/Settled.antt =====
-- What the loop over the snapshots at the end of SessionClient::Step leaves and sends
-- (src/session/sf4e__SessionClient.cxx).
use mathlib.Core.List.{append-nil, append_assoc}
use sf4_rollback_gui.Prelude.{
  ◌⊎◌, ap, subst, ◌≡◌, refl, sym, ◌∙◌, inl, inr, Bool, true, false, not, ◌&&◌, ◌||◌, List, [], ◌∷◌,
  ◌++◌, none, some, ℤ, int_eqb, int_eqb_iff, if◌then◌else◌, arith, Bool-cases, Option-cases,
}
use sf4_rollback_gui.Prelude.Map
use sf4_rollback_gui.Prelude.Map.{Map, int_key, find-insert, find-erase}
use sf4_rollback_gui.Protocol.{StateSnapshot, same_memory}
use sf4_rollback_gui.Client.State.{Client, LocalSnapshot, Call, send_snapshot, send, call}
use sf4_rollback_gui.Client.Snapshots.{
  exited, goes_on, stops, settle_snapshot, reconciliation_reason, is_young, send_if_due,
  compare_pending, reconcile_entry, reconcile, reconcile_snapshots,
}

-- Whether an entry disagrees with what the opponent sent for its frame.
unfoldable pub is_conflict : ℤ → LocalSnapshot → Map ℤ StateSnapshot → Bool
is_conflict k e pending = elim (Map.find k pending) [
  | none ↦ false
  | some r ↦ not e.confirmed && not (same_memory r e.snapshot)
]

-- Whether some entry of 60 frames or more does.
unfoldable pub has_conflict : ℤ → Map ℤ LocalSnapshot → Map ℤ StateSnapshot → Bool
has_conflict recent [] pending = false
has_conflict recent ((k, e) ∷ m) pending =
    (not (is_young recent k) && is_conflict k e pending) || has_conflict recent m pending

-- The snapshots that are due, in the order of their frames.
unfoldable pub due : ℤ → Map ℤ LocalSnapshot → List Call
due recent [] = []
due recent ((k, e) ∷ m) =
    let rest = due recent m in
    if not (is_young recent k) && not e.sent then send_snapshot e.snapshot ∷ rest else rest

-- Nothing is left to be done for the entry of a frame.
abbrev IsSettled : ℤ → Client → Type 0
IsSettled k c =
    (e : LocalSnapshot)
    → Map.find k c.snapshot_map ≡ some e
    → (e.sent ≡ true) × (e.confirmed ≡ false) × (Map.find k c.pending_remote_snapshots ≡ none)

-- The test that the entry of a frame is gone, or sent and waiting for the opponent's.
unfoldable pub is_settled : ℤ → Client → Bool
is_settled k c = elim (Map.find k c.snapshot_map) [
  | none ↦ true
  | some e ↦ elim (Map.find k c.pending_remote_snapshots) [
    | none ↦ e.sent && not e.confirmed
    | some r ↦ false
  ]
]

IsSettled-is_settled : (k : ℤ) (c : Client) → IsSettled k c → is_settled k c ≡ true
unfolding is_settled
IsSettled-is_settled k c h = elim (Option-cases (Map.find k c.snapshot_map)) [
  | inl m ↦ rw (is_settled, m) refl
  | inr (e, m) ↦ let (sent, open', unseen) = h e m in rw (is_settled, m, unseen, sent, open') refl
]

-- What a step of the loop does to a client that it leaves running.
record Passed (k : ℤ) (e : LocalSnapshot) (c c' : Client) : Type 0 where
  pub pending : c'.pending_remote_snapshots ≡ c.pending_remote_snapshots
  pub others :
      (j : ℤ) → int_eqb k j ≡ false → Map.find j c'.snapshot_map ≡ Map.find j c.snapshot_map
  pub settled : IsSettled k c'
  pub calls : c'.calls ≡ c.calls ++ (if not e.sent then send_snapshot e.snapshot ∷ [] else [])
  pub clear : is_conflict k e c.pending_remote_snapshots ≡ false

send_if_due-map :
    (e : LocalSnapshot) (c : Client)
    → ((send_if_due e c).snapshot_map ≡ c.snapshot_map)
      × ((send_if_due e c).pending_remote_snapshots ≡ c.pending_remote_snapshots)
unfolding send_if_due send call
send_if_due-map e c = ground arith

find-settle_self :
    (k : ℤ) (e : LocalSnapshot) (c : Client)
    → Map.find k (settle_snapshot k e c).snapshot_map
      ≡ (if e.confirmed && e.sent then none else some e)
unfolding settle_snapshot
find-settle_self k e c =
    ground (arith, int_eqb_iff k k, find-erase k k c.snapshot_map, find-insert k k e c.snapshot_map)

find-settle_other :
    (k j : ℤ) (e : LocalSnapshot) (c : Client)
    → int_eqb k j ≡ false
    → Map.find j (settle_snapshot k e c).snapshot_map ≡ Map.find j c.snapshot_map
unfolding settle_snapshot
find-settle_other k j e c h =
    ground (arith, h, find-erase k j c.snapshot_map, find-insert k j e c.snapshot_map)

calls-settle_snapshot :
    (k : ℤ) (e : LocalSnapshot) (c : Client) → (settle_snapshot k e c).calls ≡ c.calls
unfolding settle_snapshot
calls-settle_snapshot k e c = ground arith

pending-settle_snapshot :
    (k : ℤ) (e : LocalSnapshot) (c : Client)
    → (settle_snapshot k e c).pending_remote_snapshots ≡ c.pending_remote_snapshots
unfolding settle_snapshot
pending-settle_snapshot k e c = ground arith

calls-send_if_due :
    (e : LocalSnapshot) (c : Client)
    → (send_if_due e c).calls
      ≡ c.calls ++ (if not e.sent then send_snapshot e.snapshot ∷ [] else [])
unfolding send_if_due send call
calls-send_if_due e c = elim (Bool-cases e.sent) [
  | inl h ↦ rw (h, append-nil c.calls) refl
  | inr h ↦ rw h refl
]

-- The entry that the loop writes back.
abbrev written : Bool → LocalSnapshot → LocalSnapshot
written b e = record e { sent = true; confirmed = b }

settle_snapshot-Passed :
    (k : ℤ) (e : LocalSnapshot) (c : Client) (b : Bool)
    → is_conflict k e c.pending_remote_snapshots ≡ false
    → (b ≡ false → Map.find k c.pending_remote_snapshots ≡ none)
    → Passed k e c (settle_snapshot k (written b e) (send_if_due e c))
settle_snapshot-Passed k e c b clear unseen = record {
  pending = pending-settle_snapshot k (written b e) (send_if_due e c) ∙ (send_if_due-map e c).1;
  others = λ j h.
      find-settle_other k j (written b e) (send_if_due e c) h ∙ rw ((send_if_due-map e c).0) refl;
  settled = left;
  calls = calls-settle_snapshot k (written b e) (send_if_due e c) ∙ calls-send_if_due e c;
  clear = clear;
}
  where
    left : IsSettled k (settle_snapshot k (written b e) (send_if_due e c))
    left f found = elim (Bool-cases b) [
      | inl y ↦
          absurd (ground (arith, y, found, find-settle_self k (written b e) (send_if_due e c)))
      | inr n ↦ ground (
        arith,
        n,
        found,
        find-settle_self k (written b e) (send_if_due e c),
        unseen n,
        pending-settle_snapshot k (written b e) (send_if_due e c),
        (send_if_due-map e c).1,
      )
    ]

confirmed_clear :
    (k : ℤ) (e : LocalSnapshot) (pending : Map ℤ StateSnapshot)
    → e.confirmed ≡ true
    → is_conflict k e pending ≡ false
unfolding is_conflict
confirmed_clear k e pending y = ground (arith, y)

-- One round of the loop: the process ends on a conflict; else the entry is settled.
entry-cases :
    (k : ℤ) (e : LocalSnapshot) (c : Client)
    → ((is_conflict k e c.pending_remote_snapshots ≡ true)
        × (reconcile_entry k e c ≡ stops (exited reconciliation_reason) (send_if_due e c)))
      ⊎ ((c' : Client) × (reconcile_entry k e c ≡ goes_on c') × Passed k e c c')
unfolding reconcile_entry compare_pending is_conflict
entry-cases k e c = elim (Bool-cases e.confirmed) [
  | inl y ↦ inr (
    settle_snapshot k (written true e) (send_if_due e c),
    rw (reconcile_entry, compare_pending, y) refl,
    settle_snapshot-Passed k e c true (confirmed_clear k e c.pending_remote_snapshots y)
        (λ n. absurd (cc)),
  )
  | inr n ↦ elim (Option-cases (Map.find k c.pending_remote_snapshots)) [
    | inl m ↦ inr (
      settle_snapshot k (written false e) (send_if_due e c),
      rw (reconcile_entry, compare_pending, n, m) refl,
      settle_snapshot-Passed k e c false (rw (is_conflict, m) refl) (λ _. m),
    )
    | inr (r, m) ↦ elim (Bool-cases (same_memory r e.snapshot)) [
      | inl same ↦ inr (
        settle_snapshot k (written true e) (send_if_due e c),
        rw (reconcile_entry, compare_pending, n, m, same) refl,
        settle_snapshot-Passed k e c true (rw (is_conflict, m, n, same) refl) (λ n. absurd (cc)),
      )
      | inr differ ↦ inl (
        rw (is_conflict, m, n, differ) refl,
        rw (reconcile_entry, compare_pending, n, m, differ) refl,
      )
    ]
  ]
]

Passed-IsSettled :
    (k : ℤ) (e : LocalSnapshot) (c c' : Client) (j : ℤ)
    → Passed k e c c'
    → IsSettled j c
    → IsSettled j c'
Passed-IsSettled k e c c' j p h = elim (Bool-cases (int_eqb k j)) [
  | inl y ↦ subst (λ i. IsSettled i c') ((int_eqb_iff k j).0 y) p.settled
  | inr n ↦ λ f found.
      let (sent, open', unseen) = h f (sym (p.others j n) ∙ found) in
      (sent, open', rw (p.pending) unseen)
]

-- What the loop over the entries `m` does to a client that it leaves running.
record Swept (recent : ℤ) (m : Map ℤ LocalSnapshot) (c c' : Client) : Type 0 where
  pub pending : c'.pending_remote_snapshots ≡ c.pending_remote_snapshots
  pub settled :
      (j : ℤ) → is_young recent j ≡ false → (Map.find j m ≡ none → IsSettled j c) → IsSettled j c'
  pub calls : c'.calls ≡ c.calls ++ due recent m
  pub clear : has_conflict recent m c.pending_remote_snapshots ≡ false

Swept-young :
    (recent k : ℤ) (e : LocalSnapshot) (m : Map ℤ LocalSnapshot) (c c' : Client)
    → is_young recent k ≡ true
    → Swept recent m c c'
    → Swept recent ((k, e) ∷ m) c c'
unfolding due has_conflict Map.find
Swept-young recent k e m c c' young w = record {
  pending = w.pending;
  settled =
      λ j old h. w.settled j old (λ miss. h (ground (arith, young, old, miss, int_eqb_iff k j)));
  calls = rw young (w.calls);
  clear = rw young (w.clear);
}

Swept-old :
    (recent k : ℤ) (e : LocalSnapshot) (m : Map ℤ LocalSnapshot) (c d c' : Client)
    → is_young recent k ≡ false
    → Passed k e c d
    → Swept recent m d c'
    → Swept recent ((k, e) ∷ m) c c'
unfolding due has_conflict Map.find
Swept-old recent k e m c d c' old p w = record {
  pending = w.pending ∙ p.pending;
  settled = λ j aged h. w.settled j aged (λ miss. earlier j h miss);
  calls =
      w.calls
      ∙ ap (λ x. x ++ due recent m) p.calls
      ∙ append_assoc c.calls _ (due recent m)
      ∙ ap (λ x. c.calls ++ x) joined;
  clear = rw (old, p.clear) (subst (λ q. has_conflict recent m q ≡ false) p.pending w.clear);
}
  where
    joined :
        (if not e.sent then send_snapshot e.snapshot ∷ [] else []) ++ due recent m
        ≡ due recent ((k, e) ∷ m)
    joined = elim (Bool-cases e.sent) [ inl y ↦ rw (old, y) refl | inr n ↦ rw (old, n) refl ]

    earlier :
        (j : ℤ)
        → (Map.find j ((k, e) ∷ m) ≡ none → IsSettled j c)
        → Map.find j m ≡ none
        → IsSettled j d
    earlier j h miss = elim (Bool-cases (int_eqb k j)) [
      | inl y ↦ subst (λ i. IsSettled i d) ((int_eqb_iff k j).0 y) p.settled
      | inr n ↦ Passed-IsSettled k e c d j p (h (rw n miss))
    ]

loop-cases :
    (recent : ℤ) (m : Map ℤ LocalSnapshot) (c : Client)
    → ((has_conflict recent m c.pending_remote_snapshots ≡ true)
        × ((c' : Client) × (reconcile recent m c ≡ stops (exited reconciliation_reason) c')))
      ⊎ ((c' : Client) × (reconcile recent m c ≡ goes_on c') × Swept recent m c c')
unfolding reconcile has_conflict due Map.find
loop-cases recent [] c = inr (
  c,
  refl,
  record {
    pending = refl;
    settled = λ j old h. h refl;
    calls = sym (append-nil c.calls);
    clear = refl;
  },
)
loop-cases recent ((k, e) ∷ m) c = elim (Bool-cases (is_young recent k)) [
  | inl young ↦ elim (loop-cases recent m c) [
    | inl (hit, (c', r)) ↦ inl (rw young hit, (c', rw young r))
    | inr (c', r, w) ↦ inr (c', rw young r, Swept-young recent k e m c c' young w)
  ]
  | inr old ↦ elim (entry-cases k e c) [
    | inl (hit, r) ↦ inl (rw (old, hit) refl, (send_if_due e c, rw (old, r) refl))
    | inr (d, r, p) ↦ elim (loop-cases recent m d) [
      | inl (hit, (c', q)) ↦ inl (
        rw (old, p.clear) (subst (λ x. has_conflict recent m x ≡ true) p.pending hit),
        (c', rw (old, r) q),
      )
      | inr (c', q, w) ↦ inr (c', rw (old, r) q, Swept-old recent k e m c d c' old p w)
    ]
  ]
]

reconcile_snapshots-eq :
    (recent : ℤ) (c : Client)
    → c.snapshots_enabled ≡ true
    → reconcile_snapshots recent c ≡ reconcile recent c.snapshot_map c
unfolding reconcile_snapshots
reconcile_snapshots-eq recent c on = ground (arith, on)

-- The end of a step of a connected client, with the snapshots switched on. When an unconfirmed snapshot
-- of 60 frames or more differs from the one that the opponent sent for its frame, the process ends with
-- the report of a desync. Else exactly the snapshots of 60 frames or more that were not sent before are
-- sent, in the order of their frames, and the entry of each such frame `k` is gone or waits for the
-- opponent's snapshot.
pub reconcile_snapshots_lem :
    (recent k : ℤ) (c : Client)
    → c.snapshots_enabled ≡ true
    → ((has_conflict recent c.snapshot_map c.pending_remote_snapshots ≡ true)
        × ((c' : Client) × (reconcile_snapshots recent c
              ≡ stops (exited reconciliation_reason) c')))
      ⊎ ((has_conflict recent c.snapshot_map c.pending_remote_snapshots ≡ false)
          × ((c' : Client) × (reconcile_snapshots recent c ≡ goes_on c')
              × (c'.calls ≡ c.calls ++ due recent c.snapshot_map)
              × ((is_young recent k || is_settled k c') ≡ true)))
reconcile_snapshots_lem recent k c on = elim (loop-cases recent c.snapshot_map c) [
  | inl (hit, (c', r)) ↦ inl (hit, (c', reconcile_snapshots-eq recent c on ∙ r))
  | inr (c', r, w) ↦ inr (
    w.clear,
    (
      c',
      reconcile_snapshots-eq recent c on ∙ r,
      w.calls,
      elim (Bool-cases (is_young recent k)) [
        | inl young ↦ rw young refl
        | inr old ↦
            rw (old, IsSettled-is_settled k c' (w.settled k old (λ miss e found. absurd (cc)))) refl
      ],
    ),
  )
]

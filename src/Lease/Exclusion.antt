-- ===== src/Lease/Exclusion.antt =====
-- Several runs and one board: `ActiveHandoffLease` of collab/tools/lib/handoff_core.py.
use ibkr_auto_trader.Prelude.{
  ℕ, ◌+◌, ◌≡◌, ◌≢◌, ◌≤◌, ◌<◌, refl, ◌⊎◌, true, false, none, some, String, List, [], ◌∷◌, ◌++◌,
  arith, text_key, ◌&&◌, if◌then◌else◌, Bool-cases, Option-cases, inl, inr, sym, ◌∙◌,
}
use ibkr_auto_trader.Prelude.Result.{Result, ok, err}
use ibkr_auto_trader.Lease.{
  LeaseRecord, reclaim_stale, release_event, Board, Run, LeaseError, lease_held, holds_another,
  is_stale, fresh_lease, write_lease, audit_event, acquire, renew, release,
}

-- What the runs and their heartbeats do, each at an instant.
pub data Act : Type 0 where
  acquires : Run → String → ℕ → Act
  renews : Run → ℕ → Act
  releases : Run → Act

abbrev pub or_same : Board → Result LeaseError Board → Board
or_same b (ok b') = b'
or_same b (err e) = b

apart : (s t : String) → text_key.same s t ≡ false → s ≢ t
apart s t h e = let q = (text_key.same_iff s t).1 e in ground arith

other : (s t : String) → s ≢ t → text_key.same s t ≡ false
other s t h = ground (arith, text_key.same_iff s t)

unfoldable pub act : Board → Act → Board
act b (acquires run hid now) = or_same b (acquire run hid now b)
act b (renews run now) = (renew run now b).0
act b (releases run) = (release run b).0

unfoldable pub acts : Board → List Act → Board
acts b [] = b
acts b (a ∷ as') = acts (act b a) as'

-- The heartbeat of the run that holds the board for a handoff, after an act: the instant of the
-- act if it is that run's own beat or its own acquisition of the same handoff, else what it was.
abbrev pub beat_after : String → String → ℕ → Act → ℕ
beat_after mine hid beat (acquires run hid' now) =
    if text_key.same run.run_uid mine && text_key.same hid' hid then now else beat
beat_after mine hid beat (renews run now) = if text_key.same run.run_uid mine then now else beat
beat_after mine hid beat (releases run) = beat

unfoldable pub last_beat : String → String → ℕ → List Act → ℕ
last_beat mine hid beat [] = beat
last_beat mine hid beat (a ∷ as') = last_beat mine hid (beat_after mine hid beat a) as'

-- An act that does not end the grip of `mine`, whose heartbeat is `beat`: another run tries only
-- within its patience, and the run itself does not let go.
abbrev pub IsPatient : String → ℕ → Act → Type 0
IsPatient mine beat (acquires run hid now) = run.run_uid ≢ mine → now < beat + run.ttl
IsPatient mine beat (renews run now) = Unit
IsPatient mine beat (releases run) = run.run_uid ≢ mine

-- Acts that are all patient with the run, each measured from its heartbeat at that moment.
abbrev pub ArePatient : String → String → ℕ → List Act → Type 0
ArePatient mine hid beat [] = Unit
ArePatient mine hid beat (a ∷ as') =
    IsPatient mine beat a × ArePatient mine hid (beat_after mine hid beat a) as'

-- The board is the run's, on its handoff, since the same instant, with a heartbeat of `beat`.
abbrev pub IsHeld : String → String → ℕ → ℕ → Board → Type 0
IsHeld mine hid since beat b =
    (r : LeaseRecord) × (b.lease ≡ some r)
    × (r.run_uid ≡ mine)
    × (r.hid ≡ hid)
    × (r.acquired_epoch ≡ since)
    × (r.heartbeat_epoch ≡ some beat)

-- A foreign run takes the board exactly if the lease on it is stale, its own run only for the same
-- handoff; the taking of a stale lease is on the audit trail, and a refusal changes nothing.
pub acquire_lem :
    (run : Run) (hid : String) (now : ℕ) (b : Board) (r : LeaseRecord)
    → b.lease ≡ some r
    → (r.run_uid ≢ run.run_uid
        → (is_stale run now r ≡ true
            → acquire run hid now b
              ≡ ok (record {
                lease = some (fresh_lease run hid now);
                audit = b.audit ++ reclaim_stale run.run_uid r ∷ [];
              }))
          × (is_stale run now r ≡ false → acquire run hid now b ≡ err (lease_held r)))
      × (r.run_uid ≡ run.run_uid
          → (r.hid ≡ hid
              → acquire run hid now b
                ≡ ok (record b {
                  lease =
                      some (record (fresh_lease run hid now) { acquired_epoch = r.acquired_epoch });
                }))
            × (r.hid ≢ hid → acquire run hid now b ≡ err (holds_another r.hid)))
unfolding acquire
acquire_lem run hid now b r e =
    let own = text_key.same_iff r.run_uid run.run_uid in
    let same = text_key.same_iff r.hid hid in
    rw e (
      λ foreign. (λ stale. ground (arith, own), λ live. ground (arith, own)),
      λ mine. (λ s. ground (arith, own, same), λ s. ground (arith, own, same)),
    )

not_stale :
    (run : Run) (now : ℕ) (r : LeaseRecord) (beat : ℕ)
    → r.heartbeat_epoch ≡ some beat
    → now < beat + run.ttl
    → is_stale run now r ≡ false
unfolding is_stale
not_stale run now r beat e t = rw e (ground arith)

stale_of :
    (run : Run) (now : ℕ) (r : LeaseRecord)
    → ((last : ℕ) → r.heartbeat_epoch ≡ some last → last + run.ttl ≤ now)
    → is_stale run now r ≡ true
unfolding is_stale
stale_of run now r w = elim (Option-cases r.heartbeat_epoch) [
  | inl e ↦ rw e refl
  | inr (last, e) ↦ (let t = w last e in rw e (ground arith))
]

renew_cases :
    (run : Run) (now : ℕ) (b : Board) (r : LeaseRecord)
    → b.lease ≡ some r
    → ((r.run_uid ≡ run.run_uid)
        × (renew run now b ≡ (write_lease (record r { heartbeat_epoch = some now }) b, true)))
      ⊎ ((r.run_uid ≢ run.run_uid) × (renew run now b ≡ (b, false)))
unfolding renew
renew_cases run now b r e = elim (Bool-cases (text_key.same r.run_uid run.run_uid)) [
  | inl o ↦ inl ((text_key.same_iff r.run_uid run.run_uid).0 o, rw (e, o) refl)
  | inr o ↦ inr (ground (arith, text_key.same_iff r.run_uid run.run_uid), rw (e, o) refl)
]

-- Only the run that holds the lease lets it go, and the release is on the audit trail; one that
-- does not hold it changes nothing.
release_lem :
    (run : Run) (b : Board) (r : LeaseRecord)
    → b.lease ≡ some r
    → (r.run_uid ≡ run.run_uid
        → release run b ≡ (
          record { lease = none; audit = b.audit ++ release_event run.run_uid r.hid ∷ [] },
          true,
        ))
      × (r.run_uid ≢ run.run_uid → release run b ≡ (b, false))
unfolding release
release_lem run b r e =
    let own = text_key.same_iff r.run_uid run.run_uid in
    rw e (λ o. ground (arith, own), λ o. ground (arith, own))

acquire-IsHeld :
    (mine hid : String) (since beat : ℕ) (b : Board) (run : Run) (hid' : String) (now : ℕ)
    → IsHeld mine hid since beat b
    → IsPatient mine beat (acquires run hid' now)
    → IsHeld mine hid since
        (beat_after mine hid beat (acquires run hid' now))
        (or_same b (acquire run hid' now b))
acquire-IsHeld mine hid since beat b run hid' now (r, e, u, h, s, k) p =
    let a = acquire_lem run hid' now b r e in
    elim (Bool-cases (text_key.same run.run_uid mine)) [
      | inl own ↦
          (let o = (text_key.same_iff run.run_uid mine).0 own in
            elim (Bool-cases (text_key.same hid' hid)) [
              | inl m ↦
                  (let m' = (text_key.same_iff hid' hid).0 m in
                    rw (own, m, (a.1 (u ∙ sym o)).0 (h ∙ sym m'))
                      (
                        record (fresh_lease run hid' now) { acquired_epoch = r.acquired_epoch },
                        refl,
                        o,
                        m',
                        s,
                        refl,
                      ))
              | inr m ↦
                  rw (own, m, (a.1 (u ∙ sym o)).1 (λ q. apart hid' hid m (sym q ∙ h)))
                    (r, e, u, h, s, k)
            ])
      | inr other ↦
          (let o = apart run.run_uid mine other in
            rw (other, (a.0 (λ q. o (sym q ∙ u))).1 (not_stale run now r beat k (p o)))
              (r, e, u, h, s, k))
    ]

renew-IsHeld :
    (mine hid : String) (since beat : ℕ) (b : Board) (run : Run) (now : ℕ)
    → IsHeld mine hid since beat b
    → IsHeld mine hid since (beat_after mine hid beat (renews run now)) (renew run now b).0
renew-IsHeld mine hid since beat b run now (r, e, u, h, s, k) = elim (renew_cases run now b r e) [
  | inl (o, q) ↦
      rw ((text_key.same_iff run.run_uid mine).1 (sym o ∙ u), q)
        (record r { heartbeat_epoch = some now }, refl, u, h, s, refl)
  | inr (o, q) ↦
      (let n : text_key.same run.run_uid mine ≡ false =
          other run.run_uid mine (λ x. o (u ∙ sym x)) in
        rw (n, q) (r, e, u, h, s, k))
]

act-IsHeld :
    (mine hid : String) (since beat : ℕ) (b : Board) (a : Act)
    → IsHeld mine hid since beat b
    → IsPatient mine beat a
    → IsHeld mine hid since (beat_after mine hid beat a) (act b a)
unfolding act
act-IsHeld mine hid since beat b (acquires run hid' now) h p =
    acquire-IsHeld mine hid since beat b run hid' now h p
act-IsHeld mine hid since beat b (renews run now) h p = renew-IsHeld mine hid since beat b run now h
act-IsHeld mine hid since beat b (releases run) (r, e, u, h, s, k) p =
    rw (act, (release_lem run b r e).1 (λ q. p (sym q ∙ u))) (r, e, u, h, s, k)

-- A run that holds the board keeps it, on its handoff and since the same instant, however many
-- others try and in whatever order, as long as it does not let go and each of the others tries only
-- while the latest heartbeat of the run, as it stands at that moment, is within its patience. Each
-- renewal and each acquisition of the same handoff by the run itself is a heartbeat, and the lease
-- ends with the last of them.
pub acts-IsHeld :
    (mine hid : String) (since beat : ℕ) (b : Board) (as' : List Act)
    → IsHeld mine hid since beat b
    → ArePatient mine hid beat as'
    → IsHeld mine hid since (last_beat mine hid beat as') (acts b as')
unfolding acts last_beat
acts-IsHeld mine hid since beat b [] h p = h
acts-IsHeld mine hid since beat b (a ∷ as') h p =
    acts-IsHeld mine hid since (beat_after mine hid beat a) (act b a) as'
      (act-IsHeld mine hid since beat b a h p.0) p.1

-- A run that waits out its patience gets the board: if whatever lease is on it is another's whose
-- heartbeat, if any, is a patience old, the acquisition is made, and the board is then the run's,
-- held from that instant on.
pub acquire_after_patience :
    (run : Run) (hid : String) (now : ℕ) (b : Board)
    → ((r : LeaseRecord)
        → b.lease ≡ some r
        → (r.run_uid ≢ run.run_uid)
          × ((last : ℕ) → r.heartbeat_epoch ≡ some last → last + run.ttl ≤ now))
    → (b' : Board) × (acquire run hid now b ≡ ok b') × IsHeld run.run_uid hid now now b'
unfolding acquire
acquire_after_patience run hid now b w =
    let fresh_lease_held : IsHeld run.run_uid hid now now
        (write_lease (fresh_lease run hid now) b) =
      (fresh_lease run hid now, refl, refl, refl, refl, refl) in
    elim (Option-cases b.lease) [
      | inl e ↦ (write_lease (fresh_lease run hid now) b, rw e refl, fresh_lease_held)
      | inr (r, e) ↦ (
        write_lease (fresh_lease run hid now) (audit_event (reclaim_stale run.run_uid r) b),
        ((acquire_lem run hid now b r e).0 (w r e).0).0 (stale_of run now r (w r e).1),
        fresh_lease_held,
      )
    ]

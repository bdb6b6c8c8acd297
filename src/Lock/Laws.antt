-- ===== src/Lock/Laws.antt =====
-- When the lock is taken, what it leaves, and what its renewal does.
use levels.Base.{
  ℕ, ◌+◌, ◌^◌, ◌<◌, ◌≡◌, ◌⊎◌, ◌∙◌, ap, sym, refl, inl, inr, true, false, Bool, Option, none, some,
  List, [], ◌∷◌, Str, Bytes, arith, Bool-cases,
}
use levels.Base.Int.{ℤ, pos, sub_saturated}
use levels.Failure.{Result, nil, Result-cases}
use levels.Config.{OpenOption}
use levels.Client.{Context, IsLawful, is_some-eq-none}
use levels.Files.{IsLawfulFs, dir_of}
use levels.Lock.{
  LockEnv, LockState, lock_key, local_lock_path, acquire_lock, take_lock, contest, replace_stale,
  lock_as, lock, new_lock_id, unlock, is_lock_holder, is_lock_stale, is_process_running,
  renewal_tick, renew_all,
}
use levels.Lock.Text.{lock_text, read_lock_text-lock_text}

module _ {E : LockEnv} (opt : OpenOption) {object : E.api.State → Str → Option Bytes}
    (api : IsLawful E.api object) {file : E.fs.State → Str → Option Bytes}
    (fs : IsLawfulFs E.fs file) where
  abbrev pub remote_lock : LockState E opt → Option Bytes
  remote_lock s = object s.client lock_key

  abbrev pub local_lock : LockState E opt → Option Bytes
  local_lock s = file s.files (local_lock_path E opt)

  -- The lock is taken: both copies have its text, and it is renewed.
  pub record IsTaken (s : LockState E opt) : Type 0 where
    pub remote : remote_lock s ≡ some s.lock_id
    pub local : local_lock s ≡ some s.lock_id
    pub renewing : s.renewing ≡ true

  acquire_lock_ok :
      (ctx : Context) (s : LockState E opt)
      → let (r, t) = acquire_lock E opt ctx s in
        r ≡ nil → (remote_lock t ≡ some t.lock_id) × (local_lock t ≡ some t.lock_id)
  unfolding acquire_lock
  acquire_lock_ok ctx s h =
      let p = local_lock_path E opt in
      let f1 = (E.fs.mkdir_all (dir_of p) s.files).1 in
      ground (arith, fs.write_ok p s.lock_id f1, api.put_ok ctx lock_key s.lock_id s.client)

  take_lock-IsTaken :
      (ctx : Context) (s : LockState E opt)
      → let (r, t) = take_lock E opt ctx s in r ≡ nil → IsTaken t
  unfolding take_lock
  take_lock-IsTaken ctx s h = elim (Result-cases (acquire_lock E opt ctx s).0) [
    | inr (e, r) ↦ absurd (ground arith)
    | inl (_, r) ↦
        let t = (acquire_lock E opt ctx s).1 in
        let same : (take_lock E opt ctx s).1 ≡ record t { renewing = true } = ground arith in
        let both = acquire_lock_ok ctx s r in
        rw same (record { remote = both.0; local = both.1; renewing = refl })
  ]

  -- The lock may be taken: nobody holds it, or its text is that of the local file, or it is stale at
  -- the time that the clock shows.
  abbrev pub IsFree : LockState E opt → Type 0
  IsFree s =
      (remote_lock s ≡ none)
      ⊎ ((text : Bytes) × (remote_lock s ≡ some text)
          × ((local_lock s ≡ some text)
              ⊎ (let (now, h) = E.host.now s.host_state in
                  is_lock_stale E opt text now (record s { host_state = h }) ≡ true)))

  replace_stale_lem :
      (ctx : Context) (text : Bytes) (s : LockState E opt)
      → let (r, t) = replace_stale E opt ctx text s in
        r ≡ nil
        → (let (now, h) = E.host.now s.host_state in
            is_lock_stale E opt text now (record s { host_state = h }) ≡ true)
          × IsTaken t
  unfolding replace_stale
  replace_stale_lem ctx text s h =
      let (now, h1) = E.host.now s.host_state in
      let u = record s { host_state = h1 } in
      elim (Bool-cases (is_lock_stale E opt text now u)) [
        | inr fresh ↦ absurd (ground arith)
        | inl stale ↦
            let same : replace_stale E opt ctx text s ≡ take_lock E opt ctx u = ground arith in
            (stale, rw same (take_lock-IsTaken ctx u (sym (ap (λ x. x.0) same) ∙ h)))
      ]

  is_lock_holder_lem :
      (text : Bytes) (local : Result Bytes) (s : LockState E opt)
      → is_lock_holder E opt text local s ≡ true
      → local_lock s ≡ some text
  unfolding is_lock_holder
  is_lock_holder_lem text local s h =
      elim (Result-cases (E.fs.read_file (local_lock_path E opt) s.files)) [
        | inr (e, r) ↦ absurd (ground arith)
        | inl (d, r) ↦
            let same : d ≡ text = ground arith in
            fs.read_ok (local_lock_path E opt) s.files d r ∙ ap some same
      ]

  is_lock_stale-client :
      (text : Bytes) (now : ℤ) (s : LockState E opt) (c : E.api.State)
      → is_lock_stale E opt text now (record s { client = c }) ≡ is_lock_stale E opt text now s
  unfolding is_lock_stale is_process_running
  is_lock_stale-client text now s c = refl

  -- The right to take a lock whose text is known.
  abbrev IsRight : Bytes → LockState E opt → Type 0
  IsRight text s =
      (local_lock s ≡ some text)
      ⊎ (let (now, h) = E.host.now s.host_state in
          is_lock_stale E opt text now (record s { host_state = h }) ≡ true)

  IsRight-client :
      (text : Bytes) (s : LockState E opt) (c : E.api.State)
      → IsRight text (record s { client = c })
      → IsRight text s
  IsRight-client text s c (inl mine) = inl mine
  IsRight-client text s c (inr stale) =
      let (now, h) = E.host.now s.host_state in
      inr (sym (is_lock_stale-client text now (record s { host_state = h }) c) ∙ stale)

  contest_lem :
      (ctx : Context) (local : Result Bytes) (s : LockState E opt)
      → let (r, t) = contest E opt ctx local s in
        r ≡ nil → ((text : Bytes) × (remote_lock s ≡ some text) × IsRight text s) × IsTaken t
  unfolding contest
  contest_lem ctx local s h = elim (Result-cases (E.api.get_bytes ctx lock_key s.client).0) [
    | inr (e, r) ↦ absurd (ground arith)
    | inl (text, r) ↦
        let u = record s { client = (E.api.get_bytes ctx lock_key s.client).1 } in
        let held = api.get_ok ctx lock_key s.client text r in
        elim (Bool-cases (is_lock_holder E opt text local u)) [
          | inl holder ↦
              let same : contest E opt ctx local s ≡ take_lock E opt ctx u = ground arith in
              (
                (text, held, inl (is_lock_holder_lem text local u holder)),
                rw same (take_lock-IsTaken ctx u (sym (ap (λ x. x.0) same) ∙ h)),
              )
          | inr other ↦
              let same : contest E opt ctx local s ≡ replace_stale E opt ctx text u =
                ground arith in
              let (now, h1) = E.host.now s.host_state in
              let s1 = record s { host_state = h1 } in
              let replaced = replace_stale_lem ctx text u (sym (ap (λ x. x.0) same) ∙ h) in
              (
                (text, held, inr (sym (is_lock_stale-client text now s1 u.client) ∙ replaced.0)),
                rw same (replaced.1),
              )
        ]
  ]

  lock_as_lem :
      (ctx : Context) (s : LockState E opt)
      → let (r, t) = lock_as E opt ctx s in r ≡ nil → IsFree s × IsTaken t
  unfolding lock_as
  lock_as_lem ctx s h =
      let u = record s { client = (E.api.exists ctx lock_key s.client).1 } in
      let kept = api.exists_keeps ctx lock_key s.client lock_key in
      elim (Result-cases (E.api.exists ctx lock_key s.client).0) [
        | inr (e, r) ↦ absurd (ground arith)
        | inl (false, r) ↦
            let same : lock_as E opt ctx s ≡ take_lock E opt ctx u = ground arith in
            (
              inl (is_some-eq-none _ (api.exists_ok ctx lock_key s.client false r)),
              rw same (take_lock-IsTaken ctx u (sym (ap (λ x. x.0) same) ∙ h)),
            )
        | inl (true, r) ↦
            let local = E.fs.read_file (local_lock_path E opt) s.files in
            let same : lock_as E opt ctx s ≡ contest E opt ctx local u = ground arith in
            let ((text, held, right), taken) =
              contest_lem ctx local u (sym (ap (λ x. x.0) same) ∙ h) in
            (inr (text, sym kept ∙ held, IsRight-client text s u.client right), rw same taken)
      ]

  -- If Lock succeeds, then the lock was free for this process once its new identity was made, and
  -- now the remote and the local lock have that identity and the renewal runs. Free means that
  -- there is no remote lock, or that its text is that of the local file, or that it is stale at
  -- the time that the clock shows.
  pub lock-IsTaken :
      (ctx : Context) (s : LockState E opt)
      → let (r, t) = lock E opt ctx s in r ≡ nil → IsFree (new_lock_id E opt s).1 × IsTaken t
  unfolding lock
  lock-IsTaken ctx s h = lock_as_lem ctx (new_lock_id E opt s).1 h

  -- If Unlock succeeds, the remote lock is gone and the renewal is told to stop.
  unlock_ok :
      (ctx : Context) (s : LockState E opt)
      → let (r, t) = unlock E opt ctx s in r ≡ nil → (remote_lock t ≡ none) × (t.stopped ≡ true)
  unfolding unlock
  unlock_ok ctx s h = ground (arith, api.remove_ok ctx lock_key s.client)

  -- A renewal that still runs after a tick has written the same text again.
  renewal_tick_lem :
      (ctx : Context) (first : Bool) (s : LockState E opt)
      → let t = renewal_tick E opt ctx first s in
        t.renewing ≡ true
        → remote_lock s ≡ some s.lock_id
        → (s.renewing ≡ true) × ((t.lock_id ≡ s.lock_id) × (remote_lock t ≡ some t.lock_id))
  unfolding renewal_tick
  renewal_tick_lem ctx first s h held = ground (arith, api.put_ok ctx lock_key s.lock_id s.client)

  -- A renewal that has ended does not begin again.
  renewal_tick-renewing :
      (ctx : Context) (first : Bool) (s : LockState E opt)
      → (renewal_tick E opt ctx first s).renewing ≡ true
      → s.renewing ≡ true
  unfolding renewal_tick
  renewal_tick-renewing ctx first s h = ground arith

  renew_all-renewing :
      (ticks : List (Context × Bool)) (s : LockState E opt)
      → (renew_all E opt ticks s).renewing ≡ true
      → s.renewing ≡ true
  unfolding renew_all
  renew_all-renewing [] s h = h
  renew_all-renewing ((ctx, first) ∷ ticks) s h =
      renewal_tick-renewing ctx first s
        (renew_all-renewing ticks (renewal_tick E opt ctx first s) h)

  -- As long as the renewal runs, the remote lock has the text that it was taken with.
  renew_all_lem :
      (ticks : List (Context × Bool)) (s : LockState E opt)
      → let t = renew_all E opt ticks s in
        t.renewing ≡ true
        → remote_lock s ≡ some s.lock_id
        → (s.renewing ≡ true) × (remote_lock t ≡ some s.lock_id)
  unfolding renew_all
  renew_all_lem [] s h held = (h, held)
  renew_all_lem ((ctx, first) ∷ ticks) s h held =
      let u = renewal_tick E opt ctx first s in
      let idle = renew_all-renewing ticks u h in
      let (ran, (same, now)) = renewal_tick_lem ctx first s idle held in
      let rest = renew_all_lem ticks u h now in (ran, rest.1 ∙ ap some same)

module _ {E : LockEnv} (opt : OpenOption) where
  -- A lock is stale for everybody once its lease is over since the time in its text.
  is_lock_stale-lock_text :
      (pid timestamp rnd now lease : ℕ) (s : LockState E opt)
      → pid < 2 ^ 63
      → timestamp < 2 ^ 63
      → rnd < 2 ^ 63
      → now < 2 ^ 63
      → opt.lease_duration ≡ pos lease
      → timestamp + lease < now
      → is_lock_stale E opt (lock_text (pos pid) (pos timestamp) (pos rnd)) (pos now) s ≡ true
  unfolding is_lock_stale sub_saturated
  is_lock_stale-lock_text pid timestamp rnd now lease s hp ht hr hn term over =
      ground (arith, read_lock_text-lock_text pid timestamp rnd hp ht hr)

module _ {E E' : LockEnv} (opt opt' : OpenOption) {object : E.api.State → Str → Option Bytes}
    (api : IsLawful E.api object) {file : E.fs.State → Str → Option Bytes}
    (fs : IsLawfulFs E.fs file) where
  -- A lock that is taken and renewed any number of times, without one failure, counts as stale in
  -- every process once its lease is over since the time at which it was taken.
  pub renewed_lock-is_lock_stale :
      (pid timestamp rnd now lease : ℕ) (ticks : List (Context × Bool)) (s : LockState E opt)
      (other : LockState E' opt')
      → pid < 2 ^ 63
      → timestamp < 2 ^ 63
      → rnd < 2 ^ 63
      → now < 2 ^ 63
      → opt'.lease_duration ≡ pos lease
      → timestamp + lease < now
      → s.lock_id ≡ lock_text (pos pid) (pos timestamp) (pos rnd)
      → IsTaken opt api fs s
      → let t = renew_all E opt ticks s in
        t.renewing ≡ true
        → (text : Bytes) × (remote_lock opt api fs t ≡ some text)
          × (is_lock_stale E' opt' text (pos now) other ≡ true)
  renewed_lock-is_lock_stale pid timestamp rnd now lease ticks s other hp ht hr hn term over id
        taken h =
      let held = (renew_all_lem opt api fs ticks s h taken.remote).1 in
      (
        s.lock_id,
        held,
        rw id
            (is_lock_stale-lock_text opt' pid timestamp rnd now lease other hp ht hr hn term over),
      )

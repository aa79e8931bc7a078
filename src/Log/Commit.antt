-- ===== src/Log/Commit.antt =====
-- Crash safety of `commit` (kernel/log.c): after a crash at any point of it, recovery finds either
-- none of the transaction's writes or all of them.
use operating_system_se.Base.{
  ℕ, ◌+◌, ◌≤◌, ◌<◌, ◌≡◌, ◌≢◌, refl, sym, ap, ◌∙◌, ◌⊎◌, inl, inr, true, false, List, [], ◌∷◌, All,
  arith, subst, ◌==◌, if◌then◌else◌, length,
}
use operating_system_se.Log.{
  Block, Store, update, decode, encode, log_blocks, install_from, write_log_from, write_head,
  commit, has,
}
use operating_system_se.Log.Install.{
  decode-encode, is_log, LogHolds, LogHolds-frame, Homes, Between, install_from-disk,
  install_from-crashes,
}
use operating_system_se.Log.Recover.{
  update_ne, has-home, write_head-disk, recover-with, IsReady, RecoversTo, IsAtomic,
}

module _ (start : ℕ) (bs : List ℕ) (s : Store) (ready : IsReady start bs s) where
  open ready use {fits, homes, empty, clean}

  -- A disk before the header is written, and one after.
  record Quiet (e : ℕ → Block) : Type 0 where
    header : decode (e start) ≡ []
    old : (x : ℕ) → is_log start x ≡ false → e x ≡ s.disk x

  record Loud (e : ℕ → Block) : Type 0 where
    header : decode (e start) ≡ bs
    log : LogHolds start e s.cache 0 bs
    between :
        (x : ℕ)
        → is_log start x ≡ false
        → (e x ≡ s.disk x) ⊎ ((has x bs ≡ true) × (e x ≡ s.cache x))

  Quiet-IsAtomic : (e : ℕ → Block) → Quiet e → IsAtomic start s e
  Quiet-IsAtomic e q =
      inl (λ x home. recover-with start e e [] x q.header (omega arith) tt tt home ∙ q.old x home)

  Loud-new : (e : ℕ → Block) → Loud e → RecoversTo start s.cache e
  Loud-new e l x home =
      let r = recover-with start e s.cache bs x l.header fits homes l.log home in
      ground (arith, r, l.between x home, clean x)

  -- A store while the log is written: the cache holds the new contents.
  record Writing (t : Store) : Type 0 where
    quiet : Quiet t.disk
    new : (x : ℕ) → is_log start x ≡ false → t.cache x ≡ s.cache x
    safe : All (IsAtomic start s) t.crashes

  logged : ℕ → ℕ → Store → Store
  logged tail b t =
      let c = update t.cache (start + tail + 1) (t.cache b) in
      let d = update t.disk (start + tail + 1) (c (start + tail + 1)) in
      record { disk = d; cache = c; crashes = d ∷ t.crashes }

  logged-Writing :
      (tail b : ℕ) (t : Store) → tail < log_blocks → Writing t → Writing (logged tail b t)
  unfolding logged
  logged-Writing tail b t lt w =
      let q : Quiet (logged tail b t).disk = record {
        header = ap decode (update_ne t.disk _ _ start (omega arith)) ∙ w.quiet.header;
        old = λ x home. ground (arith, w.quiet.old x home);
      } in
      record {
        quiet = q;
        new = λ x home. update_ne t.cache _ _ x (λ e. ground arith) ∙ w.new x home;
        safe = (Quiet-IsAtomic _ q, w.safe);
      }

  write_log-below :
      (tail : ℕ) (cs : List ℕ) (t : Store) (x : ℕ)
      → x ≤ start + tail
      → ((write_log_from start tail cs t).disk x ≡ t.disk x)
        × ((write_log_from start tail cs t).cache x ≡ t.cache x)
  unfolding write_log_from logged
  write_log-below tail [] t x h = (refl, refl)
  write_log-below tail (b ∷ cs) t x h =
      ground (arith, write_log-below (tail + 1) cs (logged tail b t) x (omega arith))

  -- What `write_log` leaves: nothing at home has changed, and the log holds the new contents.
  record Logged (tail : ℕ) (cs : List ℕ) (t : Store) : Type 0 where
    writing : Writing t
    on_disk : LogHolds start t.disk s.cache tail cs
    in_cache : LogHolds start t.cache s.cache tail cs

  write_log-Logged :
      (tail : ℕ) (cs : List ℕ) (t : Store)
      → tail + length cs ≤ log_blocks
      → Homes start cs
      → Writing t
      → Logged tail cs (write_log_from start tail cs t)
  unfolding write_log_from logged
  write_log-Logged tail [] t h hs w = record { writing = w; on_disk = tt; in_cache = tt }
  write_log-Logged tail (b ∷ cs) t h hs w =
      let t1 : Store = logged tail b t in
      let r =
        write_log-Logged (tail + 1) cs t1 (omega arith) hs.1
          (logged-Writing tail b t (omega arith) w) in
      let below = write_log-below (tail + 1) cs t1 (start + tail + 1) (omega arith) in
      let here : t.cache b ≡ s.cache b = w.new b hs.0 in
      record {
        writing = r.writing;
        on_disk = (ground (arith, below, here), r.on_disk);
        in_cache = (ground (arith, below, here), r.in_cache);
      }

  -- What holds once the header is on disk.
  record Committed (t : Store) : Type 0 where
    loud : Loud t.disk
    in_cache : LogHolds start t.cache s.cache 0 bs
    new : (x : ℕ) → is_log start x ≡ false → t.cache x ≡ s.cache x
    safe : All (IsAtomic start s) t.crashes

  Loud-IsAtomic : (e : ℕ → Block) → Loud e → IsAtomic start s e
  Loud-IsAtomic e l = inr (Loud-new e l)

  -- The header's block lies below the log's blocks.
  head_ne : (x : ℕ) → start + 0 < x → x ≢ start
  head_ne x h = omega arith

  home_ne : (x : ℕ) → is_log start x ≡ false → x ≢ start
  home_ne x h e = ground arith

  write_head-crashes :
      (cs : List ℕ) (t : Store)
      → (write_head start cs t).crashes ≡ (write_head start cs t).disk ∷ t.crashes
  unfolding write_head
  write_head-crashes cs t = refl

  write_head-safe :
      (cs : List ℕ) (t : Store)
      → IsAtomic start s (write_head start cs t).disk
      → All (IsAtomic start s) t.crashes
      → All (IsAtomic start s) (write_head start cs t).crashes
  write_head-safe cs t here h =
      subst (All (IsAtomic start s)) (sym (write_head-crashes cs t)) (here, h)

  head-Committed : (t : Store) → Logged 0 bs t → Committed (write_head start bs t)
  head-Committed t l =
      let after : Store = write_head start bs t in
      let at : (x : ℕ)
          → (after.disk x ≡ (if x == start then encode bs (t.cache start) else t.disk x))
            × (after.cache x ≡ (if x == start then encode bs (t.cache start) else t.cache x)) =
        write_head-disk start bs t in
      let loud : Loud after.disk = record {
        header =
            ap decode {y = encode bs (t.cache start)} (ground (arith, at start))
            ∙ decode-encode bs (t.cache start);
        log =
            LogHolds-frame start t.disk after.disk s.cache 0 bs (λ x lo hi. ground (arith, at x))
              l.on_disk;
        between = λ x home. inl (ground (arith, at x, l.writing.quiet.old x home));
      } in
      record {
        loud = loud;
        in_cache =
            LogHolds-frame start t.cache after.cache s.cache 0 bs (λ x lo hi. ground (arith, at x))
              l.in_cache;
        new = λ x home. ground (arith, at x, l.writing.new x home);
        safe = write_head-safe bs t (Loud-IsAtomic after.disk loud) l.writing.safe;
      }

  -- A disk on which some of the blocks are installed.
  Between-Loud :
      (t : Store) → Committed t → (e : ℕ → Block) → Between start t.disk s.cache bs e → Loud e
  Between-Loud t c e mid = record {
    header =
        ap decode {y = t.disk start} (ground (arith, mid start, has-home start start bs homes))
        ∙ c.loud.header;
    log =
        LogHolds-frame start t.disk e s.cache 0 bs
          (λ x lo hi. ground (arith, mid x, has-home start x bs homes, fits)) c.loud.log;
    between = λ x home. ground (arith, mid x, c.loud.between x home);
  }

  -- The whole of the transaction is at home.
  record Done (t : Store) : Type 0 where
    header : decode (t.disk start) ≡ []
    new : (x : ℕ) → is_log start x ≡ false → (t.disk x ≡ s.cache x) × (t.cache x ≡ s.cache x)
    safe : All (IsAtomic start s) t.crashes

  finish-Done : (t : Store) → Committed t → Done (write_head start [] (install_from start 0 bs t))
  finish-Done t c =
      let u : Store = install_from start 0 bs t in
      let v : Store = write_head start [] u in
      let at : (x : ℕ)
          → (v.disk x ≡ (if x == start then encode [] (u.cache start) else u.disk x))
            × (v.cache x ≡ (if x == start then encode [] (u.cache start) else u.cache x)) =
        write_head-disk start [] u in
      let moved =
        λ (x : ℕ). install_from-disk start s.cache 0 bs t x (omega arith) homes c.in_cache in
      let header : decode (v.disk start) ≡ [] =
        ap decode {y = encode [] (u.cache start)} (ground (arith, at start))
        ∙ decode-encode [] (u.cache start) in
      let new : (x : ℕ)
          → is_log start x ≡ false
          → (v.disk x ≡ s.cache x) × (v.cache x ≡ s.cache x) =
        λ x home. ground (arith, at x, moved x, c.loud.between x home, c.new x home, clean x) in
      let atomic : IsAtomic start s v.disk = inr (λ x home.
        recover-with start v.disk v.disk [] x header (omega arith) tt tt home ∙ (new x home).0) in
      let crashes =
        install_from-crashes start s.cache (IsAtomic start s) t.disk bs 0 bs t (omega arith) homes
          c.in_cache (λ x e. e) (λ x. inl refl) (λ e mid. Loud-IsAtomic e (Between-Loud t c e mid))
          c.safe in
      record { header = header; new = new; safe = write_head-safe [] u atomic crashes }

  ready-Writing : s.crashes ≡ [] → Writing s
  ready-Writing none = record {
    quiet = record { header = empty; old = λ x home. refl };
    new = λ x home. refl;
    safe = subst (All (IsAtomic start s)) (sym none) tt;
  }

  -- Whenever the machine stops in `commit`, recovery of the disk gives, outside the log, either what
  -- the disk held before or what the cache held.
  abbrev pub CrashSafe : Type 0
  CrashSafe = All (IsAtomic start s) (commit start bs s).crashes

  -- Afterwards the disk holds what the cache held, and the log is empty.
  abbrev pub IsDone : Type 0
  IsDone =
      (decode ((commit start bs s).disk start) ≡ [])
      × ((x : ℕ) → is_log start x ≡ false → (commit start bs s).disk x ≡ s.cache x)

finished :
    (start b : ℕ) (bs : List ℕ) (s : Store) (ready : IsReady start (b ∷ bs) s)
    → s.crashes ≡ []
    → Done start (b ∷ bs) s ready (commit start (b ∷ bs) s)
unfolding commit
finished start b bs s ready none =
    let w =
      write_log-Logged start (b ∷ bs) s ready 0 (b ∷ bs) s (omega (arith, ready.fits)) ready.homes
        (ready-Writing start (b ∷ bs) s ready none) in
    finish-Done start (b ∷ bs) s ready _ (head-Committed start (b ∷ bs) s ready _ w)

-- From a ready log, `commit` is atomic against crashes: for the disk as it is after each single write of
-- `commit`, recovery gives, outside the log, all of what the disk held before or all of what the cache held.
pub commit-IsAtomic :
    (start : ℕ) (bs : List ℕ) (s : Store)
    → (ready : IsReady start bs s) → s.crashes ≡ []
    → CrashSafe start bs s ready
unfolding commit
commit-IsAtomic start [] s ready none = subst (All (IsAtomic start s)) (sym none) tt
commit-IsAtomic start (b ∷ bs) s ready none = (finished start b bs s ready none).safe

-- From a ready log, `commit` ends with an empty log and with a disk that holds, outside the log, what the
-- cache held.
pub commit-IsDone :
    (start : ℕ) (bs : List ℕ) (s : Store)
    → (ready : IsReady start bs s) → s.crashes ≡ []
    → IsDone start bs s ready
unfolding commit
commit-IsDone start [] s ready none = (ready.empty, λ x home. ready.clean x refl home)
commit-IsDone start (b ∷ bs) s ready none =
    let d = finished start b bs s ready none in (d.header, λ x home. (d.new x home).0)
